-- ===== src/Aof.antt =====
-- src/aof.cpp: reading the commands of the append-only file back, and appending to it. The file
-- system is outside: what a file holds and what write(2) and fsync(2) return are arguments.
pub mod Reading
pub mod Appending
pub mod Manifest
mod Tests
use codecrafters_redis_cpp.Prelude.{
  ℕ, zero, suc, ◌+◌, ◌-◌, ◌++◌, Option, none, some, List, [], ◌∷◌, ◌==◌, if◌then◌else◌, leb, Bytes,
  codes, length, take, drop,
}
use codecrafters_redis_cpp.Numeric.{to_string}
use codecrafters_redis_cpp.Resp.{
  Command, ParseResult, ParseError, ok, incomplete, error, parse_command,
}
use codecrafters_redis_cpp.Resp

-- `std::expected` of the commands read; `out_of_fuel` stands for a loop that has not ended.
pub data Read : Type 0 where
  commands : List Command → Read
  unreadable : Bytes → Read
  out_of_fuel : Read

-- What a round does with what it parsed; `further` is the rest of the loop.
abbrev pub after_parse : ℕ → Resp.Outcome ParseResult → (ParseResult → Read) → Read
after_parse position (ok parsed) further =
    if parsed.bytes_consumed == 0
    then unreadable (codes "AOF parser made no progress at byte " ++ to_string position)
    else further parsed
after_parse position incomplete further =
    unreadable (codes "Incomplete command in AOF file at byte " ++ to_string position)
after_parse position (error e) further = unreadable (
    codes "Invalid command in AOF file at byte "
    ++ (to_string position ++ (codes ": " ++ e.message)))

-- The loop of `read_commands`, with `unread = contents.substr(position)`.
pub read_loop : ℕ → ℕ → Bytes → List Command → Read
read_loop fuel position [] done = commands done
read_loop zero position (c ∷ unread) done = out_of_fuel
read_loop (suc fuel) position (c ∷ unread) done =
    after_parse position (parse_command (c ∷ unread)) (λ parsed.
      read_loop fuel (position + parsed.bytes_consumed) (drop parsed.bytes_consumed (c ∷ unread))
        (done ++ parsed.command ∷ []))

-- Each round consumes a byte, so the length of the file is fuel enough.
unfoldable pub read_commands : Bytes → Read
unfolding read_loop
read_commands contents = read_loop (length contents) 0 contents []

-- What write(2) returns: a count of bytes, EINTR, or another error with its text.
pub data Write : Type 0 where
  wrote : ℕ → Write
  interrupted : Write
  failed : Bytes → Write

-- How the loop of `append` ends; `waiting` is a call of write(2) that has not returned.
pub data Appended : Type 0 where
  appended : Appended
  no_append : Bytes → Appended
  waiting : Appended

-- The loop of `append`: what of the payload is not written yet, and what the file holds.
unfoldable pub append_loop : Bytes → List Write → Bytes → Bytes → Appended × Bytes
append_loop path writes [] file = (appended, file)
append_loop path [] (c ∷ payload) file = (waiting, file)
append_loop path (interrupted ∷ writes) (c ∷ payload) file =
    append_loop path writes (c ∷ payload) file
append_loop path (failed reason ∷ writes) (c ∷ payload) file =
    (no_append (codes "Cannot append to AOF file '" ++ (path ++ (codes "': " ++ reason))), file)
append_loop path (wrote zero ∷ writes) (c ∷ payload) file =
    (no_append (codes "AOF write made no progress"), file)
append_loop path (wrote (suc n) ∷ writes) (c ∷ payload) file =
    append_loop path writes (drop (suc n) (c ∷ payload)) (file ++ take (suc n) (c ∷ payload))

pub data SyncPolicy : Type 0 where
  always every_second never : SyncPolicy

-- `AppendOnlyFile`, with what the file holds and how much of that an fsync(2) has brought to the disk.
pub record AppendOnlyFile : Type 0 where
  pub path : Bytes
  pub contents : Bytes
  pub synced : ℕ
  pub sync_policy : SyncPolicy
  pub last_sync : ℕ

-- `sync`, by what fsync(2) returns, `none` for success, and the time then.
abbrev pub sync : Option Bytes → ℕ → AppendOnlyFile → Appended × AppendOnlyFile
sync none now file = (appended, record file { synced = length file.contents; last_sync = now })
sync (some reason) now file =
    (no_append (codes "Cannot sync AOF file '" ++ (file.path ++ (codes "': " ++ reason))), file)

-- The policy, after the payload is written. The clock is read for it, and again by `sync`.
abbrev pub after_write :
    SyncPolicy → Option Bytes → ℕ → ℕ → AppendOnlyFile → Appended × AppendOnlyFile
after_write always fsync now now' file = sync fsync now' file
after_write every_second fsync now now' file =
    if leb 1_000_000_000 (now - file.last_sync) then sync fsync now' file else (appended, file)
after_write never fsync now now' file = (appended, file)

abbrev pub finish :
    Appended × Bytes → Option Bytes → ℕ → ℕ → AppendOnlyFile → Appended × AppendOnlyFile
finish (appended, contents) fsync now now' file =
    after_write file.sync_policy fsync now now' (record file { contents = contents })
finish (no_append reason, contents) fsync now now' file =
    (no_append reason, record file { contents = contents })
finish (waiting, contents) fsync now now' file = (waiting, record file { contents = contents })

unfoldable pub append :
    List Write → Option Bytes → ℕ → ℕ → Bytes → AppendOnlyFile → Appended × AppendOnlyFile
unfolding append_loop
append writes fsync now now' payload file =
    finish (append_loop file.path writes payload file.contents) fsync now now' file
