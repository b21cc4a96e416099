-- ===== src/Processor/Transactions.antt =====
-- src/command_processor.cpp: WATCH, UNWATCH, MULTI, EXEC and DISCARD, and the queue of a client's
-- transaction, with what EXEC writes to the log and sends to the replicas.
pub mod Exec
mod Tests
use codecrafters_redis_cpp.Prelude.{
  ℕ, zero, suc, ◌+◌, ◌%◌, ◌^◌, Bool, true, false, ◌&&◌, ◌||◌, not, Option, none, some, List, [],
  ◌∷◌, ◌++◌, ◌==◌, ltb, if◌then◌else◌, Bytes, codes, str_eq, length, drop,
}
use codecrafters_redis_cpp.Prelude.Map.{Map, bytes_eq, nat_eq, find, insert, erase}
use codecrafters_redis_cpp.Resp.{Command, serialize_command}
use codecrafters_redis_cpp.Resp.Reply.{
  Response, Responses, nil, cons, simple_string, simple_error, null_array, empty_array,
  response_array,
}
use codecrafters_redis_cpp.Database.{Database, key_revision}
use codecrafters_redis_cpp.Handlers.{word, Clock, Outcome, replied, undefined}
use codecrafters_redis_cpp.Handlers.Time.{Doubles}
use codecrafters_redis_cpp.Aof.{
  Write, Appended, appended, no_append, waiting, AppendOnlyFile, append,
}
use codecrafters_redis_cpp.Processor.Table.{dispatch}
use codecrafters_redis_cpp.Processor.Log.{is_logged, normalize_replication_command}

pub data ReplicationRole : Type 0 where
  master replica : ReplicationRole

pub data CommandSource : Type 0 where
  client_source master_source aof_source : CommandSource

pub record TransactionState : Type 0 where
  pub commands : List Command
  pub has_error : Bool

-- `ReplicationFrame`
pub record Frame : Type 0 where
  pub payload : Bytes
  pub ending_offset : ℕ

-- The members of `CommandProcessor` that transactions use.
pub record State : Type 0 where
  pub database : Database
  pub aof_file : Option AppendOnlyFile
  pub role : ReplicationRole
  pub offset : ℕ
  pub backlog : List Frame
  pub client_write_offsets : Map ℕ ℕ
  pub transactions : Map ℕ TransactionState
  pub watched_keys : Map ℕ (Map Bytes ℕ)

-- What the system gives to a run: the readings of the steady clock for the revisions and of the
-- clocks for the commands, each for its turn, and the results of the calls that append to the log.
pub record System : Type 0 where
  pub times : ℕ → ℕ
  pub clocks : ℕ → Clock
  pub writes : List Write
  pub fsync : Option Bytes
  pub write_time : ℕ
  pub sync_time : ℕ

-- A reply with the state that is left; undefined behaviour of a handler; a call of write(2) that
-- has not returned.
pub data Step : Type 0 where
  answered : Response → State → Step
  undefined_step : Step
  writing : Step

abbrev pub watched_of : Option (Map Bytes ℕ) → Map Bytes ℕ
watched_of none = []
watched_of (some watched) = watched

abbrev pub contains : {A : Type 0} → Option A → Bool
contains none = false
contains (some a) = true

-- The loop of WATCH.
unfoldable pub watch_keys : (ℕ → ℕ) → List Bytes → Map Bytes ℕ → Database → Map Bytes ℕ × Database
watch_keys times [] watched db = (watched, db)
watch_keys times (key ∷ keys) watched db =
    let (revision, db') = key_revision (times 0) key db in
    let known = contains (find key watched) in
    watch_keys (λ n. times (suc n)) keys (if known then watched else insert key revision watched)
      (if known then db else db')

abbrev pub watch : System → ℕ → Command → State → Step
watch system client command state =
    let (watched, db) =
      watch_keys system.times (drop 1 command) (watched_of (find client state.watched_keys))
        state.database in
    if ltb (length command) 2
    then answered
        (simple_error (codes "ERR Invalid syntax. Expected usage: WATCH <key1> <key2> ...")) state
    else if contains (find client state.transactions)
    then answered (simple_error (codes "ERR WATCH inside MULTI is not allowed")) state
    else answered (simple_string (codes "OK"))
        (record state { database = db; watched_keys = insert client watched state.watched_keys })

abbrev pub unwatch : ℕ → Command → State → Step
unwatch client command state =
    if not (length command == 1)
    then answered (simple_error (codes "ERR wrong number of arguments for 'unwatch' command")) state
    else answered (simple_string (codes "OK"))
        (record state { watched_keys = erase client state.watched_keys })

abbrev pub multi : ℕ → State → Step
multi client state =
    if contains (find client state.transactions)
    then answered (simple_error (codes "ERR MULTI calls cannot be nested")) state
    else answered (simple_string (codes "OK")) (record state {
      transactions = insert client (record { commands = []; has_error = false }) state.transactions;
    })

abbrev pub discard : ℕ → State → Step
discard client state =
    if not (contains (find client state.transactions))
    then answered (simple_error (codes "ERR DISCARD without MULTI")) state
    else answered (simple_string (codes "OK")) (record state {
      transactions = erase client state.transactions;
      watched_keys = erase client state.watched_keys;
    })

-- Whether a watched key has another revision now; the first one ends the loop.
unfoldable pub any_changed : (ℕ → ℕ) → Map Bytes ℕ → Database → Bool × Database
any_changed times [] db = (false, db)
any_changed times ((key, original) ∷ watched) db =
    let (revision, db') = key_revision (times 0) key db in
    let further = any_changed (λ n. times (suc n)) watched db' in
    if revision == original then further else (true, db')
