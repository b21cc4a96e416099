-- ===== src/Aof/Tests.antt =====
-- Reading and appending at concrete inputs.
use codecrafters_redis_cpp.Prelude.{
  ◌≡◌, ◌≢◌, refl, none, [], ◌∷◌, ◌++◌, arith, codes, length, drop, take,
}
use codecrafters_redis_cpp.Numeric.{to_string}
use codecrafters_redis_cpp.Resp.{Command, serialize_command}
use codecrafters_redis_cpp.Aof.{
  commands, unreadable, out_of_fuel, read_commands, wrote, interrupted, appended, append_loop,
  always, AppendOnlyFile, append,
}
use codecrafters_redis_cpp.Aof.Reading.{
  log_of, read_commands_ends, read_commands-log_of, read_commands_torn,
}
use codecrafters_redis_cpp.Aof.Appending.{Kept, append-Kept, append_loop_ends}

abbrev set_a : Command
set_a = codes "SET" ∷ codes "a" ∷ codes "1" ∷ []

abbrev pop_b : Command
pop_b = codes "LPOP" ∷ codes "b" ∷ []

read_commands_ends_example : read_commands (codes "*x") ≢ out_of_fuel
read_commands_ends_example = read_commands_ends (codes "*x")

read_commands-log_of_example :
    read_commands (log_of (set_a ∷ pop_b ∷ [])) ≡ commands (set_a ∷ pop_b ∷ [])
read_commands-log_of_example =
    read_commands-log_of (set_a ∷ pop_b ∷ [])
      ((omega arith, omega arith), ((omega arith, omega arith), tt))

read_commands_torn_example :
    read_commands (log_of (set_a ∷ []) ++ take 7 (serialize_command pop_b))
    ≡ unreadable (
        codes "Incomplete command in AOF file at byte " ++ to_string (length (log_of (set_a ∷ []))))
unfolding serialize_command to_string
read_commands_torn_example =
    read_commands_torn (set_a ∷ []) pop_b (take 7 (serialize_command pop_b))
      (drop 7 (serialize_command pop_b)) ((omega arith, omega arith), tt) (omega arith, omega arith)
      refl (λ e. cc) (λ e. cc)

abbrev file : AppendOnlyFile
file = record {
  path = codes "log";
  contents = codes "x";
  synced = 0;
  sync_policy = always;
  last_sync = 3;
}

append-Kept_example :
    Kept
      (codes "abc")
      file
      (append (wrote 2 ∷ interrupted ∷ wrote 1 ∷ []) none 5 6 (codes "abc") file)
append-Kept_example = append-Kept (wrote 2 ∷ interrupted ∷ wrote 1 ∷ []) none 5 6 (codes "abc") file

append_loop_ends_example :
    (append_loop (codes "log") (wrote 2 ∷ interrupted ∷ wrote 1 ∷ []) (codes "abc") (codes "x")).0
    ≡ appended
append_loop_ends_example =
    append_loop_ends (codes "log") (wrote 2 ∷ interrupted ∷ wrote 1 ∷ []) (codes "abc") (codes "x")
      (omega arith, (omega arith, refl))
