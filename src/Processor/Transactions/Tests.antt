-- ===== src/Processor/Transactions/Tests.antt =====
-- Transactions at concrete inputs.
use codecrafters_redis_cpp.Prelude.{
  refl, false, none, some, List, [], ◌∷◌, ◌++◌, arith, codes, str_eq,
}
use codecrafters_redis_cpp.Prelude.Int.{pos}
use codecrafters_redis_cpp.Prelude.Map.{bytes_eq, nat_eq, find, insert, erase}
use codecrafters_redis_cpp.Numeric.{to_string, to_string_ℤ}
use codecrafters_redis_cpp.Resp.{Command, serialize_command}
use codecrafters_redis_cpp.Resp.Reply.{Response, integer, bulk_string, cons, nil, response_array}
use codecrafters_redis_cpp.Database.{
  Database, string, empty, find_active_entry, mark_key_modified, put_entry, key_revision, get,
}
use codecrafters_redis_cpp.Database.Counters.{increment_key}
use codecrafters_redis_cpp.Handlers.{Clock}
use codecrafters_redis_cpp.Handlers
use codecrafters_redis_cpp.Aof.{AppendOnlyFile, never, wrote, interrupted, append, append_loop}
use codecrafters_redis_cpp.Aof.Reading.{log_of}
use codecrafters_redis_cpp.Processor.Tests.{whole_seconds, now}
use codecrafters_redis_cpp.Processor.Table.{
  find_definition, find_command_definition, is_write_command, dispatch,
}
use codecrafters_redis_cpp.Processor.Log.{write_modified_database, normalize_replication_command}
use codecrafters_redis_cpp.Processor.Transactions.{replica, client_source, State, System}
use codecrafters_redis_cpp.Processor.Transactions.Exec.{run_queued, execute_transaction}
use codecrafters_redis_cpp.Processor.Transactions.Exec.Ends.{Ended, execute_transaction-Ended}
use codecrafters_redis_cpp.Processor.Transactions.Exec.Block.{logged}
use codecrafters_redis_cpp.Processor.Transactions.Exec.Logged.{Holds, execute_transaction-Holds}

abbrev queue : List Command
queue = (codes "INCR" ∷ codes "a" ∷ []) ∷ (codes "GET" ∷ codes "a" ∷ []) ∷ []

abbrev counted : Database
counted = record {
  entries = (codes "a", record { value = string (codes "1"); expires_at = none }) ∷ [];
  key_revisions = (codes "a", 1) ∷ [];
  next_revision = 2;
}

abbrev system : System
system = record {
  times = λ n. 5;
  clocks = λ n. now;
  writes = [];
  fsync = none;
  write_time = 5;
  sync_time = 5;
}

abbrev before : State
before = record {
  database = empty;
  aof_file = none;
  role = replica;
  offset = 0;
  backlog = [];
  client_write_offsets = [];
  transactions = (1, record { commands = queue; has_error = false }) ∷ [];
  watched_keys = (1, (codes "a", 0) ∷ []) ∷ (2, (codes "b", 0) ∷ []) ∷ [];
}

abbrev after : State
after = record before {
  database = counted;
  transactions = [];
  watched_keys = (2, (codes "b", 0) ∷ []) ∷ [];
}

abbrev reply : Response
reply = response_array (cons (integer (pos 1)) (cons (bulk_string (codes "1")) nil))

execute_transaction-Ended_example : Ended 1 before after
unfolding execute_transaction key_revision find_active_entry dispatch find_command_definition
    find_definition str_eq Handlers.Strings.incr Handlers.Strings.get increment_key get
    mark_key_modified put_entry find insert erase to_string_ℤ is_write_command
    write_modified_database
execute_transaction-Ended_example =
    execute_transaction-Ended whole_seconds system 1 client_source
      (record { commands = queue; has_error = false }) reply before after refl refl

abbrev earlier : List Command
earlier = (codes "INCR" ∷ codes "b" ∷ []) ∷ []

abbrev log_file : AppendOnlyFile
log_file = record {
  path = codes "log";
  contents = log_of earlier;
  synced = 0;
  sync_policy = never;
  last_sync = 0;
}

-- MULTI, INCR and EXEC take 50 bytes, written in two parts.
abbrev logging : System
logging = record system { writes = wrote 20 ∷ interrupted ∷ wrote 30 ∷ [] }

abbrev three : List Command
three = (codes "MULTI" ∷ []) ∷ (codes "INCR" ∷ codes "a" ∷ []) ∷ (codes "EXEC" ∷ []) ∷ []

execute_transaction-Holds_example :
    Holds (earlier ++ three) (some (record log_file { contents = log_of earlier ++ log_of three }))
unfolding execute_transaction run_queued logged dispatch find_command_definition find_definition
    str_eq Handlers.Strings.incr Handlers.Strings.get increment_key get find_active_entry
    key_revision mark_key_modified put_entry find insert erase to_string_ℤ is_write_command
    write_modified_database normalize_replication_command serialize_command to_string append
    append_loop
execute_transaction-Holds_example =
    execute_transaction-Holds whole_seconds logging 1 client_source refl earlier log_file refl
      ((omega arith, omega arith), tt) (record { commands = queue; has_error = false })
      (cons (integer (pos 1)) (cons (bulk_string (codes "1")) nil))
      (record before { aof_file = some log_file })
      (record after {
        aof_file = some (record log_file { contents = log_of earlier ++ log_of three });
      })
      refl refl ((omega arith, omega arith), tt) refl
