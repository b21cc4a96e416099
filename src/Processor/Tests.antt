-- ===== src/Processor/Tests.antt =====
-- Runs of the command table at concrete inputs.
use codecrafters_redis_cpp.Prelude.{
  ℕ, ◌≡◌, ◌≢◌, refl, ap, get_or, true, false, none, some, List, [], ◌∷◌, inl, inr, arith, Bytes,
  codes, str_eq,
}
use codecrafters_redis_cpp.Prelude.Int.{pos}
use codecrafters_redis_cpp.Prelude.Map.{bytes_eq, find, insert, erase}
use codecrafters_redis_cpp.Numeric.{max_uint64, to_string, from_chars}
use codecrafters_redis_cpp.Resp.{Command}
use codecrafters_redis_cpp.Resp.Reply.{null_bulk_string, bulk_string}
use codecrafters_redis_cpp.Streams.{id_to_string}
use codecrafters_redis_cpp.Database.{
  Database, string, stream, empty, find_active_entry, get, mark_key_modified, erase_entry,
  put_entry,
}
use codecrafters_redis_cpp.Database.StreamOps.{add_stream}
use codecrafters_redis_cpp.Database.Validity.{empty-IsValid}
use codecrafters_redis_cpp.Database.Expiry.Failures.{Alike}
use codecrafters_redis_cpp.Handlers.{Clock}
use codecrafters_redis_cpp.Handlers.Time.{Doubles}
use codecrafters_redis_cpp.Handlers
use codecrafters_redis_cpp.Handlers.Rstream.{xadd}
use codecrafters_redis_cpp.Handlers.Rstream.Parse.{parse_id, parse_value_list}
use codecrafters_redis_cpp.Database
use codecrafters_redis_cpp.Rdb.{StringEntry}
use codecrafters_redis_cpp.Processor.Loading.{process_rdb_load}
use codecrafters_redis_cpp.Processor.Loading.Visible.{
  get-process_rdb_load, get-process_rdb_load_other,
}
use codecrafters_redis_cpp.Processor.Table.{
  find_definition, find_command_definition, is_write_command, dispatch,
}
use codecrafters_redis_cpp.Processor.Log.{write_modified_database, normalize_replication_command}
use codecrafters_redis_cpp.Processor.Unlogged.{dispatch_unlogged}
use codecrafters_redis_cpp.Processor.Replay.{leaves, dispatch_replayed}
use codecrafters_redis_cpp.Processor.Replay.Xadd.{rerun}

-- Whole numbers of seconds in place of `double`.
abbrev pub whole_seconds : Doubles
whole_seconds = record {
  Double = ℕ;
  from_chars_double = from_chars max_uint64;
  is_finite = λ n. true;
  is_negative = λ n. false;
  is_positive = λ n. true;
  to_milliseconds = λ n. pos n;
}

abbrev pub now : Clock
now = record { steady = 5; first_reads = λ n. 5; second_reads = λ n. 5; ended = 5; unix_ms = 100 }

abbrev a : Bytes
a = codes "a"

abbrev lapsed : Database
lapsed = record {
  entries = (a, record { value = string (codes "x"); expires_at = some (pos 3) }) ∷ [];
  key_revisions = (a, 1) ∷ [];
  next_revision = 2;
}

abbrev dropped : Database
dropped = record { entries = []; key_revisions = (a, 2) ∷ []; next_revision = 3 }

dispatch_unlogged_example : Alike 5 lapsed dropped
unfolding dispatch find_command_definition find_definition str_eq Handlers.Strings.get get
    find_active_entry find erase insert mark_key_modified erase_entry is_write_command
dispatch_unlogged_example =
    dispatch_unlogged whole_seconds now (codes "GET" ∷ a ∷ []) lapsed dropped null_bulk_string
      (record { start = omega arith; first = λ n. omega arith; second = λ n. omega arith })
      (refl, tt) refl refl

abbrev add : Command
add = codes "XADD" ∷ a ∷ codes "*" ∷ codes "f" ∷ codes "v" ∷ []

abbrev added : Database
added = record {
  entries =
      (
        a,
        record {
          value = stream (
              record {
                id = record { milliseconds = 100; sequence = 0 };
                values = (codes "f", codes "v") ∷ [];
              }
              ∷ []);
          expires_at = none;
        },
      )
      ∷ [];
  key_revisions = (a, 1) ∷ [];
  next_revision = 2;
}

-- Another run, which reads the system clock later.
abbrev at_restart : Clock
at_restart = record now { ended = 9; unix_ms = 777 }

dispatch_replayed_example :
    leaves (
      dispatch whole_seconds
        (rerun now at_restart)
        (normalize_replication_command add (bulk_string (codes "100-0")))
        empty)
    ≡ some added
unfolding dispatch find_command_definition find_definition str_eq xadd parse_id parse_value_list
    add_stream find_active_entry find insert mark_key_modified put_entry id_to_string to_string
    is_write_command write_modified_database
dispatch_replayed_example =
    dispatch_replayed whole_seconds now at_restart add empty added (bulk_string (codes "100-0"))
      (omega arith) (omega arith) empty-IsValid refl refl

abbrev stored : List StringEntry
stored =
    record { key = a; value = codes "1"; expires_at_unix_ms = none }
    ∷ record { key = a; value = codes "2"; expires_at_unix_ms = some 103 }
    ∷ record { key = codes "b"; value = codes "3"; expires_at_unix_ms = some 99 }
    ∷ []

get-process_rdb_load_example :
    (get 2_000_007 a (process_rdb_load (pos 100) (λ i. i) stored lapsed)).0
    ≡ Database.ok (codes "2")
get-process_rdb_load_example =
    get-process_rdb_load 100 (λ i. i) 2_000_007
      (record { key = a; value = codes "1"; expires_at_unix_ms = none } ∷ [])
      (record { key = a; value = codes "2"; expires_at_unix_ms = some 103 })
      (record { key = codes "b"; value = codes "3"; expires_at_unix_ms = some 99 } ∷ []) lapsed
      (omega arith, omega arith) (inr (omega arith), tt)

a_is_not_b : a ≢ codes "b"
a_is_not_b e = omega (arith, ap (λ (s : Bytes). get_or s 0 0) e)

expired_is_not_loaded :
    (get 5 (codes "b") (process_rdb_load (pos 100) (λ i. i) stored lapsed)).0
    ≡ (get 5 (codes "b") lapsed).0
expired_is_not_loaded =
    get-process_rdb_load_other 100 (λ i. i) 5 (codes "b") stored lapsed
      (inl a_is_not_b, (inl a_is_not_b, (inr (omega arith), tt)))
