-- ===== src/Processor/Replay.antt =====
-- Running again what src/command_processor.cpp logs and sends to the replicas.
pub mod Xadd
use codecrafters_redis_cpp.Prelude.{
  ℕ, ◌≤◌, ◌<◌, ◌≡◌, refl, sym, ap, subst, ◌∙◌, Bool, true, false, ◌&&◌, not, Option, none, some,
  List, [], ◌∷◌, arith, ◌==◌, length, Bytes, Bool-cases, inl, inr, codes, str_eq, if◌then◌else◌,
}
use codecrafters_redis_cpp.Numeric.{max_uint64}
use codecrafters_redis_cpp.Resp.{Command}
use codecrafters_redis_cpp.Resp.Reply.{Response, simple_error, bulk_string}
use codecrafters_redis_cpp.Database.{
  Database, Result, ok, err, fault, key_not_found, wrong_type, value_not_integer,
  invalid_stream_id_mode, invalid_stream_id_value,
}
use codecrafters_redis_cpp.Database.Lists.{pop_list_element}
use codecrafters_redis_cpp.Database.Validity.{IsValid}
use codecrafters_redis_cpp.Handlers.{
  word, Clock, Outcome, replied, undefined, Parsed, parsed, refused,
}
use codecrafters_redis_cpp.Handlers.Time.{Doubles, parse_blocking_timeout}
use codecrafters_redis_cpp.Handlers.Strings.{set, incr}
use codecrafters_redis_cpp.Handlers.Rlist.{
  rpush, lpush, lpop, blpop, parse_blpop, blocking_pop, blpop_request, blpop_reply, pop_reply,
  BlockingPopRequest,
}
use codecrafters_redis_cpp.Handlers.Rstream.{xadd}
use codecrafters_redis_cpp.Processor.Table.{
  CommandDefinition, writes, is_write, command_handlers, find_definition, find_command_definition,
  is_write_command, run_definition, dispatch,
}
use codecrafters_redis_cpp.Processor.Log.{
  response_is_error, popped_values, write_modified_database, normalize_replication_command,
  is_logged, with_generated_id,
}
use codecrafters_redis_cpp.Processor.Unlogged.{
  AllDefinitions, done, ◌&◌, find_definition-AllDefinitions,
}
use Xadd.{rerun, reports_error, error_refuted, xadd_replayed}

-- The database that a run leaves.
abbrev pub leaves : Outcome → Option Database
leaves undefined = none
leaves (replied reply db) = some db

-- The run of the normalised command, from the same database, leaves the same database.
abbrev IsReplayed : Doubles → CommandDefinition → Type 0
IsReplayed F definition =
    (clock again : Clock) (arguments : List Bytes) (db db' : Database) (reply : Response)
    → 0 < clock.unix_ms
    → clock.unix_ms ≤ max_uint64
    → IsValid db
    → definition.handler clock (definition.command ∷ arguments) db ≡ replied reply db'
    → (writes definition.access && write_modified_database (definition.command ∷ arguments) reply)
      ≡ true
    → leaves (
        dispatch F (rerun clock again)
          (normalize_replication_command (definition.command ∷ arguments) reply) db)
      ≡ some db'

unlogged_refuted : {A : Type 0} → false ≡ true → A
unlogged_refuted p = cc

modified_no_error :
    (command : Command) (reply : Response)
    → write_modified_database command reply ≡ true
    → response_is_error reply ≡ false
unfolding write_modified_database
modified_no_error command reply l = elim (Bool-cases (response_is_error reply)) [
  | inr h ↦ h
  | inl h ↦ cc (rw h at l)
]

modified_popped :
    (arguments : List Bytes) (reply : Response)
    → write_modified_database (codes "BLPOP" ∷ arguments) reply ≡ true
    → popped_values reply ≡ true
unfolding write_modified_database str_eq
modified_popped arguments reply l = elim (Bool-cases (response_is_error reply)) [
  | inr h ↦ rw h at l
  | inl h ↦ cc (rw h at l)
]

-- BLPOP that popped a value, again as LPOP.
blpop_again :
    (F : Doubles) (clock again : Clock) (command : Command) (db db' : Database) (reply : Response)
    → blpop F clock command db ≡ replied reply db'
    → popped_values reply ≡ true
    → leaves (lpop (rerun clock again) (codes "LPOP" ∷ word command 1 ∷ []) db) ≡ some db'
unfolding blpop lpop parse_blpop
blpop_again F clock again command db db' reply e l =
    go (not (length command == 3)) (parse_blocking_timeout F (word command 2)) e
  where
    pops : Outcome → Bool
    pops undefined = false
    pops (replied reply db) = popped_values reply

    popped :
        (r : Result Bytes) (d : Database)
        → blpop_reply F (word command 1) r d ≡ replied reply db'
        → leaves (pop_reply r d) ≡ some db'
    popped (ok value) d p = ap leaves p
    popped (err wrong_type) d p = ap leaves p
    popped (err key_not_found) d p = ap leaves p
    popped (err invalid_stream_id_mode) d p = ap leaves p
    popped (err invalid_stream_id_value) d p = ap leaves p
    popped (err value_not_integer) d p = ap leaves p
    popped fault d p = cc

    refuted :
        {A : Type 0} → (outcome : Outcome) → outcome ≡ replied reply db' → pops outcome ≡ false → A
    refuted outcome p q = unlogged_refuted (sym q ∙ ap pops p ∙ l)

    go :
        (wrong_size : Bool) (timeout : Option F.Double)
        → blpop_request F clock
            (if wrong_size
              then refused (codes "ERR invalid syntax. Expected usage BLPOP <list_name> <timeout>")
              else blocking_pop F (word command 1) timeout)
            db
          ≡ replied reply db'
        → leaves (
            pop_reply
              (pop_list_element clock.steady (word command 1) db).0
              (pop_list_element clock.steady (word command 1) db).1)
          ≡ some db'
    go true timeout p = refuted _ p refl
    go false none p = refuted _ p refl
    go false (some seconds) p = popped _ _ p

-- XADD that added an entry, again with its identifier.
xadd_again :
    (F : Doubles) (clock again : Clock) (arguments : List Bytes) (db db' : Database)
    (reply : Response)
    → 0 < clock.unix_ms
    → clock.unix_ms ≤ max_uint64
    → IsValid db
    → response_is_error reply ≡ false
    → xadd clock (codes "XADD" ∷ arguments) db ≡ replied reply db'
    → leaves
        (dispatch F (rerun clock again) (with_generated_id reply (codes "XADD" ∷ arguments)) db)
      ≡ some db'
unfolding xadd dispatch find_command_definition find_definition str_eq
xadd_again F clock again [] db db' reply k f v l e = error_refuted _ e l refl
xadd_again F clock again (key ∷ []) db db' reply k f v l e = error_refuted _ e l refl
xadd_again F clock again (key ∷ old ∷ arguments) db db' reply k f v l e =
    let (text, is_text, again) =
      xadd_replayed clock again (codes "XADD") key old arguments db db' reply k f v l e in
    rw is_text (ap leaves again)

handlers-IsReplayed : (F : Doubles) → AllDefinitions (IsReplayed F) (command_handlers F)
unfolding normalize_replication_command write_modified_database dispatch find_command_definition
    find_definition str_eq set incr rpush lpush lpop
handlers-IsReplayed F =
    (λ clock s arguments db db' reply k f v e l. unlogged_refuted l)
    & (λ clock s arguments db db' reply k f v e l. unlogged_refuted l)
    & (λ clock s arguments db db' reply k f v e l. ap leaves e)
    & (λ clock s arguments db db' reply k f v e l. unlogged_refuted l)
    & (λ clock s arguments db db' reply k f v e l. unlogged_refuted l)
    & (λ clock s arguments db db' reply k f v e l. unlogged_refuted l)
    & (λ clock s arguments db db' reply k f v e l. ap leaves e)
    & (λ clock s arguments db db' reply k f v e l. ap leaves e)
    & (λ clock s arguments db db' reply k f v e l. ap leaves e)
    & (λ clock s arguments db db' reply k f v e l. unlogged_refuted l)
    & (λ clock s arguments db db' reply k f v e l. unlogged_refuted l)
    & (λ clock s arguments db db' reply k f v e l. ap leaves e)
    & (λ clock s arguments db db' reply k f v e l.
        blpop_again F clock s (codes "BLPOP" ∷ arguments) db db' reply e
          (modified_popped arguments reply l))
    & (λ clock s arguments db db' reply k f v e l.
        xadd_again F clock s arguments db db' reply k f v
          (modified_no_error (codes "XADD" ∷ arguments) reply l) e)
    & (λ clock s arguments db db' reply k f v e l. unlogged_refuted l)
    & (λ clock s arguments db db' reply k f v e l. unlogged_refuted l)
    & done

-- What the processor logs and sends to the replicas makes the same change there. Take a command
-- that is to be logged, by what the processor tests, and the database that it leaves. In its logged
-- form, XADD with the identifier that it replied and BLPOP as LPOP, it leaves the same database when
-- it runs on the same one at the same time of the steady clock, whatever the system clock says then.
-- The database is well formed, and the system clock of the first run is after 1970 and fits 64 bits.
pub dispatch_replayed :
    (F : Doubles) (clock again : Clock) (command : Command) (db db' : Database) (reply : Response)
    → 0 < clock.unix_ms
    → clock.unix_ms ≤ max_uint64
    → IsValid db
    → dispatch F clock command db ≡ replied reply db'
    → is_logged F command reply ≡ true
    → leaves (dispatch F (rerun clock again) (normalize_replication_command command reply) db)
      ≡ some db'
unfolding dispatch is_write_command find_command_definition
dispatch_replayed F clock again [] db db' reply k f v e l = unlogged_refuted l
dispatch_replayed F clock again (name ∷ arguments) db db' reply k f v e l =
    go (find_command_definition F name) refl e l
  where
    go :
        (found : Option CommandDefinition)
        → find_command_definition F name ≡ found
        → run_definition clock (name ∷ arguments) found db ≡ replied reply db'
        → (is_write found && write_modified_database (name ∷ arguments) reply) ≡ true
        → leaves (
            dispatch F
              (rerun clock again)
              (normalize_replication_command (name ∷ arguments) reply)
              db)
          ≡ some db'
    go none e' p q = unlogged_refuted q
    go (some definition) e' p q =
        let (r, n) =
          find_definition-AllDefinitions (IsReplayed F) name (command_handlers F) definition
            (handlers-IsReplayed F) e' in
        subst
          (λ word.
            definition.handler clock (word ∷ arguments) db ≡ replied reply db'
            → (writes definition.access && write_modified_database (word ∷ arguments) reply) ≡ true
            → leaves (
                dispatch F (rerun clock again)
                  (normalize_replication_command (word ∷ arguments) reply) db)
              ≡ some db')
          n (r clock again arguments db db' reply k f v) p q
