-- ===== src/Database/Validity/Reachable.antt =====
-- The invariant over sequences of the operations of src/database.cpp.
use codecrafters_redis_cpp.Prelude.{
  suc, ℕ, ◌≢◌, Bool, true, false, none, some, List, [], ◌∷◌, ◌++◌, Bytes, if◌then◌else◌,
}
use codecrafters_redis_cpp.Prelude.Map.{Map}
use codecrafters_redis_cpp.Streams.{ReadRequest, ReadResult}
use codecrafters_redis_cpp.Database.{
  string, Entry, Database, empty, Result, ok, err, fault, has_expired, mark_key_modified, put_entry,
  erase_entry, find_active_entry, deadline, set, get, get_type, visit_keys, keys, key_revision,
}
use codecrafters_redis_cpp.Database.Lists.{
  add_list_elements, list_elements, get_list_length, pop_list_element, pop_list_elements,
}
use codecrafters_redis_cpp.Database.Counters.{increment_key}
use codecrafters_redis_cpp.Database.StreamOps.{add_stream, stream_range, resolve}
use codecrafters_redis_cpp.Database.Reads.{
  Resolution, resolve_requests, collect_results, read_streams, after_resolution, keep_going, go_on,
  answer,
}
use codecrafters_redis_cpp.Database.Actions.{Action, perform, perform_all}
use codecrafters_redis_cpp.Database.Validity.{
  IsValid, empty-IsValid, mark-IsValid, put-IsValid, erase-IsValid, find_active_entry-IsValid,
}
use codecrafters_redis_cpp.Database.Validity.Operations.{
  add_in-IsValid, pop_in-IsValid, pop_several_in-IsValid, increment_in-IsValid,
  add_stream_in-IsValid, FitsId,
}

visit_keys-IsValid :
    (now : ℕ) (unvisited : Map Bytes Entry) (result : List Bytes) (db : Database)
    → IsValid db
    → IsValid (visit_keys now unvisited result db).1
unfolding visit_keys
visit_keys-IsValid now [] result db v = v
visit_keys-IsValid now ((key, entry) ∷ unvisited) result db v =
    visit_keys-IsValid now unvisited _ _ (dropped (has_expired now entry.expires_at))
  where
    dropped : (b : Bool) → IsValid (if b then erase_entry key (mark_key_modified key db) else db)
    dropped true = erase-IsValid key _ (mark-IsValid key db v)
    dropped false = v

resolve_requests-IsValid :
    (times : ℕ → ℕ) (requests : List ReadRequest) (db : Database)
    → IsValid db
    → IsValid (resolve_requests times requests db).2
unfolding resolve_requests
resolve_requests-IsValid times [] db v = v
resolve_requests-IsValid times (request ∷ requests) db v =
    let (found, db') = find_active_entry (times 0) request.key db in
    let v' = (find_active_entry-IsValid (times 0) request.key db v).0 in
    go db' v' (resolve request found) (resolve_requests (λ n. times (suc n)) requests db')
      (resolve_requests-IsValid (λ n. times (suc n)) requests db' v')
  where
    go :
        (db' : Database)
        → IsValid db'
        → (r : Result ReadRequest) (rest : Resolution) → IsValid rest.2
        → IsValid (keep_going request requests r db' rest).2
    go db' v' (ok request') rest w = w
    go db' v' (err e) rest w = v'
    go db' v' fault rest w = v'

collect_results-IsValid :
    (times : ℕ → ℕ) (requests : List ReadRequest) (results : List ReadResult) (db : Database)
    → IsValid db
    → IsValid (collect_results times requests results db).1
unfolding collect_results
collect_results-IsValid times [] results db v = v
collect_results-IsValid times (request ∷ requests) results db v =
    let (found, db') = find_active_entry (times 0) request.key db in
    let v' = (find_active_entry-IsValid (times 0) request.key db v).0 in
    go db' v' (answer request found)
      (λ results'. collect_results-IsValid (λ n. times (suc n)) requests results' db' v')
  where
    go :
        (db' : Database)
        → IsValid db'
        → (r : Result (List ReadResult))
        → ((results' : List ReadResult)
            → IsValid (collect_results (λ n. times (suc n)) requests results' db').1)
        → IsValid
            (go_on results r db'
              (λ results'. collect_results (λ n. times (suc n)) requests results' db')).1
    go db' v' (ok more) k = k (results ++ more)
    go db' v' (err e) k = v'
    go db' v' fault k = v'

after_resolution-IsValid :
    (times : ℕ → ℕ) (r : Resolution) → IsValid r.2 → IsValid (after_resolution times r).2
after_resolution-IsValid times (some e, requests, db) v = v
after_resolution-IsValid times (none, requests, db) v =
    collect_results-IsValid times requests [] db v

-- What the callers of the operations see to.
abbrev pub Fits : Action → Type 0
Fits (Action.push now key values mode) = values ≢ []
Fits (Action.add_entry now unix_ms key id values) = FitsId unix_ms id
Fits _ = Unit

perform-IsValid :
    (action : Action) (db : Database) → Fits action → IsValid db → IsValid (perform action db)
unfolding set get get_type keys add_list_elements list_elements get_list_length pop_list_element
    pop_list_elements add_stream stream_range increment_key key_revision read_streams
perform-IsValid (Action.set_key now key value expiry) db f v =
    mark-IsValid key
      (put_entry key (record { value = string value; expires_at = deadline now expiry }) db)
      (put-IsValid key _ db tt v)
perform-IsValid (Action.get_key now key) db f v = (find_active_entry-IsValid now key db v).0
perform-IsValid (Action.type_key now key) db f v = (find_active_entry-IsValid now key db v).0
perform-IsValid (Action.all_keys now) db f v = visit_keys-IsValid now db.entries [] db v
perform-IsValid (Action.push now key values mode) db f v =
    let (found, db') = find_active_entry now key db in
    add_in-IsValid key values mode found db' f (find_active_entry-IsValid now key db v).0
perform-IsValid (Action.range now key start stop) db f v =
    (find_active_entry-IsValid now key db v).0
perform-IsValid (Action.measure now key) db f v = (find_active_entry-IsValid now key db v).0
perform-IsValid (Action.pop now key) db f v =
    let (found, db') = find_active_entry now key db in
    pop_in-IsValid key found db' (find_active_entry-IsValid now key db v).0
perform-IsValid (Action.pop_several now key wanted) db f v =
    let (found, db') = find_active_entry now key db in
    pop_several_in-IsValid key wanted found db' (find_active_entry-IsValid now key db v).0
perform-IsValid (Action.add_entry now unix_ms key id values) db f v =
    let w = find_active_entry-IsValid now key db v in
    add_stream_in-IsValid unix_ms key id values (find_active_entry now key db).0
      (find_active_entry now key db).1 f w.1 w.0
perform-IsValid (Action.stream_slice now key start end) db f v =
    (find_active_entry-IsValid now key db v).0
perform-IsValid (Action.read times times' requests) db f v =
    after_resolution-IsValid times' (resolve_requests times requests db)
      (resolve_requests-IsValid times requests db v)
perform-IsValid (Action.increment now key) db f v =
    increment_in-IsValid key (find_active_entry now key db).0 (find_active_entry now key db).1
      (find_active_entry-IsValid now key db v).0
perform-IsValid (Action.watch now key) db f v = (find_active_entry-IsValid now key db v).0

abbrev pub AllFit : List Action → Type 0
AllFit [] = Unit
AllFit (action ∷ actions) = Fits action × AllFit actions

pub perform_all-IsValid :
    (actions : List Action) (db : Database)
    → AllFit actions
    → IsValid db
    → IsValid (perform_all actions db)
perform_all-IsValid [] db f v = v
perform_all-IsValid (action ∷ actions) db (h, f) v =
    perform_all-IsValid actions (perform action db) f (perform-IsValid action db h v)

-- After any operations on an empty keyspace that push at least one value when they push, and add to
-- streams with a clock and identifiers of 64 bits, no key holds an empty list, and the identifiers
-- of every stream grow strictly and have 64-bit parts.
pub perform_all-empty-IsValid :
    (actions : List Action) → AllFit actions → IsValid (perform_all actions empty)
perform_all-empty-IsValid actions f = perform_all-IsValid actions empty f empty-IsValid
