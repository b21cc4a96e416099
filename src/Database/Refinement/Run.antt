-- ===== src/Database/Refinement/Run.antt =====
-- Every operation of src/database.cpp on one key, against its specification.
use codecrafters_redis_cpp.Prelude.{
  ℕ, zero, suc, Bool, true, false, not, ◌==◌, ◌∷◌, ◌++◌, if◌then◌else◌, ◌≡◌, refl, sym, subst, ◌∙◌,
  Option, none, some, List, [], arith, Bytes,
}
use codecrafters_redis_cpp.Prelude.Int.{ℤ}
use codecrafters_redis_cpp.Prelude.Map.{bytes_eq}
use codecrafters_redis_cpp.Streams.{
  StreamId, StreamEntry, IdMode, automatic, automatic_sequence, explicit, IdRequest, id_lt, id_le,
}
use codecrafters_redis_cpp.Database.{
  Value, string, list, stream, Entry, Database, Result, ok, err, invalid_stream_id_value,
  mark_key_modified, put_entry, find_active_entry, deadline, deadline_after, set, get, get_type,
}
use codecrafters_redis_cpp.Database.Lists.{
  add_list_elements, list_elements, get_list_length, pop_list_element, pop_list_elements,
}
use codecrafters_redis_cpp.Database.StreamOps.{
  new_id, last_id, is_stale, add_stream, add_stream_in, add_to_value,
}
use codecrafters_redis_cpp.Database.Counters.{increment_key}
use codecrafters_redis_cpp.Database.Expiry.{
  view, view-put, view_unmarked_put, find_active_entry-eq-view, view-find_active_entry,
}
use codecrafters_redis_cpp.Database.Spec.{
  Operation, assign, read_string, read_type, read_length, pop_one, count_up, push, read_range,
  pop_many, add_entry, nothing, id, run, spec, on_entry, newest_from, newest, is_above, first_of,
  wanted_id, added, fresh,
}
use codecrafters_redis_cpp.Database.Refinement.{Agrees, unchanged, wrote}
use codecrafters_redis_cpp.Database.Refinement.Operations.{
  lookup-Agrees, string-Agrees, type-Agrees, length-Agrees, range-Agrees, push-Agrees, pop-Agrees,
  pop_many-Agrees, count-Agrees,
}

newest_lem : (entries : List StreamEntry) → last_id entries ≡ newest entries
newest_lem [] = refl
newest_lem (entry ∷ entries) = go entry entries
  where
    go :
        (entry : StreamEntry) (entries : List StreamEntry)
        → last_id (entry ∷ entries) ≡ some (newest_from entry.id entries)
    go entry [] = refl
    go entry (next ∷ entries) = go next entries

first_lem :
    (milliseconds : ℕ)
    → record { milliseconds = milliseconds; sequence = if milliseconds == 0 then 1 else 0 }
      ≡ first_of milliseconds
first_lem zero = refl
first_lem (suc n) = ground arith

new_id_lem :
    (unix_ms : ℕ) (mode : IdMode) (request : IdRequest) (last : Option StreamId)
    → new_id unix_ms mode request last ≡ wanted_id unix_ms mode request last
new_id_lem unix_ms explicit request last = refl
new_id_lem unix_ms automatic_sequence request none = first_lem request.milliseconds
new_id_lem unix_ms automatic_sequence request (some last) =
    ground (arith, first_lem request.milliseconds)
new_id_lem unix_ms automatic request none = refl
new_id_lem unix_ms automatic request (some last) = ground arith

is_above_lem :
    (new : StreamId) (last : Option StreamId) → is_stale new last ≡ not (is_above new last)
unfolding id_le id_lt
is_above_lem new none = refl
is_above_lem new (some last) = ground arith

-- How XADD ends, by whether the identifier is stale.
abbrev settled :
    Bytes
    → List (Bytes × Bytes)
    → StreamId
    → Entry
    → List StreamEntry
    → Database
    → Bool
    → Result StreamId × Database
settled key values new entry entries db stale =
    if stale then (err invalid_stream_id_value, db) else (
      ok new,
      mark_key_modified key (
          put_entry key
            (record entry { value = stream (entries ++ record { id = new; values = values } ∷ []) })
            db),
    )

add_to_value-Agrees :
    (now unix_ms : ℕ) (key : Bytes) (db : Database) (request : IdRequest)
    (values : List (Bytes × Bytes)) (entry : Entry) (value : Value)
    → view now key db ≡ some entry
    → Agrees now key db
        (
          id (add_to_value unix_ms key request values entry value db).0,
          (add_to_value unix_ms key request values entry value db).1,
        )
        (on_entry (add_entry unix_ms request values) entry value)
add_to_value-Agrees now unix_ms key db request values entry (string _) seen =
    unchanged now key db (some entry) seen _
add_to_value-Agrees now unix_ms key db request values entry (list _) seen =
    unchanged now key db (some entry) seen _
add_to_value-Agrees now unix_ms key db request values entry (stream entries) seen =
    let new = wanted_id unix_ms request.mode request (newest entries) in
    rw
      (
        newest_lem entries,
        new_id_lem unix_ms request.mode request (newest entries),
        is_above_lem new (newest entries),
      )
      (decided new (is_above new (newest entries)))
  where
    decided :
        (new : StreamId) (above : Bool)
        → Agrees now key db
            (
              id (settled key values new entry entries db (not above)).0,
              (settled key values new entry entries db (not above)).1,
            )
            (added entry entries values new above)
    decided new false = unchanged now key db (some entry) seen _
    decided new true = wrote now key db (some entry) seen _ _

-- A stream that XADD creates is written twice, and marked once.
add_stream-Agrees :
    (now unix_ms : ℕ) (key : Bytes) (db : Database) (request : IdRequest)
    (values : List (Bytes × Bytes)) (found : Option Entry)
    → view now key db ≡ found
    → Agrees now key db
        (
          id (add_stream_in unix_ms key request values found db).0,
          (add_stream_in unix_ms key request values found db).1,
        )
        (spec now (add_entry unix_ms request values) found)
add_stream-Agrees now unix_ms key db request values (some entry) seen =
    add_to_value-Agrees now unix_ms key db request values entry entry.value seen
add_stream-Agrees now unix_ms key db request values none seen =
    subst
      (λ new.
        Agrees now key db
          (
            id (add_stream_in unix_ms key request values none db).0,
            (add_stream_in unix_ms key request values none db).1,
          )
          (id (ok new), fresh (stream (record { id = new; values = values } ∷ []))))
      (new_id_lem unix_ms request.mode request none)
      (record {
        reply = refl;
        entries = λ other.
            view-put now key other _
              (put_entry key (record { value = stream []; expires_at = none }) db)
            ∙ ground (
              arith,
              view_unmarked_put now key other (record { value = stream []; expires_at = none }) db,
            );
      })

set-Agrees :
    (now : ℕ) (key : Bytes) (db : Database) (value : Bytes) (expiry : Option ℤ)
    (found : Option Entry)
    → Agrees now key db
        (nothing, set now key value expiry db)
        (spec now (assign value expiry) found)
unfolding set deadline_after
set-Agrees now key db value none found = record {
  reply = refl;
  entries = λ other. view-put now key other (record { value = string value; expires_at = none }) db;
}
set-Agrees now key db value (some ms) found = record {
  reply = refl;
  entries = λ other.
      view-put now key other (record { value = string value; expires_at = deadline now (some ms) })
        db;
}

-- The keyspace refines its specification, which is written without the functions of the code: at any
-- time, SET, GET, TYPE, INCR, RPUSH, LPUSH, LLEN, LRANGE, LPOP with or without a count, and XADD of a
-- key reply what the specification says of the entry that a client can see there, leave that key with
-- the entry that it says, and no client can see any other key change. Every error is covered, and the
-- INCR of the largest integer, which has no meaning.
pub run-Agrees :
    (now : ℕ) (key : Bytes) (operation : Operation) (db : Database)
    → Agrees now key db (run now key operation db) (spec now operation (view now key db))
unfolding get get_type add_list_elements list_elements get_list_length pop_list_element
    pop_list_elements add_stream increment_key
run-Agrees now key operation db = go operation
  where
    db' : Database
    db' = (find_active_entry now key db).1

    found : Option Entry
    found = (find_active_entry now key db).0

    seen : view now key db' ≡ found
    seen =
        view-find_active_entry now now key key db (omega arith)
        ∙ sym (find_active_entry-eq-view now key db)

    go :
        (operation : Operation)
        → Agrees now key db (run now key operation db) (spec now operation (view now key db))
    go (assign value expiry) = set-Agrees now key db value expiry (view now key db)
    go read_string =
        lookup-Agrees now key db _ (spec now read_string) (string-Agrees now key db' found seen)
    go read_type =
        lookup-Agrees now key db _ (spec now read_type) (type-Agrees now key db' found seen)
    go read_length =
        lookup-Agrees now key db _ (spec now read_length) (length-Agrees now key db' found seen)
    go pop_one = lookup-Agrees now key db _ (spec now pop_one) (pop-Agrees now key db' found seen)
    go count_up =
        lookup-Agrees now key db _ (spec now count_up) (count-Agrees now key db' found seen)
    go (push mode values) =
        lookup-Agrees now key db _ (spec now (push mode values))
          (push-Agrees now key db' mode values found seen)
    go (read_range start stop) =
        lookup-Agrees now key db _ (spec now (read_range start stop))
          (range-Agrees now key db' start stop found seen)
    go (pop_many wanted) =
        lookup-Agrees now key db _ (spec now (pop_many wanted))
          (pop_many-Agrees now key db' wanted found seen)
    go (add_entry unix_ms request values) =
        lookup-Agrees now key db _ (spec now (add_entry unix_ms request values))
          (add_stream-Agrees now unix_ms key db' request values found seen)
