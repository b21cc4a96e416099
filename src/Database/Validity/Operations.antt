-- ===== src/Database/Validity/Operations.antt =====
-- The operations of src/database.cpp keep the invariant of the keyspace.
use mathlib.Core.List.{reverse-cons}
use codecrafters_redis_cpp.Prelude.{
  ℕ, ◌≤◌, ◌≢◌, inl, inr, refl, Option, none, some, List, [], ◌∷◌, ◌++◌, reverse, append_assoc,
  arith, Bool-cases, Bytes,
}
use codecrafters_redis_cpp.Prelude.Int.{ℤ, pos, leb_ℤ}
use codecrafters_redis_cpp.Numeric.{max_uint64}
use codecrafters_redis_cpp.Streams.{
  StreamId, IsId, IdMode, automatic, automatic_sequence, explicit, IdRequest,
}
use codecrafters_redis_cpp.Database.{
  Result, ok, err, fault, Value, string, list, stream, Entry, Database,
}
use codecrafters_redis_cpp.Database.Lists.{
  ListAddMode, append, prepend, add_values, add_in, add_to, entry_or_new, store_list, store_rest,
  pop_in, pop_from, pop_several_in, pop_several_from,
}
use codecrafters_redis_cpp.Database.Counters.{
  increment_in, increment_value, increment_parsed, parse_value_to_increment, increment,
  store_number,
}
use codecrafters_redis_cpp.Database.StreamOps.{
  add_to_value, new_id, last_id, is_stale, add_stream_in,
}
use codecrafters_redis_cpp.Database.Validity.{
  IsValidValue, IsValidEntry, IsValid, mark-IsValid, put-IsValid, erase-put-IsValid, IsIdIfAny,
  IsSorted-append, AllIds-append, last_id-IsId,
}

store_rest-IsValid :
    (key : Bytes) (entry : Entry) (items : List Bytes) (db : Database)
    → IsValid db
    → IsValid (store_rest key entry items db)
unfolding store_list
store_rest-IsValid key entry [] db v = mark-IsValid key _ (erase-put-IsValid key _ db v)
store_rest-IsValid key entry (item ∷ items) db v =
    mark-IsValid key _ (put-IsValid key _ db (λ e. cc) v)

append-ne-nil : (xs ys : List Bytes) → ys ≢ [] → xs ++ ys ≢ []
append-ne-nil [] ys h = h
append-ne-nil (x ∷ xs) ys h = λ e. cc

prepend-ne-nil : (values items : List Bytes) → values ≢ [] → reverse values ++ items ≢ []
prepend-ne-nil [] items h = absurd (h refl)
prepend-ne-nil (value ∷ values) items h =
    rw (reverse-cons value values, append_assoc (reverse values) (value ∷ []) items)
      (append-ne-nil (reverse values) (value ∷ items) (λ e. cc))

pub add_in-IsValid :
    (key : Bytes) (values : List Bytes) (mode : ListAddMode) (found : Option Entry) (db : Database)
    → values ≢ []
    → IsValid db
    → IsValid (add_in key values mode found db).1
unfolding store_list
add_in-IsValid key values mode found db h v = go (entry_or_new (list []) found).value
  where
    some_values : (mode : ListAddMode) (items : List Bytes) → add_values mode values items ≢ []
    some_values append items = append-ne-nil items values h
    some_values prepend items = prepend-ne-nil values items h

    go :
        (value : Value) → IsValid (add_to key values mode (entry_or_new (list []) found) value db).1
    go (string _) = v
    go (stream _) = v
    go (list items) = mark-IsValid key _ (put-IsValid key _ db (some_values mode items) v)

pub pop_in-IsValid :
    (key : Bytes) (found : Option Entry) (db : Database)
    → IsValid db
    → IsValid (pop_in key found db).1
pop_in-IsValid key none db v = v
pop_in-IsValid key (some entry) db v = go entry.value
  where
    go : (value : Value) → IsValid (pop_from key entry value db).1
    go (string _) = v
    go (stream _) = v
    go (list []) = v
    go (list (item ∷ items)) = store_rest-IsValid key entry items db v

pub pop_several_in-IsValid :
    (key : Bytes) (wanted : ℤ) (found : Option Entry) (db : Database)
    → IsValid db
    → IsValid (pop_several_in key wanted found db).1
pop_several_in-IsValid key wanted none db v = v
pop_several_in-IsValid key wanted (some entry) db v = go entry.value
  where
    go : (value : Value) → IsValid (pop_several_from key wanted entry value db).1
    go (string _) = v
    go (stream _) = v
    go (list []) = v
    go (list (item ∷ items)) = elim (Bool-cases (leb_ℤ wanted (pos 0))) [
      | inl e ↦ rw e v
      | inr e ↦ rw e (store_rest-IsValid key entry _ db v)
    ]

pub increment_in-IsValid :
    (key : Bytes) (found : Option Entry) (db : Database)
    → IsValid db
    → IsValid (increment_in key found db).1
increment_in-IsValid key none db v = mark-IsValid key _ (put-IsValid key _ db tt v)
increment_in-IsValid key (some entry) db v = go entry.value
  where
    stored : (result : Result ℤ) → IsValid (store_number key entry result db).1
    stored (ok result) = mark-IsValid key _ (put-IsValid key _ db tt v)
    stored (err e) = v
    stored fault = v

    parsed : (n : Option ℤ) → IsValid (increment_parsed key entry n db).1
    parsed none = v
    parsed (some n) = stored (increment n)

    go : (value : Value) → IsValid (increment_value key entry value db).1
    go (list _) = v
    go (stream _) = v
    go (string text) = parsed (parse_value_to_increment text)

-- The parts of a request are of 64 bits, and so is the system clock.
pub record FitsId (unix_ms : ℕ) (id : IdRequest) : Type 0 where
  pub clock : unix_ms ≤ max_uint64
  pub milliseconds : id.milliseconds ≤ max_uint64
  pub sequence : id.sequence ≤ max_uint64

pub new_id-IsId :
    (unix_ms : ℕ) (mode : IdMode) (id : IdRequest) (previous : Option StreamId)
    → FitsId unix_ms id
    → IsIdIfAny previous
    → IsId (new_id unix_ms mode id previous)
new_id-IsId unix_ms explicit id previous f h = record {
  milliseconds = f.milliseconds;
  sequence = f.sequence;
}
new_id-IsId unix_ms automatic_sequence id none f h = ground arith
new_id-IsId unix_ms automatic_sequence id (some previous) f h = ground arith
new_id-IsId unix_ms automatic id none f h = record {
  milliseconds = f.clock;
  sequence = omega arith;
}
new_id-IsId unix_ms automatic id (some previous) f h = ground arith

add_to_value-IsValid :
    (unix_ms : ℕ) (key : Bytes) (id : IdRequest) (values : List (Bytes × Bytes)) (entry : Entry)
    (value : Value) (db : Database)
    → FitsId unix_ms id
    → IsValidValue value
    → IsValid db
    → IsValid (add_to_value unix_ms key id values entry value db).1
add_to_value-IsValid unix_ms key id values entry (string _) db f h v = v
add_to_value-IsValid unix_ms key id values entry (list _) db f h v = v
add_to_value-IsValid unix_ms key id values entry (stream entries) db f (sorted, ids) v =
    let fresh_id = new_id unix_ms id.mode id (last_id entries) in
    elim (Bool-cases (is_stale fresh_id (last_id entries))) [
      | inl e ↦ rw e v
      | inr e ↦ rw e (
          mark-IsValid key _ (
            put-IsValid key _ db
              (
                IsSorted-append entries (record { id = fresh_id; values = values }) sorted e,
                AllIds-append entries (record { id = fresh_id; values = values }) ids
                    (new_id-IsId unix_ms id.mode id (last_id entries) f (last_id-IsId entries ids)),
              )
              v))
    ]

pub add_stream_in-IsValid :
    (unix_ms : ℕ) (key : Bytes) (id : IdRequest) (values : List (Bytes × Bytes))
    (found : Option Entry) (db : Database)
    → FitsId unix_ms id
    → IsValidEntry found
    → IsValid db
    → IsValid (add_stream_in unix_ms key id values found db).1
add_stream_in-IsValid unix_ms key id values none db f h v =
    add_to_value-IsValid unix_ms key id values (entry_or_new (stream []) none) (stream []) _ f
      (tt, tt) (put-IsValid key _ db (tt, tt) v)
add_stream_in-IsValid unix_ms key id values (some entry) db f h v =
    add_to_value-IsValid unix_ms key id values entry entry.value db f h v
