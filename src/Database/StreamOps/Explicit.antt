-- ===== src/Database/StreamOps/Explicit.antt =====
-- Adding to a stream of src/database.cpp again, with the identifier that was generated.
use codecrafters_redis_cpp.Prelude.{
  ℕ, ◌<◌, ◌≡◌, sym, ap, subst, false, ◌&&◌, Option, none, some, List, [], arith, ◌==◌, Bytes,
  Bool-cases, inl, inr,
}
use codecrafters_redis_cpp.Streams.{
  StreamId, id_lt, id_le, IsId, StreamEntry, IdMode, automatic, automatic_sequence, explicit,
  IdRequest,
}
use codecrafters_redis_cpp.Database.{
  Value, string, list, stream, Entry, Database, ok, find_active_entry,
}
use codecrafters_redis_cpp.Database.Lists.{entry_or_new}
use codecrafters_redis_cpp.Database.StreamOps.{
  last_id, new_id, is_stale, add_entry, add_to_value, emplace_stream, add_stream_in, add_stream,
}
use codecrafters_redis_cpp.Database.Validity.{
  IsValid, IsValidValue, IsValidEntry, find_active_entry-IsValid, last_id-IsId,
}
use codecrafters_redis_cpp.Database.Validity.Operations.{FitsId, new_id-IsId}

abbrev pub explicit_of : StreamId → IdRequest
explicit_of id = record { mode = explicit; milliseconds = id.milliseconds; sequence = id.sequence }

-- The request that XADD accepts does not ask for the identifier 0-0.
abbrev pub IsAccepted : IdRequest → Type 0
IsAccepted request = elim request.mode [
  | explicit ↦ ((request.milliseconds == 0) && (request.sequence == 0)) ≡ false
  | _ ↦ Unit
]

abbrev pub IsNotZero : StreamId → Type 0
IsNotZero id = ((id.milliseconds == 0) && (id.sequence == 0)) ≡ false

-- What is known of the identifier that an addition gives.
pub record Added (unix_ms : ℕ) (request : IdRequest) (id : StreamId) : Type 0 where
  pub fits : FitsId unix_ms request → IsId id
  pub not_zero : IsAccepted request → 0 < unix_ms → IsNotZero id

new_id-IsNotZero :
    (unix_ms : ℕ) (mode : IdMode) (milliseconds sequence : ℕ) (previous : Option StreamId)
    → IsAccepted (record { mode = mode; milliseconds = milliseconds; sequence = sequence })
    → 0 < unix_ms
    → is_stale
        (new_id unix_ms mode
          (record { mode = mode; milliseconds = milliseconds; sequence = sequence })
          previous)
        previous
      ≡ false
    → IsNotZero (
        new_id unix_ms mode
          (record { mode = mode; milliseconds = milliseconds; sequence = sequence })
          previous)
unfolding id_le id_lt
new_id-IsNotZero unix_ms explicit m s previous a k e = a
new_id-IsNotZero unix_ms automatic_sequence m s none a k e = ground arith
new_id-IsNotZero unix_ms automatic_sequence m s (some previous) a k e = ground arith
new_id-IsNotZero unix_ms automatic m s none a k e = ground arith
new_id-IsNotZero unix_ms automatic m s (some previous) a k e = ground arith

module _ (unix_ms unix_ms' : ℕ) (key : Bytes) (request : IdRequest) (values : List (Bytes × Bytes))
    (id : StreamId) where
  add_entry_explicit :
      (entry : Entry) (entries : List StreamEntry) (db : Database)
      → (add_entry key values
          (new_id unix_ms request.mode request (last_id entries))
          entry
          entries
          db).0
        ≡ ok id
      → (id ≡ new_id unix_ms request.mode request (last_id entries))
        × (is_stale (new_id unix_ms request.mode request (last_id entries)) (last_id entries)
            ≡ false)
  add_entry_explicit entry entries db e =
      elim (Bool-cases
        (is_stale (new_id unix_ms request.mode request (last_id entries)) (last_id entries))) [
          | inl h ↦ cc (rw h at e)
          | inr h ↦ (go (rw h at e), h)
        ]
    where
      go :
          ok (new_id unix_ms request.mode request (last_id entries)) ≡ ok id
          → id ≡ new_id unix_ms request.mode request (last_id entries)
      go p = cc

  add_to_value_explicit :
      (entry : Entry) (value : Value) (db : Database)
      → (add_to_value unix_ms key request values entry value db).0 ≡ ok id
      → (add_to_value unix_ms' key (explicit_of id) values entry value db
          ≡ add_to_value unix_ms key request values entry value db)
        × (IsValidValue value → Added unix_ms request id)
  add_to_value_explicit entry (string text) db e = cc
  add_to_value_explicit entry (list items) db e = cc
  add_to_value_explicit entry (stream entries) db e =
      let (p, fresh) = add_entry_explicit entry entries db e in
      (
        ap (λ i. add_entry key values i entry entries db) p,
        λ v. record {
          fits = λ f. subst IsId (sym p) (
              new_id-IsId unix_ms request.mode request (last_id entries) f
                (last_id-IsId entries v.1));
          not_zero = λ a k. subst IsNotZero (sym p) (
              new_id-IsNotZero unix_ms request.mode request.milliseconds request.sequence
                (last_id entries) a k fresh);
        },
      )

  -- Adding an entry that was added with `request`, under the identifier that it got, to the database
  -- as it was before, leaves the same database and gives the same identifier.
  pub add_stream_explicit :
      (now : ℕ) (db : Database)
      → (add_stream now unix_ms key request values db).0 ≡ ok id
      → IsValid db
      → (add_stream now unix_ms' key (explicit_of id) values db
          ≡ add_stream now unix_ms key request values db)
        × Added unix_ms request id
  unfolding add_stream
  add_stream_explicit now db e v =
      let (found, db') = find_active_entry now key db in
      go found db' (find_active_entry-IsValid now key db v).1 e
    where
      go :
          (found : Option Entry) (db' : Database)
          → IsValidEntry found
          → (add_stream_in unix_ms key request values found db').0 ≡ ok id
          → (add_stream_in unix_ms' key (explicit_of id) values found db'
              ≡ add_stream_in unix_ms key request values found db')
            × Added unix_ms request id
      go none db' w p =
          let (same, added) =
            add_to_value_explicit (entry_or_new (stream []) none) (stream [])
              (emplace_stream key none db') p in
          (same, added (tt, tt))
      go (some entry) db' w p =
          let (same, added) = add_to_value_explicit entry entry.value db' p in (same, added w)
