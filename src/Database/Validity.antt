-- ===== src/Database/Validity.antt =====
-- The invariant of the keyspace of src/database.cpp.
pub mod Operations
pub mod Reachable
use codecrafters_redis_cpp.Prelude.{
  ℕ, zero, suc, ◌+◌, ◌%◌, ◌^◌, ◌≤◌, ◌<◌, ◌≡◌, ◌≢◌, inl, inr, refl, sym, ap, ◌∙◌, subst, Bool, true,
  false, Option, none, some, List, [], ◌∷◌, ◌++◌, reverse, arith, Bool-cases, Bytes, str_eq,
  str_eq_iff, leb, length, min, if◌then◌else◌,
}
use codecrafters_redis_cpp.Prelude.Int.{ℤ, pos, leb_ℤ}
use codecrafters_redis_cpp.Prelude.Map.{Map, bytes_eq, find, insert, erase, find-insert, find-erase}
use codecrafters_redis_cpp.Numeric.{max_uint64, to_string_ℤ}
use codecrafters_redis_cpp.Streams.{
  StreamId, id_lt, id_le, IsId, StreamEntry, automatic, automatic_sequence, explicit, IdRequest,
  ReadRequest, ReadResult,
}
use codecrafters_redis_cpp.Database.{
  Value, string, list, stream, Entry, Database, empty, Result, ok, err, fault, has_expired,
  mark_key_modified, put_entry, erase_entry, if_active, find_active_entry,
}
use codecrafters_redis_cpp.Database.Lists.{
  ListAddMode, append, prepend, add_values, add_to, entry_or_new, store_list, store_rest,
}
use codecrafters_redis_cpp.Database.StreamOps.{
  add_to_value, add_entry, emplace_stream, new_id, last_id, is_stale, add_stream_in,
}
use codecrafters_redis_cpp.Database.StreamOps.Partition.{Above, IsSorted}
use codecrafters_redis_cpp.Streams.{id_lt_trans}

abbrev pub AllIds : List StreamEntry → Type 0
AllIds [] = Unit
AllIds (entry ∷ entries) = IsId entry.id × AllIds entries

-- A list key holds something; the identifiers of a stream grow and are of 64-bit parts.
abbrev pub IsValidValue : Value → Type 0
IsValidValue (string _) = Unit
IsValidValue (list items) = items ≢ []
IsValidValue (stream entries) = IsSorted entries × AllIds entries

abbrev pub IsValidEntry : Option Entry → Type 0
IsValidEntry none = Unit
IsValidEntry (some entry) = IsValidValue entry.value

abbrev pub IsValid : Database → Type 0
IsValid db = (key : Bytes) → IsValidEntry (find key db.entries)

pub empty-IsValid : IsValid empty
unfolding find
empty-IsValid key = tt

pub mark-IsValid : (key : Bytes) (db : Database) → IsValid db → IsValid (mark_key_modified key db)
unfolding mark_key_modified
mark-IsValid key db v = v

pub put-IsValid :
    (key : Bytes) (entry : Entry) (db : Database)
    → IsValidValue entry.value
    → IsValid db
    → IsValid (put_entry key entry db)
unfolding put_entry
put-IsValid key entry db h v other =
    subst IsValidEntry (sym (find-insert key other entry db.entries)) (choose (str_eq key other))
  where
    choose : (b : Bool) → IsValidEntry (if b then some entry else find other db.entries)
    choose true = h
    choose false = v other

pub erase-IsValid : (key : Bytes) (db : Database) → IsValid db → IsValid (erase_entry key db)
unfolding erase_entry
erase-IsValid key db v other =
    subst IsValidEntry (sym (find-erase key other db.entries)) (choose (str_eq key other))
  where
    choose : (b : Bool) → IsValidEntry (if b then none else find other db.entries)
    choose true = tt
    choose false = v other

-- A key that is emptied before it is erased.
pub erase-put-IsValid :
    (key : Bytes) (entry : Entry) (db : Database)
    → IsValid db
    → IsValid (erase_entry key (put_entry key entry db))
unfolding erase_entry put_entry
erase-put-IsValid key entry db v other =
    subst IsValidEntry
      (sym (
        find-erase key other (insert key entry db.entries)
        ∙ ap (λ (o : Option Entry). if str_eq key other then none else o)
            (find-insert key other entry db.entries)))
      (choose (str_eq key other))
  where
    choose :
        (b : Bool)
        → IsValidEntry (if b then none else if b then some entry else find other db.entries)
    choose true = tt
    choose false = v other

-- The database that a lookup leaves, and what it finds.
pub find_active_entry-IsValid :
    (now : ℕ) (key : Bytes) (db : Database)
    → IsValid db
    → IsValid (find_active_entry now key db).1 × IsValidEntry (find_active_entry now key db).0
unfolding find_active_entry
find_active_entry-IsValid now key db v = go (find key db.entries) (v key)
  where
    go :
        (found : Option Entry)
        → IsValidEntry found
        → IsValid (if_active now key found db).1 × IsValidEntry (if_active now key found db).0
    go none h = (v, tt)
    go (some entry) h = elim (Bool-cases (has_expired now entry.expires_at)) [
      | inl e ↦ rw e (mark-IsValid key _ (erase-IsValid key db v), tt)
      | inr e ↦ rw e (v, h)
    ]

Above-append :
    (id : StreamId) (entries : List StreamEntry) (entry : StreamEntry)
    → Above id entries
    → id_lt id entry.id ≡ true
    → Above id (entries ++ entry ∷ [])
Above-append id [] entry a h = (h, tt)
Above-append id (first ∷ entries) entry (p, a) h = (p, Above-append id entries entry a h)

IsSorted-append_cons :
    (first : StreamEntry) (entries : List StreamEntry) (entry : StreamEntry)
    → IsSorted (first ∷ entries)
    → is_stale entry.id (last_id (first ∷ entries)) ≡ false
    → IsSorted (first ∷ (entries ++ entry ∷ [])) × (id_lt first.id entry.id ≡ true)
unfolding id_le
IsSorted-append_cons first [] entry s h =
    let p : id_lt first.id entry.id ≡ true = ground arith in (((p, tt), (tt, tt)), p)
IsSorted-append_cons first (next ∷ entries) entry (a, s) h =
    let (s', p) = IsSorted-append_cons next entries entry s h in
    let q = id_lt_trans first.id next.id entry.id a.0 p in
    ((Above-append first.id (next ∷ entries) entry a q, s'), q)

pub IsSorted-append :
    (entries : List StreamEntry) (entry : StreamEntry)
    → IsSorted entries
    → is_stale entry.id (last_id entries) ≡ false
    → IsSorted (entries ++ entry ∷ [])
IsSorted-append [] entry s h = (tt, tt)
IsSorted-append (first ∷ entries) entry s h = (IsSorted-append_cons first entries entry s h).0

pub AllIds-append :
    (entries : List StreamEntry) (entry : StreamEntry)
    → AllIds entries
    → IsId entry.id
    → AllIds (entries ++ entry ∷ [])
AllIds-append [] entry a h = (h, tt)
AllIds-append (first ∷ entries) entry (p, a) h = (p, AllIds-append entries entry a h)

abbrev pub IsIdIfAny : Option StreamId → Type 0
IsIdIfAny none = Unit
IsIdIfAny (some id) = IsId id

pub last_id-IsId : (entries : List StreamEntry) → AllIds entries → IsIdIfAny (last_id entries)
last_id-IsId [] a = tt
last_id-IsId (entry ∷ []) a = a.0
last_id-IsId (entry ∷ next ∷ entries) a = last_id-IsId (next ∷ entries) a.1
