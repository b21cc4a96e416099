-- ===== src/Database.antt =====
-- src/database.hpp and src/database.cpp: the keyspace. This file has the state and the operations
-- on whole keys; those on lists, streams and counters are in `Lists`, `StreamOps` and `Counters`.
-- Every operation takes what it reads from the clock, and returns the new state with its result.
mod Tests
pub mod Lists
pub mod Counters
pub mod StreamOps
pub mod Reads
pub mod Actions
pub mod Expiry
pub mod Revisions
pub mod Validity
pub mod Spec
pub mod Refinement
use codecrafters_redis_cpp.Prelude.{
  ℕ, zero, suc, ◌+◌, ◌*◌, ◌%◌, ◌^◌, Bool, true, false, Option, none, some, List, [], ◌∷◌, ◌++◌,
  if◌then◌else◌, Bytes,
}
use codecrafters_redis_cpp.Prelude.Int.{ℤ, pos, ◌+ℤ◌, ◌*ℤ◌, leb_ℤ, wrap64}
use codecrafters_redis_cpp.Prelude.Map.{Map, bytes_eq, find, insert, erase}
use codecrafters_redis_cpp.Streams.{StreamEntry}

pub data Value : Type 0 where
  string : Bytes → Value
  list : List Bytes → Value
  stream : List StreamEntry → Value

pub record Entry : Type 0 where
  pub value : Value
  pub expires_at : Option ℤ

pub record Database : Type 0 where
  pub entries : Map Bytes Entry
  pub key_revisions : Map Bytes ℕ
  pub next_revision : ℕ

abbrev pub empty : Database
empty = record { entries = []; key_revisions = []; next_revision = 1 }

pub data Error : Type 0 where
  key_not_found wrong_type invalid_stream_id_mode invalid_stream_id_value value_not_integer : Error

-- `std::expected<A, Error>`; `fault` is undefined behaviour of C++.
pub data Result (A : Type 0) : Type 0 where
  ok : A → Result A
  err : Error → Result A
  fault : Result A

pub data ValueType : Type 0 where
  none_type string_type list_type stream_type : ValueType

-- `now >= *expires_at`, where the time is in nanoseconds of the steady clock.
abbrev pub has_expired : ℕ → Option ℤ → Bool
has_expired now none = false
has_expired now (some deadline) = leb_ℤ deadline (pos now)

unfoldable pub mark_key_modified : Bytes → Database → Database
mark_key_modified key db = record db {
  key_revisions = insert key db.next_revision db.key_revisions;
  next_revision = (db.next_revision + 1) % 2 ^ 64;
}

unfoldable pub put_entry : Bytes → Entry → Database → Database
put_entry key entry db = record db { entries = insert key entry db.entries }

unfoldable pub erase_entry : Bytes → Database → Database
erase_entry key db = record db { entries = erase key db.entries }

abbrev pub if_active : ℕ → Bytes → Option Entry → Database → Option Entry × Database
if_active now key none db = (none, db)
if_active now key (some entry) db =
    if has_expired now entry.expires_at
    then (none, mark_key_modified key (erase_entry key db))
    else (some entry, db)

unfoldable pub find_active_entry : ℕ → Bytes → Database → Option Entry × Database
find_active_entry now key db = if_active now key (find key db.entries) db

-- `now() + *expiry`: the milliseconds are converted to the nanoseconds of a time point, and both
-- steps are of `int64_t`, with wrap-around where the source overflows.
unfoldable pub deadline_after : ℕ → ℤ → ℤ
deadline_after now milliseconds = wrap64 (pos now +ℤ wrap64 (milliseconds *ℤ pos 1_000_000))

abbrev pub deadline : ℕ → Option ℤ → Option ℤ
deadline now none = none
deadline now (some milliseconds) = some (deadline_after now milliseconds)

unfoldable pub set : ℕ → Bytes → Bytes → Option ℤ → Database → Database
set now key value expiry db =
    mark_key_modified key
      (put_entry key (record { value = string value; expires_at = deadline now expiry }) db)

abbrev pub string_of : Value → Result Bytes
string_of (string value) = ok value
string_of (list _) = err wrong_type
string_of (stream _) = err wrong_type

abbrev pub string_in : Option Entry → Result Bytes
string_in none = err key_not_found
string_in (some entry) = string_of entry.value

unfoldable pub get : ℕ → Bytes → Database → Result Bytes × Database
unfolding find_active_entry
get now key db = let (found, db') = find_active_entry now key db in (string_in found, db')

abbrev pub type_of : Value → ValueType
type_of (string _) = string_type
type_of (list _) = list_type
type_of (stream _) = stream_type

abbrev pub type_in : Option Entry → ValueType
type_in none = none_type
type_in (some entry) = type_of entry.value

unfoldable pub get_type : ℕ → Bytes → Database → ValueType × Database
unfolding find_active_entry
get_type now key db = let (found, db') = find_active_entry now key db in (type_in found, db')

-- The loop of `keys`, over the entries that it has not yet visited.
unfoldable pub visit_keys : ℕ → Map Bytes Entry → List Bytes → Database → List Bytes × Database
visit_keys now [] result db = (result, db)
visit_keys now ((key, entry) ∷ unvisited) result db =
    let expired = has_expired now entry.expires_at in
    visit_keys now unvisited (if expired then result else result ++ key ∷ [])
      (if expired then erase_entry key (mark_key_modified key db) else db)

unfoldable pub keys : ℕ → Database → List Bytes × Database
unfolding visit_keys
keys now db = visit_keys now db.entries [] db

abbrev pub revision_or_zero : Option ℕ → ℕ
revision_or_zero none = 0
revision_or_zero (some revision) = revision

unfoldable pub key_revision : ℕ → Bytes → Database → ℕ × Database
unfolding find_active_entry
key_revision now key db =
    let (found, db') = find_active_entry now key db in
    (revision_or_zero (find key db'.key_revisions), db')
