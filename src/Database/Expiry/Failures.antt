-- ===== src/Database/Expiry/Failures.antt =====
-- What the operations of src/database.cpp leave when they fail: what the lookup of the key left.
use codecrafters_redis_cpp.Prelude.{
  ℕ, zero, suc, ◌≤◌, ◌<◌, min, length, Bool, true, false, if◌then◌else◌, ◌≡◌, ◌≢◌, refl, Option,
  none, some, List, [], ◌∷◌, ◌++◌, arith, Bytes, Bool-cases, inl, inr,
}
use codecrafters_redis_cpp.Prelude.Int.{ℤ, pos, negsuc, pos_part, leb_ℤ}
use codecrafters_redis_cpp.Streams.{IdRequest}
use codecrafters_redis_cpp.Database.{
  Value, string, list, stream, Entry, Database, Result, ok, err, fault, find_active_entry,
}
use codecrafters_redis_cpp.Database.Lists.{
  ListAddMode, add_in, add_to, pop_from, pop_in, pop_several_from, pop_several_in, pop_front,
}
use codecrafters_redis_cpp.Database.Counters.{
  parse_value_to_increment, increment, store_number, increment_parsed, increment_value,
  increment_in,
}
use codecrafters_redis_cpp.Database.StreamOps.{
  new_id, last_id, is_stale, add_to_value, add_stream_in,
}
use codecrafters_redis_cpp.Database.Expiry.{view, view-find_active_entry}

-- No client tells the two apart from the time `now` on.
abbrev pub Alike : ℕ → Database → Database → Type 0
Alike now db db' =
    (later : ℕ) (other : Bytes) → now ≤ later → view later other db' ≡ view later other db

pub Alike-refl : (now : ℕ) (db : Database) → Alike now db db
Alike-refl now db later other h = refl

pub find_active_entry-Alike :
    (start now : ℕ) (key : Bytes) (db : Database)
    → start ≤ now
    → Alike now db (find_active_entry start key db).1
find_active_entry-Alike start now key db h later other k =
    view-find_active_entry start later key other db (omega arith)

abbrev pub KeepsUnlessOk : {A : Type 0} → Database → Result A × Database → Type 0
KeepsUnlessOk db (ok a, db') = Unit
KeepsUnlessOk db (err e, db') = db' ≡ db
KeepsUnlessOk db (fault, db') = db' ≡ db

pub add_in-KeepsUnlessOk :
    (key : Bytes) (values : List Bytes) (mode : ListAddMode) (found : Option Entry) (db : Database)
    → KeepsUnlessOk db (add_in key values mode found db)
add_in-KeepsUnlessOk key values mode none db = tt
add_in-KeepsUnlessOk key values mode (some entry) db = go entry.value
  where
    go : (value : Value) → KeepsUnlessOk db (add_to key values mode entry value db)
    go (string text) = refl
    go (stream entries) = refl
    go (list items) = tt

pub pop_in-KeepsUnlessOk :
    (key : Bytes) (found : Option Entry) (db : Database) → KeepsUnlessOk db (pop_in key found db)
pop_in-KeepsUnlessOk key none db = refl
pop_in-KeepsUnlessOk key (some entry) db = go entry.value
  where
    go : (value : Value) → KeepsUnlessOk db (pop_from key entry value db)
    go (string text) = refl
    go (stream entries) = refl
    go (list []) = refl
    go (list (item ∷ items)) = tt

pub increment_in-KeepsUnlessOk :
    (key : Bytes) (found : Option Entry) (db : Database)
    → KeepsUnlessOk db (increment_in key found db)
increment_in-KeepsUnlessOk key none db = tt
increment_in-KeepsUnlessOk key (some entry) db = go entry.value
  where
    stored : (result : Result ℤ) → KeepsUnlessOk db (store_number key entry result db)
    stored (ok result) = tt
    stored (err e) = refl
    stored fault = refl

    parsed : (n : Option ℤ) → KeepsUnlessOk db (increment_parsed key entry n db)
    parsed none = refl
    parsed (some n) = stored (increment n)

    go : (value : Value) → KeepsUnlessOk db (increment_value key entry value db)
    go (list items) = refl
    go (stream entries) = refl
    go (string text) = parsed (parse_value_to_increment text)

-- A stream that is new takes any identifier, so one that was emplaced stays only with an entry.
pub add_stream_in-KeepsUnlessOk :
    (unix_ms : ℕ) (key : Bytes) (id : IdRequest) (values : List (Bytes × Bytes))
    (found : Option Entry) (db : Database)
    → KeepsUnlessOk db (add_stream_in unix_ms key id values found db)
add_stream_in-KeepsUnlessOk unix_ms key id values none db = tt
add_stream_in-KeepsUnlessOk unix_ms key id values (some entry) db = go entry.value
  where
    go : (value : Value) → KeepsUnlessOk db (add_to_value unix_ms key id values entry value db)
    go (string text) = refl
    go (list items) = refl
    go (stream entries) =
        elim (Bool-cases
          (is_stale (new_id unix_ms id.mode id (last_id entries)) (last_id entries))) [
            | inl e ↦ rw e refl
            | inr e ↦ rw e tt
          ]

-- LPOP with a count may succeed with no value.
abbrev pub KeepsUnlessPopped : Database → Result (List Bytes) × Database → Type 0
KeepsUnlessPopped db (ok (value ∷ values), db') = Unit
KeepsUnlessPopped db (ok [], db') = db' ≡ db
KeepsUnlessPopped db (err e, db') = db' ≡ db
KeepsUnlessPopped db (fault, db') = db' ≡ db

pop_front_more :
    (count : ℕ) (items : List Bytes) (item : Bytes) (result : List Bytes)
    → (pop_front count items (item ∷ result)).0 ≢ []
unfolding pop_front
pop_front_more zero items item result = cc
pop_front_more (suc count) [] item result = cc
pop_front_more (suc count) (next ∷ items) item result =
    pop_front_more count items item (result ++ next ∷ [])

pop_front_some :
    (count : ℕ) (item : Bytes) (items : List Bytes)
    → 0 < count
    → (pop_front count (item ∷ items) []).0 ≢ []
unfolding pop_front
pop_front_some zero item items h = absurd (omega arith)
pop_front_some (suc count) item items h = pop_front_more count items item []

count_positive :
    (wanted : ℤ) (n : ℕ) → leb_ℤ wanted (pos 0) ≡ false → 0 < min (pos_part wanted) (suc n)
count_positive (pos m) n e = ground arith
count_positive (negsuc m) n e = ground arith

pub pop_several_in-KeepsUnlessPopped :
    (key : Bytes) (wanted : ℤ) (found : Option Entry) (db : Database)
    → KeepsUnlessPopped db (pop_several_in key wanted found db)
pop_several_in-KeepsUnlessPopped key wanted none db = refl
pop_several_in-KeepsUnlessPopped key wanted (some entry) db = go wanted entry.value
  where
    popped :
        (values : List Bytes) (db' : Database) → values ≢ [] → KeepsUnlessPopped db (ok values, db')
    popped [] db' h = absurd (h refl)
    popped (value ∷ values) db' h = tt

    branch :
        (none_wanted : Bool) (values : List Bytes) (db' : Database)
        → (none_wanted ≡ false → values ≢ [])
        → KeepsUnlessPopped db (if none_wanted then (ok [], db) else (ok values, db'))
    branch true values db' h = refl
    branch false values db' h = popped values db' (h refl)

    go :
        (wanted : ℤ) (value : Value)
        → KeepsUnlessPopped db (pop_several_from key wanted entry value db)
    go wanted (string text) = refl
    go wanted (stream entries) = refl
    go wanted (list []) = refl
    go wanted (list (item ∷ items)) = branch (leb_ℤ wanted (pos 0)) _ _ (λ e.
        pop_front_some (min (pos_part wanted) (suc (length items))) item items
          (count_positive wanted (length items) e))
