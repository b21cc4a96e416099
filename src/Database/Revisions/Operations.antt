-- ===== src/Database/Revisions/Operations.antt =====
-- Every operation of src/database.cpp keeps the books of revision numbers, which makes WATCH sound.
use codecrafters_redis_cpp.Prelude.{
  ℕ, inl, inr, Option, none, some, List, [], ◌∷◌, Bytes, Bool-cases,
}
use codecrafters_redis_cpp.Prelude.Int.{ℤ, pos, leb_ℤ}
use codecrafters_redis_cpp.Prelude.Map.{bytes_eq}
use codecrafters_redis_cpp.Streams.{IdRequest}
use codecrafters_redis_cpp.Database.{
  Result, ok, err, fault, Value, string, list, stream, Entry, Database, set,
}
use codecrafters_redis_cpp.Database.Lists.{
  ListAddMode, add_to, pop_in, pop_from, pop_several_in, pop_several_from, store_list, store_rest,
}
use codecrafters_redis_cpp.Database.StreamOps.{
  add_stream_in, add_to_value, new_id, last_id, is_stale,
}
use codecrafters_redis_cpp.Database.Counters.{
  increment_in, increment_value, increment_parsed, parse_value_to_increment, increment,
  store_number,
}
use codecrafters_redis_cpp.Database.Revisions.{
  Advances, Advances-refl, HasRoom, mark-Advances, put-ChangesOnly, erase-ChangesOnly,
  ChangesOnly-trans,
}

module _ (now : ℕ) (key other : Bytes) (db : Database) where
  pub set-Advances :
      (value : Bytes) (expiry : Option ℤ)
      → HasRoom 1 db
      → Advances 1 other db (set now key value expiry db)
  unfolding set
  set-Advances value expiry h = mark-Advances key other db _ h (put-ChangesOnly key _ db)

-- The marked writes of the operations, behind the lookup.
store_list-Advances :
    (key other : Bytes) (entry : Entry) (items : List Bytes) (db : Database)
    → HasRoom 1 db
    → Advances 1 other db (store_list key entry items db)
unfolding store_list
store_list-Advances key other entry items db h =
    mark-Advances key other db _ h (put-ChangesOnly key _ db)

store_rest-Advances :
    (key other : Bytes) (entry : Entry) (items : List Bytes) (db : Database)
    → HasRoom 1 db
    → Advances 1 other db (store_rest key entry items db)
store_rest-Advances key other entry [] db h =
    mark-Advances key other db _ h
      (ChangesOnly-trans key db _ _ (put-ChangesOnly key _ db) (erase-ChangesOnly key _))
store_rest-Advances key other entry (item ∷ items) db h =
    store_list-Advances key other entry (item ∷ items) db h

pub add_to-Advances :
    (key other : Bytes) (values : List Bytes) (mode : ListAddMode) (entry : Entry) (value : Value)
    (db : Database)
    → HasRoom 1 db
    → Advances 1 other db (add_to key values mode entry value db).1
add_to-Advances key other values mode entry (string _) db h = Advances-refl 1 other db
add_to-Advances key other values mode entry (stream _) db h = Advances-refl 1 other db
add_to-Advances key other values mode entry (list items) db h =
    store_list-Advances key other entry _ db h

pub pop_in-Advances :
    (key other : Bytes) (found : Option Entry) (db : Database)
    → HasRoom 1 db
    → Advances 1 other db (pop_in key found db).1
pop_in-Advances key other none db h = Advances-refl 1 other db
pop_in-Advances key other (some entry) db h = go entry.value
  where
    go : (value : Value) → Advances 1 other db (pop_from key entry value db).1
    go (string _) = Advances-refl 1 other db
    go (stream _) = Advances-refl 1 other db
    go (list []) = Advances-refl 1 other db
    go (list (item ∷ items)) = store_rest-Advances key other entry items db h

pub pop_several_in-Advances :
    (key other : Bytes) (wanted : ℤ) (found : Option Entry) (db : Database)
    → HasRoom 1 db
    → Advances 1 other db (pop_several_in key wanted found db).1
pop_several_in-Advances key other wanted none db h = Advances-refl 1 other db
pop_several_in-Advances key other wanted (some entry) db h = go entry.value
  where
    go : (value : Value) → Advances 1 other db (pop_several_from key wanted entry value db).1
    go (string _) = Advances-refl 1 other db
    go (stream _) = Advances-refl 1 other db
    go (list []) = Advances-refl 1 other db
    go (list (item ∷ items)) = elim (Bool-cases (leb_ℤ wanted (pos 0))) [
      | inl e ↦ rw e (Advances-refl 1 other db)
      | inr e ↦ rw e (store_rest-Advances key other entry _ db h)
    ]

pub increment_in-Advances :
    (key other : Bytes) (found : Option Entry) (db : Database)
    → HasRoom 1 db
    → Advances 1 other db (increment_in key found db).1
increment_in-Advances key other none db h =
    mark-Advances key other db _ h (put-ChangesOnly key _ db)
increment_in-Advances key other (some entry) db h = go entry.value
  where
    stored : (result : Result ℤ) → Advances 1 other db (store_number key entry result db).1
    stored (ok result) = mark-Advances key other db _ h (put-ChangesOnly key _ db)
    stored (err e) = Advances-refl 1 other db
    stored fault = Advances-refl 1 other db

    parsed : (n : Option ℤ) → Advances 1 other db (increment_parsed key entry n db).1
    parsed none = Advances-refl 1 other db
    parsed (some n) = stored (increment n)

    go : (value : Value) → Advances 1 other db (increment_value key entry value db).1
    go (list _) = Advances-refl 1 other db
    go (stream _) = Advances-refl 1 other db
    go (string text) = parsed (parse_value_to_increment text)

pub add_stream_in-Advances :
    (unix_ms : ℕ) (key other : Bytes) (id : IdRequest) (values : List (Bytes × Bytes))
    (found : Option Entry) (db : Database)
    → HasRoom 1 db
    → Advances 1 other db (add_stream_in unix_ms key id values found db).1
add_stream_in-Advances unix_ms key other id values none db h =
    mark-Advances key other db _ h
      (ChangesOnly-trans key db _ _ (put-ChangesOnly key _ db) (put-ChangesOnly key _ _))
add_stream_in-Advances unix_ms key other id values (some entry) db h = go entry.value
  where
    go : (value : Value) → Advances 1 other db (add_to_value unix_ms key id values entry value db).1
    go (string _) = Advances-refl 1 other db
    go (list _) = Advances-refl 1 other db
    go (stream entries) =
        elim (Bool-cases
          (is_stale (new_id unix_ms id.mode id (last_id entries)) (last_id entries))) [
            | inl e ↦ rw e (Advances-refl 1 other db)
            | inr e ↦ rw e (mark-Advances key other db _ h (put-ChangesOnly key _ db))
          ]
