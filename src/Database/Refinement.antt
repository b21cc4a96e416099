-- ===== src/Database/Refinement.antt =====
-- The operations of src/database.cpp against their specification (`Spec`), on what clients see.
pub mod Operations
pub mod Run
use codecrafters_redis_cpp.Prelude.{
  ℕ, zero, suc, ◌+◌, ◌-◌, ◌≤◌, ◌≡◌, inl, inr, refl, sym, ap, ◌∙◌, Bool, true, false, Option, none,
  some, List, [], ◌∷◌, ◌++◌, arith, reverse, if◌then◌else◌, leb, Bytes, str_eq, str_eq_iff,
  Bool-cases, length, take, drop, min, append-nil, append_assoc,
}
use codecrafters_redis_cpp.Prelude.Int.{ℤ, pos, negsuc, pos_part, leb_ℤ}
use codecrafters_redis_cpp.Prelude.Map.{bytes_eq, find, find-insert, find-erase}
use codecrafters_redis_cpp.Numeric.{to_string_ℤ}
use codecrafters_redis_cpp.Streams.{StreamId, StreamEntry, IdRequest}
use codecrafters_redis_cpp.Database.{
  Value, string, list, stream, Entry, Database, key_not_found, wrong_type, value_not_integer,
  Result, ok, err, mark_key_modified, put_entry, erase_entry, find_active_entry, has_expired,
  string_in, type_in, deadline, set, get, get_type,
}
use codecrafters_redis_cpp.Database.Lists.{
  ListAddMode, append, prepend, add_values, add_in, add_to, entry_or_new, store_list, store_rest,
  pop_in, pop_from, pop_several_in, pop_several_from, pop_front, slice_in, slice, length_in,
  add_list_elements, list_elements, get_list_length, pop_list_element, pop_list_elements,
}
use codecrafters_redis_cpp.Database.Lists.Slice.{slice_lem}
use codecrafters_redis_cpp.Database.StreamOps.{
  new_id, last_id, is_stale, add_stream, add_stream_in, add_to_value, emplace_stream,
}
use codecrafters_redis_cpp.Database.Counters.{
  parse_value_to_increment, increment, increment_key, increment_in, increment_parsed,
  increment_value,
}
use codecrafters_redis_cpp.Database.Expiry.{
  live, view, view-put, view-erase, view_unmarked_put, live-view, find_active_entry-eq-view,
  view-find_active_entry,
}
use codecrafters_redis_cpp.Database.Spec.{
  Operation, assign, read_string, read_type, read_length, pop_one, count_up, push, read_range,
  pop_many, add_entry, Reply, nothing, text, kind, count, texts, id, number, run, spec, on_entry,
  on_missing, incremented, remaining,
}

-- The code's outcome, reached from `db`, against the specification's: the same reply, the entry of
-- `key` as specified, and what is seen at every other key as it was.
pub record Agrees (now : ℕ) (key : Bytes) (db : Database) (code : Reply × Database)
    (promise : Reply × Option Entry) : Type 0 where
  pub reply : code.0 ≡ promise.0
  pub entries :
      (other : Bytes)
      → view now other code.1 ≡ (if str_eq key other then live now promise.1 else view now other db)

-- The loop of `pop_list_elements` takes and drops.
pop_front_lem :
    (n : ℕ) (items result : List Bytes)
    → pop_front n items result ≡ (result ++ take n items, drop n items)
unfolding pop_front
pop_front_lem zero items result = rw append-nil refl
pop_front_lem (suc n) [] result = rw append-nil refl
pop_front_lem (suc n) (item ∷ items) result =
    rw (pop_front_lem n items (result ++ item ∷ []), append_assoc result (item ∷ []) (take n items))
      refl

zero_min : (m : ℕ) → min 0 m ≡ 0
zero_min m = omega arith

min_zero : (m : ℕ) → min m 0 ≡ 0
min_zero m = omega arith

min-suc : (m k : ℕ) → min (suc m) (suc k) ≡ suc (min m k)
min-suc m k = omega arith

-- The loop runs no further than the list.
take-min : (n : ℕ) (items : List Bytes) → take (min n (length items)) items ≡ take n items
take-min zero items = rw (zero_min (length items)) refl
take-min (suc n) [] = rw (min_zero (suc n)) refl
take-min (suc n) (item ∷ items) =
    rw (min-suc n (length items)) (ap (λ (l : List Bytes). item ∷ l) (take-min n items))

drop-min : (n : ℕ) (items : List Bytes) → drop (min n (length items)) items ≡ drop n items
drop-min zero items = rw (zero_min (length items)) refl
drop-min (suc n) [] = rw (min_zero (suc n)) refl
drop-min (suc n) (item ∷ items) = rw (min-suc n (length items)) (drop-min n items)

pub pop_front-min :
    (n : ℕ) (items : List Bytes)
    → pop_front (min n (length items)) items [] ≡ (take n items, drop n items)
pop_front-min n items =
    rw (pop_front_lem (min n (length items)) items [], take-min n items, drop-min n items) refl

-- Behind the lookup: `db` shows `found` at `key`.
module _ (now : ℕ) (key : Bytes) (db : Database) (found : Option Entry)
    (seen : view now key db ≡ found) where
  pub unchanged : (reply : Reply) → Agrees now key db (reply, db) (reply, found)
  unchanged reply = record {
    reply = refl;
    entries = λ other. ground (arith, str_eq_iff key other, seen, live-view now key db);
  }

  pub wrote :
      (reply : Reply) (entry : Entry)
      → Agrees now key db
          (reply, mark_key_modified key (put_entry key entry db))
          (reply, some entry)
  wrote reply entry = record { reply = refl; entries = λ other. view-put now key other entry db }

  -- A list that is stored back after a pop.
  pub rest-Agrees :
      (reply : Reply) (entry : Entry) (items : List Bytes)
      → Agrees now key db (reply, store_rest key entry items db) (reply, remaining entry items)
  unfolding store_list
  rest-Agrees reply entry [] = record {
    reply = refl;
    entries = λ other.
        view-erase now key other (put_entry key (record entry { value = list [] }) db)
        ∙ ground (arith, view_unmarked_put now key other (record entry { value = list [] }) db);
  }
  rest-Agrees reply entry (item ∷ items) =
      wrote reply (record entry { value = list (item ∷ items) })
