-- ===== src/Database/Refinement/Operations.antt =====
-- The operations of src/database.cpp implement their specification (`Spec`) on what clients see.
use codecrafters_redis_cpp.Prelude.{
  ℕ, ◌≡◌, inl, inr, ap, ◌∙◌, Option, none, some, List, [], ◌∷◌, arith, if◌then◌else◌, Bytes, str_eq,
  Bool-cases, drop, length,
}
use codecrafters_redis_cpp.Prelude.Int.{ℤ, pos, negsuc, pos_part, leb_ℤ, ◌+ℤ◌, ◌-ℤ◌}
use codecrafters_redis_cpp.Numeric.{max_int64}
use codecrafters_redis_cpp.Prelude.Map.{bytes_eq}
use codecrafters_redis_cpp.Database.{
  Value, string, list, stream, Entry, Database, find_active_entry, string_in, string_of, type_in,
  type_of,
}
use codecrafters_redis_cpp.Database.Lists.{
  ListAddMode, append, prepend, add_in, add_to, store_list, pop_in, pop_from, pop_several_in,
  pop_several_from, from_end, slice_in, slice_of, length_in, length_of,
}
use codecrafters_redis_cpp.Database.Lists.Slice.{slice_lem}
use codecrafters_redis_cpp.Database.Counters.{
  parse_value_to_increment, increment, increment_in, increment_parsed, increment_value,
}
use codecrafters_redis_cpp.Database.Expiry.{
  live, view, find_active_entry-eq-view, view-find_active_entry,
}
use codecrafters_redis_cpp.Database.Spec.{
  read_string, read_type, read_length, pop_one, count_up, push, read_range, pop_many, Reply, text,
  kind, count, texts, number, spec, on_entry, incremented, position,
}
use codecrafters_redis_cpp.Database.Refinement.{
  Agrees, pop_front-min, unchanged, wrote, rest-Agrees,
}

-- The lookup shows clients nothing, so an outcome behind it is one from the start.
pub lookup-Agrees :
    (now : ℕ) (key : Bytes) (db : Database) (code : Reply × Database)
    (promise : Option Entry → Reply × Option Entry)
    → Agrees now key
        (find_active_entry now key db).1
        code
        (promise (find_active_entry now key db).0)
    → Agrees now key db code (promise (view now key db))
lookup-Agrees now key db code promise a = rw (← find_active_entry-eq-view now key db) (record {
  reply = a.reply;
  entries = λ other.
      a.entries other
      ∙ ap
          (λ (o : Option Entry).
            if str_eq key other then live now (promise (find_active_entry now key db).0).1 else o)
          (view-find_active_entry now now key other db (omega arith));
})

from_end_lem : (size : ℕ) (index : ℤ) → from_end size index ≡ position size index
unfolding ◌+ℤ◌ ◌-ℤ◌
from_end_lem size (pos n) = ground arith
from_end_lem size (negsuc n) = ground arith

module _ (now : ℕ) (key : Bytes) (db : Database) where
  module _ (found : Option Entry) (seen : view now key db ≡ found) where
    same : (reply : Reply) → Agrees now key db (reply, db) (reply, found)
    same reply = unchanged now key db found seen reply

  pub string-Agrees :
      (found : Option Entry)
      → view now key db ≡ found
      → Agrees now key db (text (string_in found), db) (spec now read_string found)
  string-Agrees none seen = same none seen _
  string-Agrees (some entry) seen = go entry.value
    where
      go :
          (value : Value)
          → Agrees now key db (text (string_of value), db) (on_entry read_string entry value)
      go (string _) = same (some entry) seen _
      go (list _) = same (some entry) seen _
      go (stream _) = same (some entry) seen _

  pub type-Agrees :
      (found : Option Entry)
      → view now key db ≡ found
      → Agrees now key db (kind (type_in found), db) (spec now read_type found)
  type-Agrees none seen = same none seen _
  type-Agrees (some entry) seen = go entry.value
    where
      go :
          (value : Value)
          → Agrees now key db (kind (type_of value), db) (on_entry read_type entry value)
      go (string _) = same (some entry) seen _
      go (list _) = same (some entry) seen _
      go (stream _) = same (some entry) seen _

  pub length-Agrees :
      (found : Option Entry)
      → view now key db ≡ found
      → Agrees now key db (count (length_in found), db) (spec now read_length found)
  length-Agrees none seen = same none seen _
  length-Agrees (some entry) seen = go entry.value
    where
      go :
          (value : Value)
          → Agrees now key db (count (length_of value), db) (on_entry read_length entry value)
      go (string _) = same (some entry) seen _
      go (list _) = same (some entry) seen _
      go (stream _) = same (some entry) seen _

  pub range-Agrees :
      (start stop : ℤ) (found : Option Entry)
      → view now key db ≡ found
      → Agrees now key db
          (texts (slice_in found start stop), db)
          (spec now (read_range start stop) found)
  range-Agrees start stop none seen = same none seen _
  range-Agrees start stop (some entry) seen = go entry.value
    where
      go :
          (value : Value)
          → Agrees now key db
              (texts (slice_of value start stop), db)
              (on_entry (read_range start stop) entry value)
      go (string _) = same (some entry) seen _
      go (list items) =
          rw
            (
              slice_lem items start stop,
              from_end_lem (length items) start,
              from_end_lem (length items) stop,
            )
            (same (some entry) seen _)
      go (stream _) = same (some entry) seen _

  pub push-Agrees :
      (mode : ListAddMode) (values : List Bytes) (found : Option Entry)
      → view now key db ≡ found
      → Agrees now key db
          (count (add_in key values mode found db).0, (add_in key values mode found db).1)
          (spec now (push mode values) found)
  unfolding store_list
  push-Agrees append values none seen = wrote now key db none seen _ _
  push-Agrees prepend values none seen = wrote now key db none seen _ _
  push-Agrees mode values (some entry) seen = go mode entry.value
    where
      go :
          (mode : ListAddMode) (value : Value)
          → Agrees now key db
              (
                count (add_to key values mode entry value db).0,
                (add_to key values mode entry value db).1,
              )
              (on_entry (push mode values) entry value)
      go mode (string _) = same (some entry) seen _
      go append (list items) = wrote now key db (some entry) seen _ _
      go prepend (list items) = wrote now key db (some entry) seen _ _
      go mode (stream _) = same (some entry) seen _

  pub pop-Agrees :
      (found : Option Entry)
      → view now key db ≡ found
      → Agrees now key db
          (text (pop_in key found db).0, (pop_in key found db).1)
          (spec now pop_one found)
  pop-Agrees none seen = same none seen _
  pop-Agrees (some entry) seen = go entry.value
    where
      go :
          (value : Value)
          → Agrees now key db
              (text (pop_from key entry value db).0, (pop_from key entry value db).1)
              (on_entry pop_one entry value)
      go (string _) = same (some entry) seen _
      go (list []) = same (some entry) seen _
      go (list (item ∷ items)) = rest-Agrees now key db (some entry) seen _ entry items
      go (stream _) = same (some entry) seen _

  pub pop_many-Agrees :
      (wanted : ℤ) (found : Option Entry)
      → view now key db ≡ found
      → Agrees now key db
          (texts (pop_several_in key wanted found db).0, (pop_several_in key wanted found db).1)
          (spec now (pop_many wanted) found)
  pop_many-Agrees wanted none seen = same none seen _
  pop_many-Agrees wanted (some entry) seen = go entry.value
    where
      go :
          (value : Value)
          → Agrees now key db
              (
                texts (pop_several_from key wanted entry value db).0,
                (pop_several_from key wanted entry value db).1,
              )
              (on_entry (pop_many wanted) entry value)
      go (string _) = same (some entry) seen _
      go (list []) = same (some entry) seen _
      go (list (item ∷ items)) = elim (Bool-cases (leb_ℤ wanted (pos 0))) [
        | inl e ↦ rw e (same (some entry) seen _)
        | inr e ↦
            rw (e, pop_front-min (pos_part wanted) (item ∷ items))
              (rest-Agrees now key db (some entry) seen _ entry
                (drop (pos_part wanted) (item ∷ items)))
      ]
      go (stream _) = same (some entry) seen _

  pub count-Agrees :
      (found : Option Entry)
      → view now key db ≡ found
      → Agrees now key db
          (number (increment_in key found db).0, (increment_in key found db).1)
          (spec now count_up found)
  unfolding increment parse_value_to_increment
  count-Agrees none seen = wrote now key db none seen _ _
  count-Agrees (some entry) seen = go entry.value
    where
      parsed :
          (n : Option ℤ)
          → Agrees now key db
              (number (increment_parsed key entry n db).0, (increment_parsed key entry n db).1)
              (incremented entry n)
      parsed none = same (some entry) seen _
      parsed (some n) = elim (Bool-cases (leb_ℤ (pos max_int64) n)) [
        | inl e ↦ rw e (same (some entry) seen _)
        | inr e ↦ rw e (wrote now key db (some entry) seen _ _)
      ]

      go :
          (value : Value)
          → Agrees now key db
              (
                number (increment_value key entry value db).0,
                (increment_value key entry value db).1,
              )
              (on_entry count_up entry value)
      go (string value) = parsed (parse_value_to_increment value)
      go (list _) = same (some entry) seen _
      go (stream _) = same (some entry) seen _
