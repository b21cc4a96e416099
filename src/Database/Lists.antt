-- ===== src/Database/Lists.antt =====
-- The list operations of src/database.cpp.
pub mod Slice
use codecrafters_redis_cpp.Prelude.{
  ℕ, zero, suc, ◌+◌, ◌-◌, Bool, true, false, ◌||◌, Option, none, some, List, [], ◌∷◌, ◌++◌, reverse,
  ltb, leb, ◌==◌, if◌then◌else◌, Bytes, length, take, drop, min,
}
use codecrafters_redis_cpp.Prelude.Int.{ℤ, pos, negsuc, pos_part, ◌+ℤ◌, ◌-ℤ◌, ltb_ℤ, leb_ℤ}
use codecrafters_redis_cpp.Database.{
  Value, string, list, stream, Entry, Database, key_not_found, wrong_type, Result, ok, err,
  mark_key_modified, put_entry, erase_entry, find_active_entry,
}

pub data ListAddMode : Type 0 where
  append prepend : ListAddMode

-- The insertion of `values` at the end, or of their reverse at the beginning.
abbrev pub add_values : ListAddMode → List Bytes → List Bytes → List Bytes
add_values append values items = items ++ values
add_values prepend values items = reverse values ++ items

abbrev pub entry_or_new : Value → Option Entry → Entry
entry_or_new value none = record { value = value; expires_at = none }
entry_or_new value (some entry) = entry

-- Writes the list back and records the change.
unfoldable pub store_list : Bytes → Entry → List Bytes → Database → Database
store_list key entry items db =
    mark_key_modified key (put_entry key (record entry { value = list items }) db)

abbrev pub add_to :
    Bytes → List Bytes → ListAddMode → Entry → Value → Database → Result ℕ × Database
add_to key values mode entry (string _) db = (err wrong_type, db)
add_to key values mode entry (stream _) db = (err wrong_type, db)
add_to key values mode entry (list items) db =
    let items' = add_values mode values items in
    (ok (length items'), store_list key entry items' db)

-- A missing key is emplaced with an empty list first.
abbrev pub add_in : Bytes → List Bytes → ListAddMode → Option Entry → Database → Result ℕ × Database
add_in key values mode found db =
    let entry = entry_or_new (list []) found in add_to key values mode entry entry.value db

unfoldable pub add_list_elements :
    ℕ → Bytes → List Bytes → ListAddMode → Database → Result ℕ × Database
unfolding find_active_entry store_list
add_list_elements now key values mode db =
    let (found, db') = find_active_entry now key db in add_in key values mode found db'

-- `start` and `stop` with their offsets from the end resolved and held to the list.
abbrev pub from_end : ℕ → ℤ → ℤ
from_end size index = if ltb_ℤ index (pos 0) then index +ℤ pos size else index

abbrev pub first_index : ℕ → ℤ → ℤ
first_index size start =
    let index = from_end size start in if ltb_ℤ index (pos 0) then pos 0 else index

abbrev pub last_index : ℕ → ℤ → ℤ
last_index size stop =
    let index = from_end size stop in if leb_ℤ (pos size) index then pos size -ℤ pos 1 else index

unfoldable pub slice : List Bytes → ℤ → ℤ → List Bytes
slice items start stop =
    let size = length items in
    let first = first_index size start in
    let last = last_index size stop in
    if size == 0
    then []
    else if ltb_ℤ last (pos 0) || (leb_ℤ (pos size) first || ltb_ℤ last first)
    then []
    else take (pos_part last + 1 - pos_part first) (drop (pos_part first) items)

abbrev pub slice_of : Value → ℤ → ℤ → Result (List Bytes)
slice_of (string _) start stop = err wrong_type
slice_of (stream _) start stop = err wrong_type
slice_of (list items) start stop = ok (slice items start stop)

abbrev pub slice_in : Option Entry → ℤ → ℤ → Result (List Bytes)
slice_in none start stop = ok []
slice_in (some entry) start stop = slice_of entry.value start stop

unfoldable pub list_elements : ℕ → Bytes → ℤ → ℤ → Database → Result (List Bytes) × Database
unfolding find_active_entry
list_elements now key start stop db =
    let (found, db') = find_active_entry now key db in (slice_in found start stop, db')

abbrev pub length_of : Value → Result ℕ
length_of (string _) = err wrong_type
length_of (stream _) = err wrong_type
length_of (list items) = ok (length items)

abbrev pub length_in : Option Entry → Result ℕ
length_in none = ok 0
length_in (some entry) = length_of entry.value

unfoldable pub get_list_length : ℕ → Bytes → Database → Result ℕ × Database
unfolding find_active_entry
get_list_length now key db =
    let (found, db') = find_active_entry now key db in (length_in found, db')

-- What is left of a list after a pop: the key goes with its last element.
abbrev pub store_rest : Bytes → Entry → List Bytes → Database → Database
store_rest key entry [] db =
    mark_key_modified key (erase_entry key (put_entry key (record entry { value = list [] }) db))
store_rest key entry (item ∷ items) db = store_list key entry (item ∷ items) db

abbrev pub pop_from : Bytes → Entry → Value → Database → Result Bytes × Database
pop_from key entry (string _) db = (err wrong_type, db)
pop_from key entry (stream _) db = (err wrong_type, db)
pop_from key entry (list []) db = (err key_not_found, db)
pop_from key entry (list (item ∷ items)) db = (ok item, store_rest key entry items db)

abbrev pub pop_in : Bytes → Option Entry → Database → Result Bytes × Database
pop_in key none db = (err key_not_found, db)
pop_in key (some entry) db = pop_from key entry entry.value db

unfoldable pub pop_list_element : ℕ → Bytes → Database → Result Bytes × Database
unfolding find_active_entry store_list mark_key_modified put_entry erase_entry
pop_list_element now key db =
    let (found, db') = find_active_entry now key db in pop_in key found db'

-- The loop of `pop_list_elements`: `count` times the front moves to the result.
unfoldable pub pop_front : ℕ → List Bytes → List Bytes → List Bytes × List Bytes
pop_front zero items result = (result, items)
pop_front (suc count) [] result = (result, [])
pop_front (suc count) (item ∷ items) result = pop_front count items (result ++ item ∷ [])

abbrev pub pop_several_from : Bytes → ℤ → Entry → Value → Database → Result (List Bytes) × Database
pop_several_from key wanted entry (string _) db = (err wrong_type, db)
pop_several_from key wanted entry (stream _) db = (err wrong_type, db)
pop_several_from key wanted entry (list []) db = (err key_not_found, db)
pop_several_from key wanted entry (list (item ∷ items)) db =
    let (result, rest) =
      pop_front (min (pos_part wanted) (length (item ∷ items))) (item ∷ items) [] in
    if leb_ℤ wanted (pos 0) then (ok [], db) else (ok result, store_rest key entry rest db)

abbrev pub pop_several_in : Bytes → ℤ → Option Entry → Database → Result (List Bytes) × Database
pop_several_in key wanted none db = (err key_not_found, db)
pop_several_in key wanted (some entry) db = pop_several_from key wanted entry entry.value db

unfoldable pub pop_list_elements : ℕ → Bytes → ℤ → Database → Result (List Bytes) × Database
unfolding find_active_entry store_list mark_key_modified put_entry erase_entry pop_front
pop_list_elements now key wanted db =
    let (found, db') = find_active_entry now key db in pop_several_in key wanted found db'
