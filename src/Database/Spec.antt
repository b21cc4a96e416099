-- ===== src/Database/Spec.antt =====
-- What the operations of src/database.cpp promise about one key: a function of the entry that a
-- client can see there, with no lazy expiration, revisions or loops, and with no function of the code.
-- A range of a stream, a read of many streams, the revision of a key and the list of all keys are not
-- among the operations.
use codecrafters_redis_cpp.Prelude.{
  ℕ, zero, suc, ◌+◌, ◌%◌, ◌^◌, Bool, true, false, ◌&&◌, ◌||◌, ltb, ◌==◌, Option, none, some, List,
  [], ◌∷◌, ◌++◌, reverse, if◌then◌else◌, Bytes, length, take, drop,
}
use codecrafters_redis_cpp.Prelude.Int.{ℤ, pos, negsuc, pos_part, leb_ℤ, ◌+ℤ◌, ◌-ℤ◌, ◌*ℤ◌, wrap64}
use codecrafters_redis_cpp.Numeric.{max_int64, from_chars_signed, whole, to_string_ℤ}
use codecrafters_redis_cpp.Streams.{
  StreamId, StreamEntry, IdMode, automatic, automatic_sequence, explicit, IdRequest,
}
use codecrafters_redis_cpp.Database.{
  Value, string, list, stream, Entry, Database, key_not_found, wrong_type, value_not_integer,
  invalid_stream_id_value, Result, ok, err, fault, ValueType, none_type, string_type, list_type,
  stream_type, set, get, get_type,
}
use codecrafters_redis_cpp.Database.Lists.{
  ListAddMode, append, prepend, add_list_elements, list_elements, get_list_length, pop_list_element,
  pop_list_elements,
}
use codecrafters_redis_cpp.Database.Lists.Slice.{positions}
use codecrafters_redis_cpp.Database.StreamOps.{add_stream}
use codecrafters_redis_cpp.Database.Counters.{increment_key}

pub data Operation : Type 0 where
  assign : Bytes → Option ℤ → Operation
  read_string read_type read_length pop_one count_up : Operation
  push : ListAddMode → List Bytes → Operation
  read_range : ℤ → ℤ → Operation
  pop_many : ℤ → Operation
  add_entry : ℕ → IdRequest → List (Bytes × Bytes) → Operation

pub data Reply : Type 0 where
  nothing : Reply
  text : Result Bytes → Reply
  kind : ValueType → Reply
  count : Result ℕ → Reply
  texts : Result (List Bytes) → Reply
  id : Result StreamId → Reply
  number : Result ℤ → Reply

-- The operation of the code, at the time `now`.
abbrev pub run : ℕ → Bytes → Operation → Database → Reply × Database
run now key (assign value expiry) db = (nothing, set now key value expiry db)
run now key read_string db = let (r, db') = get now key db in (text r, db')
run now key read_type db = let (r, db') = get_type now key db in (kind r, db')
run now key read_length db = let (r, db') = get_list_length now key db in (count r, db')
run now key pop_one db = let (r, db') = pop_list_element now key db in (text r, db')
run now key count_up db = let (r, db') = increment_key now key db in (number r, db')
run now key (push mode values) db =
    let (r, db') = add_list_elements now key values mode db in (count r, db')
run now key (read_range start stop) db =
    let (r, db') = list_elements now key start stop db in (texts r, db')
run now key (pop_many wanted) db =
    let (r, db') = pop_list_elements now key wanted db in (texts r, db')
run now key (add_entry unix_ms request values) db =
    let (r, db') = add_stream now unix_ms key request values db in (id r, db')

abbrev pub with_value : Entry → Value → Option Entry
with_value entry value = some (record entry { value = value })

abbrev pub fresh : Value → Option Entry
fresh value = some (record { value = value; expires_at = none })

abbrev pushed : ListAddMode → List Bytes → List Bytes → List Bytes
pushed append values items = items ++ values
pushed prepend values items = reverse values ++ items

-- A list key that becomes empty is gone.
abbrev pub remaining : Entry → List Bytes → Option Entry
remaining entry [] = none
remaining entry (item ∷ items) = with_value entry (list (item ∷ items))

-- One more, unless that is no `int64_t`.
abbrev pub incremented : Entry → Option ℤ → Reply × Option Entry
incremented entry none = (number (err value_not_integer), some entry)
incremented entry (some n) =
    if leb_ℤ (pos 9_223_372_036_854_775_807) n
    then (number fault, some entry)
    else (number (ok (n +ℤ pos 1)), with_value entry (string (to_string_ℤ (n +ℤ pos 1))))

-- When an expiry in milliseconds is over, in nanoseconds of the steady clock, which wraps around.
abbrev pub expires : ℕ → Option ℤ → Option ℤ
expires now none = none
expires now (some milliseconds) = some (wrap64 (pos now +ℤ wrap64 (milliseconds *ℤ pos 1_000_000)))

-- A position, counted from the end if it is negative.
abbrev pub position : ℕ → ℤ → ℤ
position size (pos n) = pos n
position size (negsuc n) = pos size -ℤ pos (suc n)

abbrev pub newest_from : StreamId → List StreamEntry → StreamId
newest_from last [] = last
newest_from last (entry ∷ entries) = newest_from entry.id entries

-- The identifier of the last entry.
abbrev pub newest : List StreamEntry → Option StreamId
newest [] = none
newest (entry ∷ entries) = some (newest_from entry.id entries)

abbrev pub is_above : StreamId → Option StreamId → Bool
is_above new none = true
is_above new (some last) =
    ltb last.milliseconds new.milliseconds
    || ((last.milliseconds == new.milliseconds) && ltb last.sequence new.sequence)

-- The identifier behind the last one of the same millisecond.
abbrev pub next_of : StreamId → StreamId
next_of last = record { milliseconds = last.milliseconds; sequence = (last.sequence + 1) % 2 ^ 64 }

-- The first of a millisecond; there is no 0-0.
abbrev pub first_of : ℕ → StreamId
first_of zero = record { milliseconds = 0; sequence = 1 }
first_of (suc n) = record { milliseconds = suc n; sequence = 0 }

-- What the request asks for, behind the last identifier.
abbrev pub wanted_id : ℕ → IdMode → IdRequest → Option StreamId → StreamId
wanted_id unix_ms explicit request last = record {
  milliseconds = request.milliseconds;
  sequence = request.sequence;
}
wanted_id unix_ms automatic_sequence request none = first_of request.milliseconds
wanted_id unix_ms automatic_sequence request (some last) =
    if last.milliseconds == request.milliseconds
    then next_of last
    else first_of request.milliseconds
wanted_id unix_ms automatic request none = record { milliseconds = unix_ms; sequence = 0 }
wanted_id unix_ms automatic request (some last) =
    if ltb last.milliseconds unix_ms
    then record { milliseconds = unix_ms; sequence = 0 }
    else next_of last

-- A stream with one entry more, if its identifier is above the last one.
abbrev pub added :
    Entry → List StreamEntry → List (Bytes × Bytes) → StreamId → Bool → Reply × Option Entry
added entry entries values new false = (id (err invalid_stream_id_value), some entry)
added entry entries values new true =
    (id (ok new), with_value entry (stream (entries ++ record { id = new; values = values } ∷ [])))

-- The operation on an entry that is there, by its value.
abbrev pub on_entry : Operation → Entry → Value → Reply × Option Entry
on_entry (assign value expiry) entry _ = (nothing, none)
on_entry read_string entry (string value) = (text (ok value), some entry)
on_entry read_string entry (list _) = (text (err wrong_type), some entry)
on_entry read_string entry (stream _) = (text (err wrong_type), some entry)
on_entry read_type entry (string _) = (kind string_type, some entry)
on_entry read_type entry (list _) = (kind list_type, some entry)
on_entry read_type entry (stream _) = (kind stream_type, some entry)
on_entry read_length entry (list items) = (count (ok (length items)), some entry)
on_entry read_length entry (string _) = (count (err wrong_type), some entry)
on_entry read_length entry (stream _) = (count (err wrong_type), some entry)
on_entry pop_one entry (list []) = (text (err key_not_found), some entry)
on_entry pop_one entry (list (item ∷ items)) = (text (ok item), remaining entry items)
on_entry pop_one entry (string _) = (text (err wrong_type), some entry)
on_entry pop_one entry (stream _) = (text (err wrong_type), some entry)
on_entry count_up entry (string value) =
    incremented entry (whole (from_chars_signed max_int64 value))
on_entry count_up entry (list _) = (number (err wrong_type), some entry)
on_entry count_up entry (stream _) = (number (err wrong_type), some entry)
on_entry (push mode values) entry (list items) = (
  count (ok (length (pushed mode values items))),
  with_value entry (list (pushed mode values items)),
)
on_entry (push mode values) entry (string _) = (count (err wrong_type), some entry)
on_entry (push mode values) entry (stream _) = (count (err wrong_type), some entry)
on_entry (read_range start stop) entry (list items) = (
  texts (ok (positions (position (length items) start) (position (length items) stop) 0 items)),
  some entry,
)
on_entry (read_range start stop) entry (string _) = (texts (err wrong_type), some entry)
on_entry (read_range start stop) entry (stream _) = (texts (err wrong_type), some entry)
on_entry (pop_many wanted) entry (list []) = (texts (err key_not_found), some entry)
on_entry (pop_many wanted) entry (list (item ∷ items)) =
    let n = pos_part wanted in
    if leb_ℤ wanted (pos 0)
    then (texts (ok []), some entry)
    else (texts (ok (take n (item ∷ items))), remaining entry (drop n (item ∷ items)))
on_entry (pop_many wanted) entry (string _) = (texts (err wrong_type), some entry)
on_entry (pop_many wanted) entry (stream _) = (texts (err wrong_type), some entry)
on_entry (add_entry unix_ms request values) entry (stream entries) =
    let new = wanted_id unix_ms request.mode request (newest entries) in
    added entry entries values new (is_above new (newest entries))
on_entry (add_entry unix_ms request values) entry (string _) = (id (err wrong_type), some entry)
on_entry (add_entry unix_ms request values) entry (list _) = (id (err wrong_type), some entry)

-- The operation where no entry is there.
abbrev pub on_missing : Operation → Reply × Option Entry
on_missing (assign value expiry) = (nothing, none)
on_missing read_string = (text (err key_not_found), none)
on_missing read_type = (kind none_type, none)
on_missing read_length = (count (ok 0), none)
on_missing pop_one = (text (err key_not_found), none)
on_missing count_up = (number (ok (pos 1)), fresh (string (to_string_ℤ (pos 1))))
on_missing (push mode values) =
    (count (ok (length (pushed mode values []))), fresh (list (pushed mode values [])))
on_missing (read_range start stop) = (texts (ok []), none)
on_missing (pop_many wanted) = (texts (err key_not_found), none)
on_missing (add_entry unix_ms request values) =
    let new = wanted_id unix_ms request.mode request none in
    (id (ok new), fresh (stream (record { id = new; values = values } ∷ [])))

abbrev pub spec : ℕ → Operation → Option Entry → Reply × Option Entry
spec now (assign value expiry) found =
    (nothing, some (record { value = string value; expires_at = expires now expiry }))
spec now operation none = on_missing operation
spec now operation (some entry) = on_entry operation entry entry.value
