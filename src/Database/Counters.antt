-- ===== src/Database/Counters.antt =====
-- `increment_key` of src/database.cpp.
use codecrafters_redis_cpp.Prelude.{ℕ, Option, none, some, Bytes, if◌then◌else◌}
use codecrafters_redis_cpp.Prelude.Int.{ℤ, pos, ◌+ℤ◌, leb_ℤ}
use codecrafters_redis_cpp.Numeric.{max_int64, from_chars_signed, whole, to_string_ℤ}
use codecrafters_redis_cpp.Database.{
  Value, string, list, stream, Entry, Database, wrong_type, value_not_integer, Result, ok, err,
  fault, mark_key_modified, put_entry, find_active_entry,
}

unfoldable pub parse_value_to_increment : Bytes → Option ℤ
parse_value_to_increment text = whole (from_chars_signed max_int64 text)

-- `++` on an `int64_t`, which is undefined at the largest one.
unfoldable pub increment : ℤ → Result ℤ
increment n = if leb_ℤ (pos max_int64) n then fault else ok (n +ℤ pos 1)

abbrev pub store_number : Bytes → Entry → Result ℤ → Database → Result ℤ × Database
store_number key entry (err e) db = (err e, db)
store_number key entry fault db = (fault, db)
store_number key entry (ok result) db = (
  ok result,
  mark_key_modified key (put_entry key (record entry { value = string (to_string_ℤ result) }) db),
)

abbrev pub increment_parsed : Bytes → Entry → Option ℤ → Database → Result ℤ × Database
increment_parsed key entry none db = (err value_not_integer, db)
increment_parsed key entry (some n) db = store_number key entry (increment n) db

abbrev pub increment_value : Bytes → Entry → Value → Database → Result ℤ × Database
increment_value key entry (list _) db = (err wrong_type, db)
increment_value key entry (stream _) db = (err wrong_type, db)
increment_value key entry (string text) db =
    increment_parsed key entry (parse_value_to_increment text) db

abbrev pub increment_in : Bytes → Option Entry → Database → Result ℤ × Database
increment_in key none db = (
  ok (pos 1),
  mark_key_modified key
      (put_entry key (record { value = string (to_string_ℤ (pos 1)); expires_at = none }) db),
)
increment_in key (some entry) db = increment_value key entry entry.value db

unfoldable pub increment_key : ℕ → Bytes → Database → Result ℤ × Database
unfolding find_active_entry mark_key_modified put_entry
increment_key now key db =
    let (found, db') = find_active_entry now key db in increment_in key found db'
