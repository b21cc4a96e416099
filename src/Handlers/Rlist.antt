-- ===== src/Handlers/Rlist.antt =====
-- src/rlist.cpp: RPUSH, LPUSH, LRANGE, LLEN, LPOP and BLPOP.
use codecrafters_redis_cpp.Prelude.{
  ℕ, Option, none, some, List, [], ◌∷◌, ◌==◌, not, ltb, if◌then◌else◌, Bytes, codes, length, drop,
}
use codecrafters_redis_cpp.Prelude.Int.{ℤ, pos, leb_ℤ, to_int64}
use codecrafters_redis_cpp.Numeric.{max_int64, max_int32, from_chars_signed, whole}
use codecrafters_redis_cpp.Resp.{Command}
use codecrafters_redis_cpp.Resp.Reply.{
  simple_error, bulk_string, integer, null_bulk_string, null_array, empty_array, array,
}
use codecrafters_redis_cpp.Database.{Database, wrong_type, Result, ok, err, fault}
use codecrafters_redis_cpp.Database.Lists.{
  append, prepend, add_list_elements, list_elements, get_list_length, pop_list_element,
  pop_list_elements,
}
use codecrafters_redis_cpp.Handlers.{
  word, Clock, Outcome, replied, undefined, wrong_type_error, Parsed, parsed, refused,
}
use codecrafters_redis_cpp.Handlers.Time.{Doubles, parse_blocking_timeout}

unfoldable pub get_range_index : Bytes → Option ℤ
get_range_index text = whole (from_chars_signed max_int64 text)

abbrev pub invalid_count : Bytes
invalid_count = codes "ERR Invalid number of items format"

abbrev positive_count : Option ℤ → Parsed ℤ
positive_count none = refused invalid_count
positive_count (some n) = if leb_ℤ n (pos 0) then refused invalid_count else parsed n

unfoldable pub parse_number_of_elements : Bytes → Parsed ℤ
parse_number_of_elements text = positive_count (whole (from_chars_signed max_int32 text))

abbrev pub size_reply : Result ℕ → Database → Outcome
size_reply (ok n) db = replied (integer (to_int64 n)) db
size_reply (err _) db = replied wrong_type_error db
size_reply fault db = undefined

unfoldable pub rpush : Clock → Command → Database → Outcome
rpush clock command db =
    let (size, db') = add_list_elements clock.steady (word command 1) (drop 2 command) append db in
    if ltb (length command) 3
    then replied
        (simple_error (codes "ERR invalid syntax. Expected usage RPUSH <list_name> <values...>")) db
    else size_reply size db'

unfoldable pub lpush : Clock → Command → Database → Outcome
lpush clock command db =
    let (size, db') = add_list_elements clock.steady (word command 1) (drop 2 command) prepend db in
    if ltb (length command) 3
    then replied
        (simple_error (codes "ERR invalid syntax. Expected usage LPUSH <list_name> <values...>")) db
    else size_reply size db'

abbrev pub range_reply : Result (List Bytes) → Database → Outcome
range_reply (ok []) db = replied empty_array db
range_reply (ok (value ∷ values)) db = replied (array (value ∷ values)) db
range_reply (err _) db = replied wrong_type_error db
range_reply fault db = undefined

abbrev pub range_between : Clock → Command → Option ℤ → Option ℤ → Database → Outcome
range_between clock command (some start) (some stop) db =
    let (values, db') = list_elements clock.steady (word command 1) start stop db in
    range_reply values db'
range_between clock command _ _ db = replied (simple_error (codes "ERR invalid index value")) db

unfoldable pub lrange : Clock → Command → Database → Outcome
lrange clock command db =
    if not (length command == 4)
    then replied
        (simple_error (
          codes "ERR invalid syntax. Expected usage LRANGE <list_name> <start_index> <stop_index>"))
        db
    else range_between clock command (get_range_index (word command 2))
        (get_range_index (word command 3)) db

unfoldable pub llen : Clock → Command → Database → Outcome
llen clock command db =
    let (size, db') = get_list_length clock.steady (word command 1) db in
    if not (length command == 2)
    then replied (simple_error (codes "ERR invalid syntax. Expected usage LLEN <list_name>")) db
    else size_reply size db'

abbrev pub pop_reply : Result Bytes → Database → Outcome
pop_reply (ok value) db = replied (bulk_string value) db
pop_reply (err wrong_type) db = replied wrong_type_error db
pop_reply (err _) db = replied null_bulk_string db
pop_reply fault db = undefined

abbrev pub pop_many_reply : Result (List Bytes) → Database → Outcome
pop_many_reply (ok values) db = replied (array values) db
pop_many_reply (err wrong_type) db = replied wrong_type_error db
pop_many_reply (err _) db = replied null_bulk_string db
pop_many_reply fault db = undefined

abbrev pub pop_counted : Clock → Command → Parsed ℤ → Database → Outcome
pop_counted clock command (refused message) db = replied (simple_error message) db
pop_counted clock command (parsed wanted) db =
    let (values, db') = pop_list_elements clock.steady (word command 1) wanted db in
    pop_many_reply values db'

unfoldable pub lpop : Clock → Command → Database → Outcome
lpop clock command db =
    let (value, db') = pop_list_element clock.steady (word command 1) db in
    if length command == 2
    then pop_reply value db'
    else if length command == 3
    then pop_counted clock command (parse_number_of_elements (word command 2)) db
    else replied
        (simple_error
          (codes "ERR invalid syntax. Expected usage LPOP <list_name> <number_of_items?>"))
        db

-- A timeout of none waits for ever.
pub record BlockingPopRequest : Type 0 where
  pub key : Bytes
  pub timeout : Option ℤ

module _ (F : Doubles) where
  open F use {Double, is_positive, to_milliseconds}

  abbrev pub blocking_pop : Bytes → Option Double → Parsed BlockingPopRequest
  blocking_pop key none = refused (codes "ERR Invalid timeout value")
  blocking_pop key (some seconds) = parsed (record {
    key = key;
    timeout = if is_positive seconds then some (to_milliseconds seconds) else none;
  })

  unfoldable pub parse_blpop : Command → Parsed BlockingPopRequest
  parse_blpop command =
      if not (length command == 3)
      then refused (codes "ERR invalid syntax. Expected usage BLPOP <list_name> <timeout>")
      else blocking_pop (word command 1) (parse_blocking_timeout F (word command 2))

  abbrev pub blpop_reply : Bytes → Result Bytes → Database → Outcome
  blpop_reply key (ok value) db = replied (array (key ∷ value ∷ [])) db
  blpop_reply key (err wrong_type) db = replied wrong_type_error db
  blpop_reply key (err _) db = replied null_array db
  blpop_reply key fault db = undefined

  abbrev pub blpop_request : Clock → Parsed BlockingPopRequest → Database → Outcome
  blpop_request clock (refused message) db = replied (simple_error message) db
  blpop_request clock (parsed request) db =
      let (value, db') = pop_list_element clock.steady request.key db in
      blpop_reply request.key value db'

  -- BLPOP where it cannot wait, in a transaction.
  unfoldable pub blpop : Clock → Command → Database → Outcome
  blpop clock command db = blpop_request clock (parse_blpop command) db
