-- ===== src/Handlers/Strings.antt =====
-- src/commands.cpp: PING, ECHO, SET, GET, KEYS, TYPE and INCR.
use codecrafters_redis_cpp.Prelude.{
  Option, none, some, ◌==◌, not, if◌then◌else◌, Bytes, codes, str_eq, length,
}
use codecrafters_redis_cpp.Prelude.Int.{ℤ, pos, ◌*ℤ◌, wrap64}
use codecrafters_redis_cpp.Resp.{Command}
use codecrafters_redis_cpp.Resp.Reply.{
  simple_string, simple_error, bulk_string, integer, null_bulk_string, array,
}
use codecrafters_redis_cpp.Database.{
  Database, wrong_type, value_not_integer, key_not_found, invalid_stream_id_mode,
  invalid_stream_id_value, Error, Result, ok, err, fault, ValueType, none_type, string_type,
  list_type, stream_type,
}
use codecrafters_redis_cpp.Database
use codecrafters_redis_cpp.Database.Counters.{increment_key}
use codecrafters_redis_cpp.Handlers.{word, Clock, Outcome, replied, undefined, wrong_type_error}
use codecrafters_redis_cpp.Handlers.Time.{parse_expiry}

unfoldable pub ping : Command → Database → Outcome
ping command db = replied (simple_string (codes "PONG")) db

unfoldable pub echo : Command → Database → Outcome
echo command db =
    if length command == 2
    then replied (bulk_string (word command 1)) db
    else replied (simple_error (codes "ERR expected format ECHO <text>")) db

abbrev pub set_expiring : Clock → Command → Option ℤ → Database → Outcome
set_expiring clock command none db =
    replied (simple_error (codes "ERR invalid expire time in set command")) db
set_expiring clock command (some n) db =
    if str_eq (word command 3) (codes "PX")
    then replied (simple_string (codes "OK"))
        (Database.set clock.steady (word command 1) (word command 2) (some n) db)
    else if str_eq (word command 3) (codes "EX")
    then replied (simple_string (codes "OK")) (
        Database.set clock.steady (word command 1) (word command 2) (some (wrap64 (n *ℤ pos 1000)))
          db)
    else replied (simple_error (codes "ERR syntax error")) db

unfoldable pub set : Clock → Command → Database → Outcome
set clock command db =
    if length command == 3
    then replied (simple_string (codes "OK"))
        (Database.set clock.steady (word command 1) (word command 2) none db)
    else if length command == 5
    then set_expiring clock command (parse_expiry (word command 4)) db
    else replied
        (simple_error (codes "ERR invalid syntax. Expected usage SET <key> <value> <EX/PX> <time>"))
        db

-- The reply to a string that was looked up, or to the lack of one.
abbrev pub string_reply : Result Bytes → Database → Outcome
string_reply (ok value) db = replied (bulk_string value) db
string_reply (err wrong_type) db = replied wrong_type_error db
string_reply (err _) db = replied null_bulk_string db
string_reply fault db = undefined

unfoldable pub get : Clock → Command → Database → Outcome
get clock command db =
    let (result, db') = Database.get clock.steady (word command 1) db in
    if length command == 2
    then string_reply result db'
    else replied (simple_error (codes "ERR invalid syntax. Expected usage GET <key>")) db

unfoldable pub keys : Clock → Command → Database → Outcome
keys clock command db =
    let (names, db') = Database.keys clock.steady db in
    if not (length command == 2)
    then replied (simple_error (codes "ERR wrong number of arguments for 'keys' command")) db
    else if not (str_eq (word command 1) (codes "*"))
    then replied (simple_error (codes "ERR only the '*' key pattern is supported")) db
    else replied (array names) db'

abbrev pub type_name : ValueType → Bytes
type_name none_type = codes "none"
type_name string_type = codes "string"
type_name list_type = codes "list"
type_name stream_type = codes "stream"

unfoldable pub type : Clock → Command → Database → Outcome
type clock command db =
    let (kind, db') = Database.get_type clock.steady (word command 1) db in
    if length command == 2
    then replied (simple_string (type_name kind)) db'
    else replied (simple_error (codes "ERR invalid syntax. Expected usage TYPE <key>")) db

-- `*result` of an error that the handler does not name is undefined.
abbrev pub incr_reply : Result ℤ → Database → Outcome
incr_reply (ok n) db = replied (integer n) db
incr_reply (err wrong_type) db = replied wrong_type_error db
incr_reply (err value_not_integer) db =
    replied (simple_error (codes "ERR value is not an integer or out of range")) db
incr_reply (err _) db = undefined
incr_reply fault db = undefined

unfoldable pub incr : Clock → Command → Database → Outcome
incr clock command db =
    let (result, db') = increment_key clock.steady (word command 1) db in
    if length command == 2
    then incr_reply result db'
    else replied (simple_error (codes "ERR invalid syntax. Expected usage INCR <key>")) db
