-- ===== src/Handlers/Rstream.antt =====
-- src/rstream.cpp: XADD, XRANGE and XREAD.
pub mod Parse
pub mod RoundTrip
use codecrafters_redis_cpp.Prelude.{
  ℕ, Bool, true, false, Option, none, some, List, [], ◌∷◌, ◌==◌, ◌&&◌, not, ltb, if◌then◌else◌,
  Bytes, codes, length, drop,
}
use codecrafters_redis_cpp.Resp.{Command}
use codecrafters_redis_cpp.Resp.Reply.{
  Response, Responses, nil, cons, simple_error, bulk_string, null_array, response_array,
}
use codecrafters_redis_cpp.Streams.{
  StreamId, id_to_string, StreamEntry, IdMode, automatic, automatic_sequence, explicit, IdRequest,
  ReadCommand, ReadResult,
}
use codecrafters_redis_cpp.Database.{
  Database, wrong_type, key_not_found, invalid_stream_id_value, Result, ok, err, fault,
}
use codecrafters_redis_cpp.Database.StreamOps.{add_stream, stream_range}
use codecrafters_redis_cpp.Database.Reads.{ReadOutcome, read_streams}
use codecrafters_redis_cpp.Handlers.{
  word, Clock, Outcome, replied, undefined, wrong_type_error, Parsed, parsed, refused,
}
use Parse.{parse_id, parse_value_list, parse_range_start, parse_range_stop, parse_xread}

abbrev pub is_explicit : IdMode → Bool
is_explicit explicit = true
is_explicit _ = false

-- `*result` of an error that the handler does not name is undefined.
abbrev pub xadd_reply : Result StreamId → Database → Outcome
xadd_reply (ok id) db = replied (bulk_string (id_to_string id)) db
xadd_reply (err wrong_type) db = replied wrong_type_error db
xadd_reply (err invalid_stream_id_value) db =
    replied
      (simple_error
        (codes "ERR The ID specified in XADD is equal or smaller than the target stream top item"))
      db
xadd_reply (err _) db = undefined
xadd_reply fault db = undefined

abbrev pub xadd_values :
    Clock → Command → IdRequest → Option (List (Bytes × Bytes)) → Database → Outcome
xadd_values clock command request none db =
    replied (simple_error (codes "ERR Invalid value list format")) db
xadd_values clock command request (some values) db =
    let (result, db') = add_stream clock.steady clock.unix_ms (word command 1) request values db in
    xadd_reply result db'

abbrev pub xadd_request : Clock → Command → Option IdRequest → Database → Outcome
xadd_request clock command none db = replied (simple_error (codes "ERR Invalid id format")) db
xadd_request clock command (some request) db =
    if is_explicit request.mode && ((request.milliseconds == 0) && (request.sequence == 0))
    then replied (simple_error (codes "ERR The ID specified in XADD must be greater than 0-0")) db
    else xadd_values clock command request (parse_value_list (drop 3 command)) db

unfoldable pub xadd : Clock → Command → Database → Outcome
xadd clock command db =
    if ltb (length command) 5
    then replied
        (simple_error
          (codes "ERR Invalid usage. Expected usage <XADD> <name> <id> <key> <value> pairs..."))
        db
    else xadd_request clock command (parse_id (word command 2)) db

abbrev pub field_values : List (Bytes × Bytes) → Responses
field_values [] = nil
field_values ((field, value) ∷ values) =
    cons (bulk_string field) (cons (bulk_string value) (field_values values))

-- An identifier with its fields and values.
abbrev pub entry_response : StreamEntry → Response
entry_response entry = response_array (
    cons (bulk_string (id_to_string entry.id))
      (cons (response_array (field_values entry.values)) nil))

abbrev pub entry_responses : List StreamEntry → Responses
entry_responses [] = nil
entry_responses (entry ∷ entries) = cons (entry_response entry) (entry_responses entries)

abbrev pub xrange_reply : Result (List StreamEntry) → Database → Outcome
xrange_reply (ok entries) db = replied (response_array (entry_responses entries)) db
xrange_reply (err key_not_found) db =
    replied (simple_error (codes "ERR stream with given key does not exits")) db
xrange_reply (err wrong_type) db = replied (simple_error (codes "ERR wrong type")) db
xrange_reply (err _) db = undefined
xrange_reply fault db = undefined

abbrev pub xrange_between : Clock → Command → Option StreamId → Option StreamId → Database → Outcome
xrange_between clock command (some start) (some stop) db =
    let (result, db') = stream_range clock.steady (word command 1) start stop db in
    xrange_reply result db'
xrange_between clock command _ _ db =
    replied (simple_error (codes "ERR Invalid range indexes format")) db

unfoldable pub xrange : Clock → Command → Database → Outcome
xrange clock command db =
    if not (length command == 4)
    then replied
        (simple_error (codes "ERR Invalid usage. Expected usage <XRANGE> <name> <start> <stop>")) db
    else xrange_between clock command (parse_range_start (word command 2))
        (parse_range_stop (word command 3)) db

abbrev pub stream_responses : List ReadResult → Responses
stream_responses [] = nil
stream_responses (result ∷ results) =
    cons
      (response_array (
        cons (bulk_string result.key) (cons (response_array (entry_responses result.entries)) nil)))
      (stream_responses results)

abbrev pub make_xread_response : List ReadResult → Response
make_xread_response [] = null_array
make_xread_response (result ∷ results) = response_array (stream_responses (result ∷ results))

abbrev pub xread_reply : ReadOutcome → Outcome
xread_reply (ok results, requests, db) = replied (make_xread_response results) db
xread_reply (err wrong_type, requests, db) = replied wrong_type_error db
xread_reply (err _, requests, db) = replied (simple_error (codes "ERR Unable to read streams")) db
xread_reply (fault, requests, db) = undefined

abbrev pub xread_command : Clock → Parsed ReadCommand → Database → Outcome
xread_command clock (refused message) db = replied (simple_error message) db
xread_command clock (parsed command) db =
    xread_reply (read_streams clock.first_reads clock.second_reads command.requests db)

unfoldable pub xread : Clock → Command → Database → Outcome
xread clock command db = xread_command clock (parse_xread command) db
