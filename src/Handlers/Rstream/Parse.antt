-- ===== src/Handlers/Rstream/Parse.antt =====
-- The parsers of src/rstream.cpp: stream identifiers, ranges, field lists, and the words of XREAD.
use codecrafters_redis_cpp.Prelude.{
  ℕ, zero, suc, ◌+◌, ◌-◌, ◌/◌, ◌%◌, Bool, Option, none, some, List, [], ◌∷◌, ◌++◌, map, ◌==◌, ◌||◌,
  ◌&&◌, not, leb, ltb, if◌then◌else◌, Bytes, codes, str_eq, length, drop, get_or,
}
use codecrafters_redis_cpp.Prelude.Int.{ℤ, pos_part}
use codecrafters_redis_cpp.Numeric.{max_uint64, from_chars, whole}
use codecrafters_redis_cpp.Resp.{Command}
use codecrafters_redis_cpp.Streams.{
  StreamId, zero_id, IdRequest, automatic, automatic_sequence, explicit, immediate,
  block_indefinitely, block_with_timeout, ReadOptions, after, latest, ReadRequest, ReadCommand,
}
use codecrafters_redis_cpp.Handlers.{word, Parsed, parsed, refused, ◌>>=◌}
use codecrafters_redis_cpp.Handlers.Time.{parse_stream_blocking_timeout}

-- `std::toupper` in the "C" locale.
unfoldable pub to_upper : ℕ → ℕ
to_upper c = if leb b'a' c && leb c b'z' then c - 32 else c

unfoldable pub equals_ignore_case : Bytes → Bytes → Bool
unfolding to_upper
equals_ignore_case left right =
    (length left == length right) && str_eq (map to_upper left) (map to_upper right)

unfoldable pub parse_text_as_number : Bytes → Option ℕ
parse_text_as_number text = whole (from_chars max_uint64 text)

abbrev pub pairs : List Bytes → List (Bytes × Bytes)
pairs [] = []
pairs (field ∷ []) = []
pairs (field ∷ value ∷ values) = (field, value) ∷ pairs values

unfoldable pub parse_value_list : List Bytes → Option (List (Bytes × Bytes))
parse_value_list values =
    if (length values == 0) || not (length values % 2 == 0) then none else some (pairs values)

abbrev pub prepend : ℕ → Option (Bytes × Bytes) → Option (Bytes × Bytes)
prepend c none = none
prepend c (some (before, behind)) = some (c ∷ before, behind)

-- `find('-')`, with what stands before the dash and what stands behind it.
unfoldable pub split_dash : Bytes → Option (Bytes × Bytes)
split_dash [] = none
split_dash (c ∷ text) =
    let later = prepend c (split_dash text) in if c == b'-' then some ([], text) else later

abbrev pub both_parts : Option ℕ → Option ℕ → Option StreamId
both_parts (some milliseconds) (some sequence) =
    some (record { milliseconds = milliseconds; sequence = sequence })
both_parts _ _ = none

-- An identifier with no dash has the sequence number `missing`.
abbrev pub id_parts : ℕ → Bytes → Option (Bytes × Bytes) → Option StreamId
id_parts missing text none = both_parts (parse_text_as_number text) (some missing)
id_parts missing text (some (before, behind)) =
    both_parts (parse_text_as_number before) (parse_text_as_number behind)

unfoldable pub parse_read_id : Bytes → Option StreamId
unfolding split_dash parse_text_as_number
parse_read_id text = id_parts 0 text (split_dash text)

unfoldable pub parse_range_start : Bytes → Option StreamId
unfolding split_dash parse_text_as_number
parse_range_start start =
    if str_eq start (codes "-") then some zero_id else id_parts 0 start (split_dash start)

unfoldable pub parse_range_stop : Bytes → Option StreamId
unfolding split_dash parse_text_as_number
parse_range_stop stop =
    if str_eq stop (codes "+")
    then some (record { milliseconds = max_uint64; sequence = max_uint64 })
    else id_parts max_uint64 stop (split_dash stop)

abbrev pub explicit_request : ℕ → Option ℕ → Option IdRequest
explicit_request milliseconds none = none
explicit_request milliseconds (some sequence) =
    some (record { mode = explicit; milliseconds = milliseconds; sequence = sequence })

abbrev pub request_of : Bytes → Option ℕ → Option IdRequest
request_of behind none = none
request_of behind (some milliseconds) =
    if str_eq behind (codes "*")
    then some (record { mode = automatic_sequence; milliseconds = milliseconds; sequence = 0 })
    else explicit_request milliseconds (parse_text_as_number behind)

abbrev pub request_parts : Option (Bytes × Bytes) → Option IdRequest
request_parts none = none
request_parts (some (before, behind)) = request_of behind (parse_text_as_number before)

unfoldable pub parse_id : Bytes → Option IdRequest
unfolding split_dash parse_text_as_number
parse_id id =
    if str_eq id (codes "*")
    then some (record { mode = automatic; milliseconds = 0; sequence = 0 })
    else request_parts (split_dash id)

abbrev pub xread_usage : Bytes
xread_usage =
    codes "ERR Invalid usage. Expected usage <XREAD> <BLOCK?> <timeout?> <STREAMS> <name> <id/$>"

abbrev pub blocking : Option ℤ → ℕ → Parsed (ReadOptions × ℕ)
blocking none position = refused (codes "ERR Invalid timeout value")
blocking (some timeout) position =
    let options =
      if pos_part timeout == 0
      then record { mode = block_indefinitely; timeout = 0 }
      else record { mode = block_with_timeout; timeout = pos_part timeout } in
    parsed (options, position + 2)

-- The options, with the position behind them.
unfoldable pub parse_options : Command → ℕ → Parsed (ReadOptions × ℕ)
unfolding equals_ignore_case
parse_options command position =
    if equals_ignore_case (word command position) (codes "BLOCK")
    then if leb (length command) (position + 1)
      then refused xread_usage
      else blocking (parse_stream_blocking_timeout (word command (position + 1))) position
    else parsed (record { mode = immediate; timeout = 0 }, position)

abbrev pub after_request : Bytes → Option StreamId → Parsed ReadRequest
after_request key none = refused (codes "ERR Invalid id format")
after_request key (some id) = parsed (record { key = key; start_mode = after; after_id = id })

abbrev pub parse_request : Bytes → Bytes → Parsed ReadRequest
parse_request key id_text =
    if str_eq id_text (codes "$")
    then parsed (record { key = key; start_mode = latest; after_id = zero_id })
    else after_request key (parse_read_id id_text)

-- The loop over the keys, with the rounds that are left: the identifiers follow all the keys.
unfoldable pub parse_requests :
    List Bytes → ℕ → ℕ → ℕ → List ReadRequest → Parsed (List ReadRequest)
unfolding parse_read_id
parse_requests keys_and_ids stream_count zero index requests = parsed requests
parse_requests keys_and_ids stream_count (suc left) index requests = do
  request ←
      parse_request (get_or keys_and_ids index []) (get_or keys_and_ids (index + stream_count) [])
  parse_requests keys_and_ids stream_count left (index + 1) (requests ++ request ∷ [])

abbrev pub read_command : ReadOptions → List Bytes → Parsed ReadCommand
read_command options keys_and_ids =
    if (length keys_and_ids == 0) || not (length keys_and_ids % 2 == 0)
    then refused (codes "ERR every key must have a corresponding ID")
    else parse_requests keys_and_ids (length keys_and_ids / 2) (length keys_and_ids / 2) 0 []
      >>= λ requests. parsed (record { requests = requests; options = options })

abbrev pub streams_keyword : Command → ReadOptions → ℕ → Parsed ReadCommand
streams_keyword command options position =
    if leb (length command) position
      || not (equals_ignore_case (word command position) (codes "STREAMS"))
    then refused (codes "ERR STREAMS keyword is required")
    else read_command options (drop (position + 1) command)

unfoldable pub parse_xread : Command → Parsed ReadCommand
unfolding parse_options equals_ignore_case parse_requests
parse_xread command =
    if ltb (length command) 4
    then refused xread_usage
    else parse_options command 1 >>= λ (options, position). streams_keyword command options position
