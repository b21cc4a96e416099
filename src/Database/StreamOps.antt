-- ===== src/Database/StreamOps.antt =====
-- The stream operations of src/database.cpp.
pub mod Search
pub mod Range
pub mod Explicit
pub mod Partition
use codecrafters_redis_cpp.Prelude.{
  ℕ, zero, suc, ◌+◌, ◌-◌, ◌%◌, ◌^◌, Bool, true, false, ◌&&◌, not, Option, none, some, List, [], ◌∷◌,
  ◌++◌, leb, ltb, ◌==◌, if◌then◌else◌, Bytes, length, take, drop,
}
use codecrafters_redis_cpp.Streams.{
  StreamId, zero_id, id_lt, id_le, StreamEntry, IdMode, automatic, automatic_sequence, explicit,
  IdRequest, ReadStartMode, after, latest, ReadRequest, ReadResult,
}
use codecrafters_redis_cpp.Database.{
  Value, string, list, stream, Entry, Database, key_not_found, wrong_type, invalid_stream_id_value,
  Result, ok, err, fault, mark_key_modified, put_entry, find_active_entry,
}
use codecrafters_redis_cpp.Database.Lists.{entry_or_new}
use Search.{lower_bound, upper_bound}

-- `stream->back().id`, if there is one.
abbrev pub last_id : List StreamEntry → Option StreamId
last_id [] = none
last_id (entry ∷ []) = some entry.id
last_id (entry ∷ next ∷ entries) = last_id (next ∷ entries)

-- The next sequence number, of `uint64_t`.
abbrev pub following : ℕ → ℕ
following sequence = (sequence + 1) % 2 ^ 64

-- The identifier of the new entry; `unix_ms` is the system clock's.
abbrev pub new_id : ℕ → IdMode → IdRequest → Option StreamId → StreamId
new_id unix_ms explicit id previous = record {
  milliseconds = id.milliseconds;
  sequence = id.sequence;
}
new_id unix_ms automatic_sequence id none = record {
  milliseconds = id.milliseconds;
  sequence = if id.milliseconds == 0 then 1 else 0;
}
new_id unix_ms automatic_sequence id (some previous) = record {
  milliseconds = id.milliseconds;
  sequence =
      if id.milliseconds == previous.milliseconds
      then following previous.sequence
      else if id.milliseconds == 0
      then 1
      else 0;
}
new_id unix_ms automatic id none = record { milliseconds = unix_ms; sequence = 0 }
new_id unix_ms automatic id (some previous) =
    if leb unix_ms previous.milliseconds
    then record { milliseconds = previous.milliseconds; sequence = following previous.sequence }
    else record { milliseconds = unix_ms; sequence = 0 }

abbrev pub is_stale : StreamId → Option StreamId → Bool
is_stale id none = false
is_stale id (some previous) = id_le id previous

-- `db` holds `entry` already: a new one is emplaced before its identifier is known.
abbrev pub add_entry :
    Bytes
    → List (Bytes × Bytes)
    → StreamId
    → Entry
    → List StreamEntry
    → Database
    → Result StreamId × Database
add_entry key values id entry entries db =
    if is_stale id (last_id entries) then (err invalid_stream_id_value, db) else (
      ok id,
      mark_key_modified key (
          put_entry key
            (record entry { value = stream (entries ++ record { id = id; values = values } ∷ []) })
            db),
    )

abbrev pub add_to_value :
    ℕ
    → Bytes
    → IdRequest
    → List (Bytes × Bytes)
    → Entry
    → Value
    → Database
    → Result StreamId × Database
add_to_value unix_ms key id values entry (string _) db = (err wrong_type, db)
add_to_value unix_ms key id values entry (list _) db = (err wrong_type, db)
add_to_value unix_ms key id values entry (stream entries) db =
    add_entry key values (new_id unix_ms id.mode id (last_id entries)) entry entries db

abbrev pub emplace_stream : Bytes → Option Entry → Database → Database
emplace_stream key none db = put_entry key (record { value = stream []; expires_at = none }) db
emplace_stream key (some entry) db = db

abbrev pub add_stream_in :
    ℕ
    → Bytes
    → IdRequest
    → List (Bytes × Bytes)
    → Option Entry
    → Database
    → Result StreamId × Database
add_stream_in unix_ms key id values found db =
    let entry = entry_or_new (stream []) found in
    add_to_value unix_ms key id values entry entry.value (emplace_stream key found db)

unfoldable pub add_stream :
    ℕ → ℕ → Bytes → IdRequest → List (Bytes × Bytes) → Database → Result StreamId × Database
unfolding find_active_entry mark_key_modified put_entry
add_stream now unix_ms key id values db =
    let (found, db') = find_active_entry now key db in add_stream_in unix_ms key id values found db'

-- `std::vector(first, last)` of two positions: undefined if the first lies behind the last.
abbrev pub between : ℕ → ℕ → List StreamEntry → Result (List StreamEntry)
between first last entries =
    if ltb last first then fault else ok (take (last - first) (drop first entries))

abbrev pub range_of : StreamId → StreamId → Value → Result (List StreamEntry)
range_of start end (string _) = err wrong_type
range_of start end (list _) = err wrong_type
range_of start end (stream entries) =
    between (lower_bound entries start) (upper_bound entries end) entries

abbrev pub range_in : StreamId → StreamId → Option Entry → Result (List StreamEntry)
range_in start end none = err key_not_found
range_in start end (some entry) = range_of start end entry.value

unfoldable pub stream_range :
    ℕ → Bytes → StreamId → StreamId → Database → Result (List StreamEntry) × Database
unfolding find_active_entry
stream_range now key start end db =
    let (found, db') = find_active_entry now key db in (range_in start end found, db')

abbrev pub or_zero : Option StreamId → StreamId
or_zero none = zero_id
or_zero (some id) = id

abbrev pub resolve_as : ReadStartMode → ReadRequest → StreamId → ReadRequest
resolve_as after request id = request
resolve_as latest request id = record request { start_mode = after; after_id = id }

abbrev pub resolve_value : ReadRequest → Value → Result ReadRequest
resolve_value request (string _) = err wrong_type
resolve_value request (list _) = err wrong_type
resolve_value request (stream entries) =
    ok (resolve_as request.start_mode request (or_zero (last_id entries)))

abbrev pub resolve : ReadRequest → Option Entry → Result ReadRequest
resolve request none = ok (resolve_as request.start_mode request zero_id)
resolve request (some entry) = resolve_value request entry.value
