-- ===== src/Handlers/Tests.antt =====
-- Stream identifiers at concrete inputs.
use codecrafters_redis_cpp.Prelude.{◌≡◌, some, arith}
use codecrafters_redis_cpp.Streams.{StreamId, id_to_string, explicit}
use codecrafters_redis_cpp.Handlers.Rstream.Parse.{
  parse_id, parse_read_id, parse_range_start, parse_range_stop,
}
use codecrafters_redis_cpp.Handlers.Rstream.RoundTrip.{parse_id-id_to_string}

abbrev given : StreamId
given = record { milliseconds = 1526; sequence = 7 }

parse_id-id_to_string_example :
    (parse_id (id_to_string given)
      ≡ some (record { mode = explicit; milliseconds = 1526; sequence = 7 }))
    × (parse_read_id (id_to_string given) ≡ some given)
    × (parse_range_start (id_to_string given) ≡ some given)
    × (parse_range_stop (id_to_string given) ≡ some given)
parse_id-id_to_string_example =
    parse_id-id_to_string given (record { milliseconds = omega arith; sequence = omega arith })
