-- ===== src/Resp/Tests.antt =====
-- Runs of src/resp.cpp on small buffers, and the theorems about it at concrete inputs.
use codecrafters_redis_cpp.Prelude.{◌≤◌, ◌≡◌, ◌⊎◌, refl, [], ◌∷◌, ◌++◌, arith, Bytes, codes, length}
use codecrafters_redis_cpp.Prelude.Int.{negsuc}
use codecrafters_redis_cpp.Numeric.{to_string, to_string_ℤ, from_chars, whole}
use codecrafters_redis_cpp.Resp.{
  Command, ok, incomplete, error, invalid_length, parse_command, serialize_command,
}
use codecrafters_redis_cpp.Resp.Reply.{
  bulk_string, integer, null_array, response_array, nil, cons, serialize_response,
}
use codecrafters_redis_cpp.Resp.Framing.{parse_command-append}
use codecrafters_redis_cpp.Resp.Consumed.{bytes_consumed-le-length}
use codecrafters_redis_cpp.Resp.RoundTrip.{parse_command-serialize_command, parse_command_prefix}

abbrev get_a : Command
get_a = codes "GET" ∷ codes "a" ∷ []

abbrev get_a_text : Bytes
get_a_text = codes "*2\r\n$3\r\nGET\r\n$1\r\na\r\n"

get_a_written : serialize_command get_a ≡ get_a_text
unfolding serialize_command to_string
get_a_written = refl

get_a_read :
    parse_command (get_a_text ++ codes "*1") ≡ ok (record { command = get_a; bytes_consumed = 20 })
unfolding parse_command from_chars whole
get_a_read = refl

bad_length :
    parse_command (codes "*x\r\n")
    ≡ error (record { code = invalid_length; message = codes "Invalid RESP length" })
unfolding parse_command from_chars whole
bad_length = refl

-- A length of zero and a binary argument.
empty_word :
    parse_command (codes "*1\r\n$0\r\n\r\n")
    ≡ ok (record { command = [] ∷ []; bytes_consumed = 10 })
unfolding parse_command from_chars whole
empty_word = refl

nested_reply :
    serialize_response (
      response_array
        (cons (bulk_string (codes "a")) (cons (integer (negsuc 4)) (cons null_array nil))))
    ≡ codes "*3\r\n$1\r\na\r\n:-5\r\n*-1\r\n"
unfolding serialize_response to_string to_string_ℤ
nested_reply = refl

parse_command-serialize_command_example :
    parse_command (serialize_command get_a ++ codes "*1")
    ≡ ok (record { command = get_a; bytes_consumed = length (serialize_command get_a) })
parse_command-serialize_command_example =
    parse_command-serialize_command get_a (codes "*1") (omega arith)

parse_command_prefix_example : parse_command (codes "*2\r\n$3\r\nGE") ≡ incomplete
unfolding serialize_command to_string
parse_command_prefix_example =
    parse_command_prefix get_a (codes "*2\r\n$3\r\nGE") (codes "T\r\n$1\r\na\r\n") (omega arith)
      refl (λ e. cc)

parse_command-append_example :
    (parse_command get_a_text ≡ incomplete)
    ⊎ (parse_command (get_a_text ++ codes "*1") ≡ parse_command get_a_text)
parse_command-append_example = parse_command-append get_a_text (codes "*1")

consumed_within : 20 ≤ length (get_a_text ++ codes "*1")
consumed_within =
    bytes_consumed-le-length (get_a_text ++ codes "*1")
      {r = record { command = get_a; bytes_consumed = 20 }} get_a_read
