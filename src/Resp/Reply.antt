-- ===== src/Resp/Reply.antt =====
-- `Response` of src/resp.hpp and its serialization in src/resp.cpp.
use codecrafters_redis_cpp.Prelude.{ℕ, suc, List, [], ◌∷◌, ◌++◌, Bytes, codes, length, ◌≡◌, refl}
use codecrafters_redis_cpp.Prelude.Int.{ℤ}
use codecrafters_redis_cpp.Numeric.{to_string, to_string_ℤ}
use codecrafters_redis_cpp.Resp.{append_bulk_string, append_bulk_strings, crlf, serialize_command}

mutual
  pub data Response : Type 0 where
    simple_string : Bytes → Response
    simple_error : Bytes → Response
    bulk_string : Bytes → Response
    integer : ℤ → Response
    null_bulk_string : Response
    null_array : Response
    empty_array : Response
    no_response : Response
    array : List Bytes → Response
    response_array : Responses → Response

  -- `std::vector<Response>`
  pub data Responses : Type 0 where
    nil : Responses
    cons : Response → Responses → Responses

pub size : Responses → ℕ
size nil = 0
size (cons _ rest) = suc (size rest)

unfoldable mutual
  unfolding append_bulk_string append_bulk_strings size

  pub append_response : Bytes → Response → Bytes
  append_response output (simple_string value) = output ++ (b'+' ∷ (value ++ crlf))
  append_response output (simple_error value) = output ++ (b'-' ∷ (value ++ crlf))
  append_response output (bulk_string value) = append_bulk_string output value
  append_response output (integer value) = output ++ (b':' ∷ (to_string_ℤ value ++ crlf))
  append_response output null_bulk_string = output ++ codes "$-1\r\n"
  append_response output null_array = output ++ codes "*-1\r\n"
  append_response output empty_array = output ++ codes "*0\r\n"
  append_response output no_response = output
  append_response output (array values) =
      append_bulk_strings (output ++ (b'*' ∷ (to_string (length values) ++ crlf))) values
  append_response output (response_array values) =
      append_responses (output ++ (b'*' ∷ (to_string (size values) ++ crlf))) values

  pub append_responses : Bytes → Responses → Bytes
  append_responses output nil = output
  append_responses output (cons response responses) =
      append_responses (append_response output response) responses

unfoldable pub serialize_response : Response → Bytes
unfolding append_response
serialize_response response = append_response [] response

-- An array of bulk strings is written as a command is, so a client's parser of commands reads it.
pub serialize_response-array :
    (values : List Bytes) → serialize_response (array values) ≡ serialize_command values
unfolding serialize_response serialize_command
serialize_response-array values = refl
