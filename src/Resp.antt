-- ===== src/Resp.antt =====
-- src/resp.hpp and src/resp.cpp: the wire protocol. A command is read from the bytes that a
-- connection has received, and a reply is written.
mod Tests
pub mod Framing
pub mod Reply
pub mod Consumed
pub mod RoundTrip
use codecrafters_redis_cpp.Prelude.{
  ℕ, zero, suc, ◌+◌, ◌&&◌, Option, none, some, List, [], ◌∷◌, ◌++◌, ltb, ◌==◌, if◌then◌else◌, Bytes,
  codes, length, take, drop,
}
use codecrafters_redis_cpp.Numeric.{max_uint64, to_string, from_chars, whole}

abbrev pub Command : Type 0
Command = List Bytes

pub record ParseResult : Type 0 where
  pub command : Command
  pub bytes_consumed : ℕ

pub data ParseErrorCode : Type 0 where
  invalid_format invalid_length : ParseErrorCode

pub record ParseError : Type 0 where
  pub code : ParseErrorCode
  pub message : Bytes

-- `ParseOutcome` is `Outcome ParseResult`; the steps of the parser have outcomes of other types.
pub data Outcome (A : Type 0) : Type 0 where
  ok : A → Outcome A
  incomplete : Outcome A
  error : ParseError → Outcome A

infixl 5 ◌>>=◌
abbrev pub ◌>>=◌ : {A B : Type 0} → Outcome A → (A → Outcome B) → Outcome B
ok a >>= f = f a
incomplete >>= f = incomplete
error e >>= f = error e

-- `position`, and the view `input.substr(position)`.
pub record Cursor : Type 0 where
  pub position : ℕ
  pub rest : Bytes

abbrev prepend : ℕ → Option (Bytes × Bytes) → Option (Bytes × Bytes)
prepend c none = none
prepend c (some (line, rest)) = some (c ∷ line, rest)

-- `find("\r\n")`: what stands before the first line end, and what stands behind it.
pub find_crlf : Bytes → Option (Bytes × Bytes)
find_crlf [] = none
find_crlf (c ∷ []) = none
find_crlf (c ∷ d ∷ s) =
    let later = prepend c (find_crlf (d ∷ s)) in
    if (c == 13) && (d == 10) then some ([], s) else later

-- `nullopt` has the callers return `Incomplete`.
abbrev pub line_at : ℕ → Option (Bytes × Bytes) → Outcome (Bytes × Cursor)
line_at position none = incomplete
line_at position (some (line, rest)) =
    ok (line, record { position = position + length line + 2; rest = rest })

pub read_line : Cursor → Outcome (Bytes × Cursor)
unfolding find_crlf
read_line cursor = line_at cursor.position (find_crlf cursor.rest)

abbrev pub length_or_error : Option ℕ → Outcome ℕ
length_or_error none =
    error (record { code = invalid_length; message = codes "Invalid RESP length" })
length_or_error (some n) = ok n

pub parse_length : Bytes → Outcome ℕ
parse_length text = length_or_error (whole (from_chars max_uint64 text))

-- The two bytes behind an argument.
abbrev pub close_argument : Bytes → ℕ → Bytes → Outcome (Bytes × Cursor)
close_argument argument position [] = incomplete
close_argument argument position (c ∷ []) = incomplete
close_argument argument position (c ∷ d ∷ rest) =
    if (c == 13) && (d == 10)
    then ok (argument, record { position = position + 2; rest = rest })
    else error (record { code = invalid_format; message = codes "Bulk string must end with CRLF" })

pub read_bulk : ℕ → Cursor → Outcome (Bytes × Cursor)
read_bulk bulk_length cursor =
    if ltb (length cursor.rest) bulk_length
    then incomplete
    else close_argument (take bulk_length cursor.rest) (cursor.position + bulk_length)
        (drop bulk_length cursor.rest)

-- The length line and the bytes of an argument, behind its `$`.
pub read_argument : Cursor → Outcome (Bytes × Cursor)
read_argument cursor = do
  (text, after) ← read_line cursor
  bulk_length ← parse_length text
  read_bulk bulk_length after

abbrev pub argument_at : ℕ → Bytes → Outcome (Bytes × Cursor)
argument_at position [] = incomplete
argument_at position (c ∷ s) =
    if c == b'$'
    then read_argument (record { position = position + 1; rest = s })
    else error (record { code = invalid_format; message = codes "Expected RESP bulk string" })

-- One round of the loop of `parse_command`.
pub parse_argument : Cursor → Outcome (Bytes × Cursor)
parse_argument cursor = argument_at cursor.position cursor.rest

-- The loop, with the rounds that are left.
pub parse_arguments : ℕ → Cursor → Command → Outcome ParseResult
parse_arguments zero cursor command =
    ok (record { command = command; bytes_consumed = cursor.position })
parse_arguments (suc left) cursor command = do
  (argument, after) ← parse_argument cursor
  parse_arguments left after (command ++ argument ∷ [])

pub read_array : Cursor → Outcome ParseResult
read_array cursor = do
  (text, after) ← read_line cursor
  array_length ← parse_length text
  parse_arguments array_length after []

unfoldable pub parse_command : Bytes → Outcome ParseResult
unfolding read_line parse_length read_bulk read_argument parse_argument parse_arguments read_array
parse_command [] = incomplete
parse_command (c ∷ s) =
    if c == b'*'
    then read_array (record { position = 1; rest = s })
    else error (record { code = invalid_format; message = codes "Expected RESP array" })

abbrev pub crlf : Bytes
crlf = 13 ∷ 10 ∷ []

pub append_bulk_string : Bytes → Bytes → Bytes
append_bulk_string output value =
    output ++ (b'$' ∷ (to_string (length value) ++ (crlf ++ (value ++ crlf))))

pub append_bulk_strings : Bytes → List Bytes → Bytes
unfolding append_bulk_string
append_bulk_strings output [] = output
append_bulk_strings output (value ∷ values) =
    append_bulk_strings (append_bulk_string output value) values

unfoldable pub serialize_command : Command → Bytes
unfolding append_bulk_strings
serialize_command command =
    append_bulk_strings (b'*' ∷ (to_string (length command) ++ crlf)) command
