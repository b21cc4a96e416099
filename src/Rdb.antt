-- ===== src/Rdb.antt =====
-- src/rdb.hpp and src/rdb.cpp: the snapshot file. A `Reader` is the bytes that it has not read yet; a
-- `char` is its byte. The file system and the memory that a call of `reserve` gets are arguments.
pub mod Format
pub mod Ends
pub mod RoundTrip
pub mod Torn
mod Tests
use codecrafters_redis_cpp.Prelude.{
  ℕ, zero, suc, ◌+◌, ◌-◌, ◌*◌, ◌/◌, ◌%◌, ◌^◌, Bool, true, false, ◌&&◌, ◌||◌, not, Option, none,
  some, List, [], ◌∷◌, ◌++◌, ltb, leb, ◌==◌, if◌then◌else◌, Bytes, codes, str_eq, length, take,
  drop,
}
use codecrafters_redis_cpp.Prelude.Expected.{Expected, expected, unexpected, ◌>>=◌}
use codecrafters_redis_cpp.Prelude.Int.{ℤ, pos, negsuc}
use codecrafters_redis_cpp.Numeric.{max_uint64, to_string_ℤ, is_digit}

pub record StringEntry : Type 0 where
  pub key : Bytes
  pub value : Bytes
  pub expires_at_unix_ms : Option ℕ

pub record Length : Type 0 where
  pub value : ℕ
  pub encoded : Bool

abbrev pub end_of_input : Bytes
end_of_input = codes "Unexpected end of RDB file"

abbrev pub read_byte : Bytes → Expected (ℕ × Bytes)
read_byte [] = unexpected end_of_input
read_byte (c ∷ s) = expected (c, s)

unfoldable pub read_bytes : ℕ → Bytes → Expected (Bytes × Bytes)
read_bytes count input =
    if ltb (length input) count
    then unexpected end_of_input
    else expected (take count input, drop count input)

-- The loop of the little-endian readers; the bits of the bytes are disjoint, so `|` is a sum.
unfoldable pub little_endian : Bytes → ℕ → ℕ → ℕ
little_endian [] index result = result
little_endian (c ∷ s) index result = little_endian s (index + 1) (result + c * 2 ^ (index * 8))

unfoldable pub read_u32_little_endian : Bytes → Expected (ℕ × Bytes)
read_u32_little_endian input = do
  (bytes, rest) ← read_bytes 4 input
  expected (little_endian bytes 0 0, rest)

unfoldable pub read_u64_little_endian : Bytes → Expected (ℕ × Bytes)
read_u64_little_endian input = do
  (bytes, rest) ← read_bytes 8 input
  expected (little_endian bytes 0 0, rest)

-- The loop over the bytes of a long length, `result = (result << 8) | byte`.
unfoldable pub big_endian : Bytes → ℕ → ℕ
big_endian [] result = result
big_endian (c ∷ s) result = big_endian s (result * 2 ^ 8 + c)

abbrev pub read_long_length : ℕ → Bytes → Expected (Length × Bytes)
read_long_length count input = do
  (bytes, rest) ← read_bytes count input
  expected (record { value = big_endian bytes 0; encoded = false }, rest)

abbrev pub read_short_length : ℕ → Bytes → Expected (Length × Bytes)
read_short_length first input = do
  (second, rest) ← read_byte input
  expected (record { value = (first % 2 ^ 6) * 2 ^ 8 + second; encoded = false }, rest)

-- By the first byte; its upper two bits are `kind`.
abbrev pub length_by : ℕ → Bytes → Expected (Length × Bytes)
length_by first input =
    if first / 2 ^ 6 == 0
    then expected (record { value = first % 2 ^ 6; encoded = false }, input)
    else if first / 2 ^ 6 == 1
    then read_short_length first input
    else if first / 2 ^ 6 == 3
    then expected (record { value = first % 2 ^ 6; encoded = true }, input)
    else if first == 0x80
    then read_long_length 4 input
    else if first == 0x81
    then read_long_length 8 input
    else unexpected (codes "Unsupported RDB length encoding")

unfoldable pub read_length : Bytes → Expected (Length × Bytes)
read_length input = do (first, rest) ← read_byte input; length_by first rest

unfoldable pub read_plain_length : Bytes → Expected (ℕ × Bytes)
read_plain_length input = do
  (length, rest) ← read_length input
  if length.encoded
      then unexpected (codes "Expected an ordinary RDB length")
      else expected (length.value, rest)

-- `std::bit_cast` of an unsigned number to the signed type of the same width.
abbrev pub bit_cast : ℕ → ℕ → ℤ
bit_cast width n = if ltb n (2 ^ (width - 1)) then pos n else negsuc (2 ^ width - 1 - n)

abbrev pub read_int8 : Bytes → Expected (Bytes × Bytes)
read_int8 input = do
  (value, rest) ← read_byte input
  expected (to_string_ℤ (bit_cast 8 value), rest)

abbrev pub read_int16 : Bytes → Expected (Bytes × Bytes)
read_int16 input = do
  (bytes, rest) ← read_bytes 2 input
  expected (to_string_ℤ (bit_cast 16 (little_endian bytes 0 0)), rest)

abbrev pub read_int32 : Bytes → Expected (Bytes × Bytes)
read_int32 input = do
  (value, rest) ← read_u32_little_endian input
  expected (to_string_ℤ (bit_cast 32 value), rest)

abbrev pub string_by : Length → Bytes → Expected (Bytes × Bytes)
string_by length input =
    if not length.encoded
    then (if ltb max_uint64 length.value
        then unexpected (codes "RDB string is too large")
        else read_bytes length.value input)
    else if length.value == 0
    then read_int8 input
    else if length.value == 1
    then read_int16 input
    else if length.value == 2
    then read_int32 input
    else unexpected (codes "LZF-compressed RDB strings are not supported")

unfoldable pub read_string : Bytes → Expected (Bytes × Bytes)
read_string input = do (length, rest) ← read_length input; string_by length rest

-- What a round of the loop of `parse` does; `throws` is an exception, which no caller catches.
pub data Round : Type 0 where
  returns : List StringEntry → Round
  continues : Bytes → Option ℕ → List StringEntry → Round
  throws : Round

abbrev pub read_auxiliary : Bytes → Option ℕ → List StringEntry → Expected Round
read_auxiliary input pending entries = do
  (key, rest) ← read_string input
  (value, rest) ← read_string rest
  expected (continues rest pending entries)

abbrev pub read_database : Bytes → Option ℕ → List StringEntry → Expected Round
read_database input pending entries = do
  (database, rest) ← read_plain_length input
  if not (database == 0)
      then unexpected (codes "Only RDB database 0 is supported")
      else expected (continues rest pending entries)

-- `has_room count` says whether `entries.reserve(count)` gets its memory; if not, it throws.
abbrev pub read_sizes : (ℕ → Bool) → Bytes → Option ℕ → List StringEntry → Expected Round
read_sizes has_room input pending entries = do
  (key_count, rest) ← read_plain_length input
  (expiring_key_count, rest) ← read_plain_length rest
  expected (
      if leb key_count max_uint64 && not (has_room key_count)
      then throws
      else continues rest pending entries)

abbrev pub read_expiration_ms : Bytes → List StringEntry → Expected Round
read_expiration_ms input entries = do
  (expiration, rest) ← read_u64_little_endian input
  expected (continues rest (some expiration) entries)

abbrev pub read_expiration_seconds : Bytes → List StringEntry → Expected Round
read_expiration_seconds input entries = do
  (expiration, rest) ← read_u32_little_endian input
  expected (continues rest (some (expiration * 1000 % 2 ^ 64)) entries)

abbrev pub read_idle : Bytes → Option ℕ → List StringEntry → Expected Round
read_idle input pending entries = do
  (idle, rest) ← read_plain_length input
  expected (continues rest pending entries)

abbrev pub read_frequency : Bytes → Option ℕ → List StringEntry → Expected Round
read_frequency input pending entries = do
  (frequency, rest) ← read_byte input
  expected (continues rest pending entries)

abbrev pub read_entry : Bytes → Option ℕ → List StringEntry → Expected Round
read_entry input pending entries = do
  (key, rest) ← read_string input
  (value, rest) ← read_string rest
  expected (
      continues rest none
        (entries ++ record { key = key; value = value; expires_at_unix_ms = pending } ∷ []))

-- The body of the loop, behind the marker.
unfoldable pub read_item : (ℕ → Bool) → ℕ → Bytes → Option ℕ → List StringEntry → Expected Round
read_item has_room marker input pending entries =
    if marker == 255
    then expected (returns entries)
    else if marker == 250
    then read_auxiliary input pending entries
    else if marker == 254
    then read_database input pending entries
    else if marker == 251
    then read_sizes has_room input pending entries
    else if marker == 252
    then read_expiration_ms input entries
    else if marker == 253
    then read_expiration_seconds input entries
    else if marker == 248
    then read_idle input pending entries
    else if marker == 249
    then read_frequency input pending entries
    else if not (marker == 0)
    then unexpected (codes "Only string values are supported in RDB files")
    else read_entry input pending entries

-- What `parse` gives; `out_of_fuel` stands for a loop that has not ended.
pub data Loaded : Type 0 where
  loaded : List StringEntry → Loaded
  refused : Bytes → Loaded
  thrown : Loaded
  out_of_fuel : Loaded

abbrev pub after_item : Expected Round → (Bytes → Option ℕ → List StringEntry → Loaded) → Loaded
after_item (expected (returns entries)) further = loaded entries
after_item (expected (continues rest pending entries)) further = further rest pending entries
after_item (expected throws) further = thrown
after_item (unexpected message) further = refused message

unfoldable pub parse_loop : (ℕ → Bool) → ℕ → Bytes → Option ℕ → List StringEntry → Loaded
parse_loop has_room fuel [] pending entries = refused (codes "RDB file is missing its end marker")
parse_loop has_room zero (c ∷ s) pending entries = out_of_fuel
parse_loop has_room (suc fuel) (c ∷ s) pending entries =
    after_item (read_item has_room c s pending entries) (parse_loop has_room fuel)

abbrev pub all_digits : Bytes → Bool
all_digits [] = true
all_digits (c ∷ s) = is_digit c && all_digits s

abbrev pub parse_items : (ℕ → Bool) → Bytes → Expected (Bytes × Bytes) → Loaded
parse_items has_room contents (unexpected message) = refused message
parse_items has_room contents (expected (header, rest)) =
    parse_loop has_room (length rest) rest none []

-- Each round reads its marker, so the length of the file is fuel enough.
unfoldable pub parse : (ℕ → Bool) → Bytes → Loaded
parse has_room contents =
    if ltb (length contents) 10 || not (str_eq (take 5 contents) (codes "REDIS"))
    then refused (codes "Invalid RDB header")
    else if not (all_digits (take 4 (drop 5 contents)))
    then refused (codes "Invalid RDB version")
    else parse_items has_room contents (read_bytes 9 contents)

-- What the file system says of a path: whether it exists, or why it cannot tell; whether it opens; and
-- what is read then, up to an error of the device.
pub record File : Type 0 where
  pub status : Expected Bool
  pub opens : Bool
  pub contents : Bytes
  pub bad : Bool

abbrev pub read_existing : (ℕ → Bool) → Bytes → File → Loaded
read_existing has_room path file =
    if not file.opens
    then refused (codes "Cannot open RDB file '" ++ (path ++ codes "'"))
    else if file.bad
    then refused (codes "Failed while reading RDB file '" ++ (path ++ codes "'"))
    else parse has_room file.contents

abbrev pub read_if : Expected Bool → (ℕ → Bool) → Bytes → File → Loaded
read_if (unexpected message) has_room path file =
    refused (codes "Cannot inspect RDB file '" ++ (path ++ (codes "': " ++ message)))
read_if (expected false) has_room path file = loaded []
read_if (expected true) has_room path file = read_existing has_room path file

unfoldable pub read_file : (ℕ → Bool) → Bytes → File → Loaded
read_file has_room path file = read_if file.status has_room path file
