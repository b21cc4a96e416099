-- ===== src/Rdb/Format.antt =====
-- The format of a snapshot file, described by what writes one: the text of src/rdb.cpp is about reading.
use codecrafters_redis_cpp.Prelude.{
  ℕ, ◌+◌, ◌*◌, ◌/◌, ◌%◌, ◌^◌, ◌<◌, Option, none, some, List, [], ◌∷◌, ◌++◌, ltb, if◌then◌else◌,
  Bytes, length, zero, suc,
}
use codecrafters_redis_cpp.Numeric.{to_string_ℤ}
use codecrafters_redis_cpp.Rdb.{StringEntry, bit_cast}

-- The lowest `count` bytes of a number, the first one the lowest.
unfoldable pub low_first : ℕ → ℕ → Bytes
low_first zero n = []
low_first (suc count) n = (n % 2 ^ 8) ∷ low_first count (n / 2 ^ 8)

-- The same, the first one the highest.
unfoldable pub high_first : ℕ → ℕ → Bytes
high_first zero n = []
high_first (suc count) n = high_first count (n / 2 ^ 8) ++ ((n % 2 ^ 8) ∷ [])

-- The shortest of the four forms of a length.
unfoldable pub write_length : ℕ → Bytes
write_length n =
    if ltb n (2 ^ 6)
    then n ∷ []
    else if ltb n (2 ^ 14)
    then (2 ^ 6 + n / 2 ^ 8) ∷ (n % 2 ^ 8) ∷ []
    else if ltb n (2 ^ 32)
    then 0x80 ∷ high_first 4 n
    else 0x81 ∷ high_first 8 n

-- A string is stored as its bytes, or as an integer of 8, 16 or 32 bits in two's complement.
pub data Stored : Type 0 where
  plain : Bytes → Stored
  int8 int16 int32 : ℕ → Stored

abbrev pub text_of : Stored → Bytes
text_of (plain s) = s
text_of (int8 n) = to_string_ℤ (bit_cast 8 n)
text_of (int16 n) = to_string_ℤ (bit_cast 16 n)
text_of (int32 n) = to_string_ℤ (bit_cast 32 n)

abbrev pub write_string : Stored → Bytes
write_string (plain s) = write_length (length s) ++ s
write_string (int8 n) = 0xc0 ∷ n ∷ []
write_string (int16 n) = 0xc1 ∷ low_first 2 n
write_string (int32 n) = 0xc2 ∷ low_first 4 n

abbrev pub FitsStored : Stored → Type 0
FitsStored (plain s) = length s < 2 ^ 64
FitsStored (int8 n) = n < 2 ^ 8
FitsStored (int16 n) = n < 2 ^ 16
FitsStored (int32 n) = n < 2 ^ 32

-- When a key expires: never, or a Unix time in milliseconds or in seconds.
pub data Expiry : Type 0 where
  never : Expiry
  at_ms at_seconds : ℕ → Expiry

abbrev pub write_expiry : Expiry → Bytes
write_expiry never = []
write_expiry (at_ms n) = 252 ∷ low_first 8 n
write_expiry (at_seconds n) = 253 ∷ low_first 4 n

abbrev pub FitsExpiry : Expiry → Type 0
FitsExpiry never = Unit
FitsExpiry (at_ms n) = n < 2 ^ 64
FitsExpiry (at_seconds n) = n < 2 ^ 32

abbrev pub expiry_ms : Expiry → Option ℕ
expiry_ms never = none
expiry_ms (at_ms n) = some n
expiry_ms (at_seconds n) = some (n * 1000)

-- The items of a file: facts on its writer, the database and its sizes, and the entries, each with
-- what was known of its use.
pub data Item : Type 0 where
  auxiliary : Stored → Stored → Item
  select_database : Item
  sizes : ℕ → ℕ → Item
  entry : Expiry → Option ℕ → Option ℕ → Stored → Stored → Item

abbrev pub write_idle : Option ℕ → Bytes
write_idle none = []
write_idle (some n) = 248 ∷ write_length n

abbrev pub write_frequency : Option ℕ → Bytes
write_frequency none = []
write_frequency (some n) = 249 ∷ n ∷ []

abbrev pub write_item : Item → Bytes
write_item (auxiliary key value) = 250 ∷ (write_string key ++ write_string value)
write_item select_database = 254 ∷ 0 ∷ []
write_item (sizes keys expiring) = 251 ∷ (write_length keys ++ write_length expiring)
write_item (entry expiry idle frequency key value) =
    write_expiry expiry
    ++ (write_idle idle
        ++ (write_frequency frequency ++ (0 ∷ (write_string key ++ write_string value))))

abbrev pub write_items : List Item → Bytes
write_items [] = []
write_items (item ∷ items) = write_item item ++ write_items items

abbrev pub FitsIdle : Option ℕ → Type 0
FitsIdle none = Unit
FitsIdle (some n) = n < 2 ^ 64

abbrev pub entries_of : List Item → List StringEntry
entries_of [] = []
entries_of (auxiliary key value ∷ items) = entries_of items
entries_of (select_database ∷ items) = entries_of items
entries_of (sizes keys expiring ∷ items) = entries_of items
entries_of (entry expiry idle frequency key value ∷ items) =
    record { key = text_of key; value = text_of value; expires_at_unix_ms = expiry_ms expiry }
    ∷ entries_of items
