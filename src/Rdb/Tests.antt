-- ===== src/Rdb/Tests.antt =====
-- Snapshot files at concrete inputs.
use codecrafters_redis_cpp.Prelude.{
  ℕ, ◌≡◌, ◌≢◌, refl, Bool, none, some, List, [], ◌∷◌, ◌++◌, arith, leb, Bytes, codes,
}
use codecrafters_redis_cpp.Prelude.Expected.{expected}
use codecrafters_redis_cpp.Rdb.{loaded, thrown, out_of_fuel, parse, read_string}
use codecrafters_redis_cpp.Numeric.{to_string, to_string_ℤ}
use codecrafters_redis_cpp.Rdb.{read_length, read_bytes, little_endian}
use codecrafters_redis_cpp.Rdb.Ends.{parse_ends}
use codecrafters_redis_cpp.Rdb.Format.{
  Item, plain, int16, never, at_seconds, auxiliary, select_database, sizes, entry, write_items,
  write_item, entries_of,
}
use codecrafters_redis_cpp.Rdb.RoundTrip.{FitsItems, parse-write_items, parse_thrown}
use codecrafters_redis_cpp.Rdb.Torn.{parse-append, parse_torn}

-- Memory for a thousand entries.
abbrev thousand : ℕ → Bool
thousand n = leb n 1000

abbrev items : List Item
items =
    auxiliary (plain (codes "redis-ver")) (plain (codes "7.2.0"))
    ∷ select_database
    ∷ sizes 2 1
    ∷ entry never none none (plain (codes "a")) (int16 0xffff)
    ∷ entry (at_seconds 5) (some 70) (some 3) (plain (codes "b")) (plain [])
    ∷ []

read_string_int16 : read_string (0xc1 ∷ 0xfe ∷ 0xff ∷ []) ≡ expected (codes "-2", [])
unfolding read_string read_length read_bytes little_endian to_string_ℤ to_string
read_string_int16 = refl

parse_ends_example : parse thousand (codes "REDIS0011" ++ (251 ∷ [])) ≢ out_of_fuel
parse_ends_example = parse_ends thousand (codes "REDIS0011" ++ (251 ∷ []))

items_fit : FitsItems thousand items
items_fit = (
  (omega arith, omega arith),
  (
    tt,
    (
      (omega arith, omega arith, refl),
      (
        (tt, tt, omega arith, omega arith),
        ((omega arith, omega arith, omega arith, omega arith), tt),
      ),
    ),
  ),
)

parse-write_items_example :
    parse thousand (codes "REDIS" ++ (codes "0011" ++ (write_items items ++ (255 ∷ 1 ∷ 2 ∷ []))))
    ≡ loaded (entries_of items)
parse-write_items_example =
    parse-write_items thousand (codes "0011") items (1 ∷ 2 ∷ []) (refl, refl) items_fit

parse_torn_example : parse thousand (codes "REDIS00") ≢ loaded []
parse_torn_example =
    parse_torn thousand (codes "0011") items (codes "REDIS00") (codes "11" ++ write_items items) []
      (refl, refl) items_fit refl

abbrev empty_file : Bytes
empty_file = codes "REDIS" ++ (codes "0011" ++ (255 ∷ []))

empty_file_loads : parse thousand empty_file ≡ loaded []
empty_file_loads = parse-write_items thousand (codes "0011") [] [] (refl, refl) tt

trailing_byte : parse thousand (empty_file ++ (0 ∷ [])) ≡ loaded []
trailing_byte = parse-append thousand empty_file (0 ∷ []) [] empty_file_loads

size_hint_throws :
    parse thousand
      (codes "REDIS" ++ (codes "0011" ++ (write_items [] ++ (write_item (sizes 2000 0) ++ []))))
    ≡ thrown
size_hint_throws =
    parse_thrown thousand (codes "0011") [] 2000 0 [] (refl, refl) tt (omega arith) (omega arith)
      refl
