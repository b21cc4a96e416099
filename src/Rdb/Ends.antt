-- ===== src/Rdb/Ends.antt =====
-- The loop of `parse` in src/rdb.cpp ends: every round reads its marker at least.
use codecrafters_redis_cpp.Prelude.{
  ℕ, zero, suc, ◌≤◌, ◌≡◌, ◌≢◌, refl, Bool, true, false, Option, none, List, [], ◌∷◌, arith,
  if◌then◌else◌, Bytes, length, length-drop, not, ◌&&◌, leb, codes,
}
use codecrafters_redis_cpp.Numeric.{max_uint64}
use codecrafters_redis_cpp.Numeric.{max_uint64}
use codecrafters_redis_cpp.Numeric.{max_uint64}
use codecrafters_redis_cpp.Prelude.Expected.{Expected, expected, unexpected, ◌>>=◌}
use codecrafters_redis_cpp.Rdb.{
  StringEntry, Length, read_bytes, read_u32_little_endian, read_u64_little_endian, read_length,
  read_plain_length, read_string, string_by, Round, continues, returns, throws, read_item, Loaded,
  refused, out_of_fuel, parse_loop, parse, length_by, after_item, parse_items, read_sizes,
  read_auxiliary, read_entry, read_database, read_expiration_ms, read_expiration_seconds, read_idle,
  read_frequency, read_sizes, read_auxiliary, read_entry, read_sizes, read_auxiliary, read_entry,
}

-- What a reader leaves is at most `n` bytes.
abbrev pub Leaves : {A : Type 0} → ℕ → Expected (A × Bytes) → Type 0
Leaves n (expected (a, rest)) = length rest ≤ n
Leaves n (unexpected message) = Unit

module _ {n : ℕ} where
  read_bytes-Leaves : (count : ℕ) (s : Bytes) → length s ≤ n → Leaves n (read_bytes count s)
  unfolding read_bytes
  read_bytes-Leaves count s h = ground (arith, length-drop count s)

  read_u32-Leaves : (s : Bytes) → length s ≤ n → Leaves n (read_u32_little_endian s)
  unfolding read_u32_little_endian read_bytes
  read_u32-Leaves s h = ground (arith, length-drop 4 s)

  length_by-Leaves : (first : ℕ) (s : Bytes) → length s ≤ n → Leaves n (length_by first s)
  unfolding read_bytes
  length_by-Leaves first [] h = ground arith
  length_by-Leaves first (c ∷ s) h = ground (arith, length-drop 4 (c ∷ s), length-drop 8 (c ∷ s))

  read_length-Leaves : (s : Bytes) → length s ≤ n → Leaves n (read_length s)
  unfolding read_length
  read_length-Leaves [] h = tt
  read_length-Leaves (c ∷ s) h = length_by-Leaves c s (omega arith)

  string_by-Leaves : (found : Length) (s : Bytes) → length s ≤ n → Leaves n (string_by found s)
  unfolding read_bytes read_u32_little_endian
  string_by-Leaves found [] h = ground (arith, length-drop {A = ℕ} found.value [])
  string_by-Leaves found (c ∷ s) h =
      ground (arith, length-drop found.value (c ∷ s), length-drop 2 (c ∷ s), length-drop 4 (c ∷ s))

  read_string-Leaves : (s : Bytes) → length s ≤ n → Leaves n (read_string s)
  unfolding read_string
  read_string-Leaves s h = by_length (read_length s) (read_length-Leaves s h)
    where
      by_length :
          (o : Expected (Length × Bytes))
          → Leaves n o
          → Leaves n (o >>= (λ (found, rest). string_by found rest))
      by_length (expected (found, rest)) k = string_by-Leaves found rest k
      by_length (unexpected message) k = tt

  plain_length-Leaves : (s : Bytes) → length s ≤ n → Leaves n (read_plain_length s)
  unfolding read_plain_length
  plain_length-Leaves s h = ground (arith, read_length-Leaves s h)

abbrev pub LeavesRound : ℕ → Expected Round → Type 0
LeavesRound n (expected (continues rest pending entries)) = length rest ≤ n
LeavesRound n (expected (returns entries)) = Unit
LeavesRound n (expected throws) = Unit
LeavesRound n (unexpected message) = Unit

bind-LeavesRound :
    {A : Type 0} (n : ℕ) (o : Expected (A × Bytes)) (f : A × Bytes → Expected Round)
    → Leaves n o
    → ((a : A) (rest : Bytes) → length rest ≤ n → LeavesRound n (f (a, rest)))
    → LeavesRound n (o >>= f)
bind-LeavesRound n (expected (a, rest)) f h k = k a rest h
bind-LeavesRound n (unexpected message) f h k = tt

module _ (n : ℕ) (s : Bytes) (pending : Option ℕ) (entries : List StringEntry) where
  auxiliary-LeavesRound : length s ≤ n → LeavesRound n (read_auxiliary s pending entries)
  auxiliary-LeavesRound h =
      bind-LeavesRound n (read_string s) _ (read_string-Leaves s h)
        λ key r k. bind-LeavesRound n (read_string r) _ (read_string-Leaves r k) λ value r' k'. k'

  entry-LeavesRound : length s ≤ n → LeavesRound n (read_entry s pending entries)
  entry-LeavesRound h =
      bind-LeavesRound n (read_string s) _ (read_string-Leaves s h)
        λ key r k. bind-LeavesRound n (read_string r) _ (read_string-Leaves r k) λ value r' k'. k'

  database-LeavesRound : length s ≤ n → LeavesRound n (read_database s pending entries)
  database-LeavesRound h =
      bind-LeavesRound n (read_plain_length s) _ (plain_length-Leaves s h)
        λ database r k. ground arith

  sizes-LeavesRound :
      (has_room : ℕ → Bool) → length s ≤ n → LeavesRound n (read_sizes has_room s pending entries)
  sizes-LeavesRound has_room h =
      bind-LeavesRound n (read_plain_length s) _ (plain_length-Leaves s h) λ key_count r k.
        bind-LeavesRound n (read_plain_length r) _ (plain_length-Leaves r k)
          λ expiring r' k'. by_room (leb key_count max_uint64 && not (has_room key_count)) r' k'
    where
      by_room :
          (b : Bool) (r : Bytes)
          → length r ≤ n
          → LeavesRound n (expected (if b then throws else continues r pending entries))
      by_room true r k = tt
      by_room false r k = k

  times-LeavesRound :
      length s ≤ n
      → LeavesRound n (read_expiration_ms s entries)
        × LeavesRound n (read_expiration_seconds s entries)
        × LeavesRound n (read_idle s pending entries)
        × LeavesRound n (read_frequency s pending entries)
  unfolding read_u64_little_endian read_bytes
  times-LeavesRound h = (
    ground (arith, length-drop 8 s),
    bind-LeavesRound n (read_u32_little_endian s) _ (read_u32-Leaves s h) (λ a r k. k),
    bind-LeavesRound n (read_plain_length s) _ (plain_length-Leaves s h) (λ a r k. k),
    frequency s h,
  )
    where
      frequency : (s : Bytes) → length s ≤ n → LeavesRound n (read_frequency s pending entries)
      frequency [] h = tt
      frequency (c ∷ s) h = omega arith

pub read_item-LeavesRound :
    (has_room : ℕ → Bool) (marker n : ℕ) (s : Bytes) (pending : Option ℕ)
    (entries : List StringEntry)
    → length s ≤ n
    → LeavesRound n (read_item has_room marker s pending entries)
unfolding read_item
read_item-LeavesRound has_room marker n s pending entries h = ground (
  arith,
  auxiliary-LeavesRound n s pending entries h,
  entry-LeavesRound n s pending entries h,
  database-LeavesRound n s pending entries h,
  sizes-LeavesRound n s pending entries has_room h,
  times-LeavesRound n s pending entries h,
)

-- Two continuations that agree on what a round leaves.
after_item-ext :
    (n : ℕ) (r : Expected Round) (f g : Bytes → Option ℕ → List StringEntry → Loaded)
    → LeavesRound n r
    → ((s : Bytes) (pending : Option ℕ) (entries : List StringEntry)
        → length s ≤ n
        → f s pending entries ≡ g s pending entries)
    → after_item r f ≡ after_item r g
after_item-ext n (expected (continues s pending entries)) f g h k = k s pending entries h
after_item-ext n (expected (returns entries)) f g h k = refl
after_item-ext n (expected throws) f g h k = refl
after_item-ext n (unexpected message) f g h k = refl

after_item_ends :
    (n : ℕ) (r : Expected Round) (f : Bytes → Option ℕ → List StringEntry → Loaded)
    → LeavesRound n r
    → ((s : Bytes) (pending : Option ℕ) (entries : List StringEntry)
        → length s ≤ n
        → f s pending entries ≢ out_of_fuel)
    → after_item r f ≢ out_of_fuel
after_item_ends n (expected (continues s pending entries)) f h k = k s pending entries h
after_item_ends n (expected (returns entries)) f h k = λ e. cc
after_item_ends n (expected throws) f h k = λ e. cc
after_item_ends n (unexpected message) f h k = λ e. cc

module _ (has_room : ℕ → Bool) where
  -- Any fuel that covers the bytes gives the same.
  pub parse_loop_fuel :
      (fuel more : ℕ) (s : Bytes) (pending : Option ℕ) (entries : List StringEntry)
      → length s ≤ fuel
      → length s ≤ more
      → parse_loop has_room fuel s pending entries ≡ parse_loop has_room more s pending entries
  unfolding parse_loop
  parse_loop_fuel fuel more [] pending entries h k = refl
  parse_loop_fuel zero more (c ∷ s) pending entries h k = absurd (omega arith)
  parse_loop_fuel (suc fuel) zero (c ∷ s) pending entries h k = absurd (omega arith)
  parse_loop_fuel (suc fuel) (suc more) (c ∷ s) pending entries h k =
      after_item-ext (length s) (read_item has_room c s pending entries) _ _
        (read_item-LeavesRound has_room c (length s) s pending entries (omega arith))
        (λ r p es l. parse_loop_fuel fuel more r p es (omega arith) (omega arith))

  parse_loop_ends :
      (fuel : ℕ) (s : Bytes) (pending : Option ℕ) (entries : List StringEntry)
      → length s ≤ fuel
      → parse_loop has_room fuel s pending entries ≢ out_of_fuel
  unfolding parse_loop
  parse_loop_ends fuel [] pending entries h = λ e. cc
  parse_loop_ends zero (c ∷ s) pending entries h = absurd (omega arith)
  parse_loop_ends (suc fuel) (c ∷ s) pending entries h =
      after_item_ends (length s) (read_item has_room c s pending entries) _
        (read_item-LeavesRound has_room c (length s) s pending entries (omega arith))
        (λ r p es l. parse_loop_ends fuel r p es (omega arith))

  -- Whatever a snapshot file holds, its loop ends: with the entries, an error or an exception.
  pub parse_ends : (contents : Bytes) → parse has_room contents ≢ out_of_fuel
  unfolding parse
  parse_ends contents = by_tests _ _
    where
      by_header : (r : Expected (Bytes × Bytes)) → parse_items has_room contents r ≢ out_of_fuel
      by_header (expected (header, rest)) = parse_loop_ends (length rest) rest none [] (omega arith)
      by_header (unexpected message) = λ e. cc

      by_tests :
          (headless versionless : Bool)
          → (if headless
              then refused (codes "Invalid RDB header")
              else if versionless
              then refused (codes "Invalid RDB version")
              else parse_items has_room contents (read_bytes 9 contents))
            ≢ out_of_fuel
      by_tests true versionless = λ e. cc
      by_tests false true = λ e. cc
      by_tests false false = by_header (read_bytes 9 contents)
