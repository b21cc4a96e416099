-- ===== src/Rdb/Torn.antt =====
-- What follows the bytes that `parse` of src/rdb.cpp has read makes no difference to it, so part of a
-- file is never taken for a whole one.
use codecrafters_redis_cpp.Prelude.{
  ℕ, zero, suc, ◌≤◌, ◌<◌, ◌≡◌, ◌≢◌, refl, ap, sym, ◌∙◌, Bool, true, false, ◌&&◌, not, Option, none,
  List, [], ◌∷◌, ◌++◌, arith, append_assoc, ltb, leb, if◌then◌else◌, Bytes, codes, str_eq, length,
  take, drop, length-append, length-drop, Bool-cases, inl, inr,
}
use codecrafters_redis_cpp.Numeric.{max_uint64}
use codecrafters_redis_cpp.Prelude.Expected.{Expected, expected, unexpected, ◌>>=◌}
use codecrafters_redis_cpp.Rdb.{
  StringEntry, Length, read_bytes, read_u32_little_endian, read_u64_little_endian, read_length,
  read_plain_length, read_string, string_by, Round, continues, returns, throws, read_item, Loaded,
  loaded, refused, parse_loop, parse, all_digits, length_by, after_item, read_sizes, read_auxiliary,
  read_entry, read_database, read_expiration_ms, read_expiration_seconds, read_idle, read_frequency,
}
use codecrafters_redis_cpp.Rdb.Ends.{LeavesRound, read_item-LeavesRound}
use codecrafters_redis_cpp.Rdb.Format.{Item, write_items}
use codecrafters_redis_cpp.Rdb.RoundTrip.{FitsItems, IsVersion, parse_endless}

take_prefix : (n : ℕ) (s t : Bytes) → n ≤ length s → take n (s ++ t) ≡ take n s
take_prefix zero s t h = refl
take_prefix (suc n) [] t h = absurd (omega arith)
take_prefix (suc n) (c ∷ s) t h = ap (λ (r : Bytes). c ∷ r) (take_prefix n s t (omega arith))

drop_prefix : (n : ℕ) (s t : Bytes) → n ≤ length s → drop n (s ++ t) ≡ drop n s ++ t
drop_prefix zero s t h = refl
drop_prefix (suc n) [] t h = absurd (omega arith)
drop_prefix (suc n) (c ∷ s) t h = drop_prefix n s t (omega arith)

module _ (t : Bytes) where
  -- The second reader has `t` behind its bytes, and so behind what it leaves.
  abbrev Carries : {A : Type 0} → Expected (A × Bytes) → Expected (A × Bytes) → Type 0
  Carries (expected (a, rest)) p = p ≡ expected (a, rest ++ t)
  Carries (unexpected message) p = Unit

  bind-Carries :
      {A B : Type 0} (o p : Expected (A × Bytes)) (f : A × Bytes → Expected (B × Bytes))
      → Carries o p
      → ((a : A) (rest : Bytes) → Carries (f (a, rest)) (f (a, rest ++ t)))
      → Carries (o >>= f) (p >>= f)
  bind-Carries (expected (a, rest)) p f h k = rw h (k a rest)
  bind-Carries (unexpected message) p f h k = tt

  read_bytes-Carries :
      (count : ℕ) (s : Bytes) → Carries (read_bytes count s) (read_bytes count (s ++ t))
  unfolding read_bytes
  read_bytes-Carries count s = elim (Bool-cases (ltb (length s) count)) [
    | inl short ↦ rw short tt
    | inr enough ↦
        rw
          (
            enough,
            take_prefix count s t (ground (arith, enough)),
            drop_prefix count s t (ground (arith, enough)),
          )
          (ground (arith, enough, length-append s t))
  ]

  read_u32-Carries :
      (s : Bytes) → Carries (read_u32_little_endian s) (read_u32_little_endian (s ++ t))
  unfolding read_u32_little_endian
  read_u32-Carries s = bind-Carries (read_bytes 4 s) _ _ (read_bytes-Carries 4 s) λ a rest. refl

  read_u64-Carries :
      (s : Bytes) → Carries (read_u64_little_endian s) (read_u64_little_endian (s ++ t))
  unfolding read_u64_little_endian
  read_u64-Carries s = bind-Carries (read_bytes 8 s) _ _ (read_bytes-Carries 8 s) λ a rest. refl

  length_by-Carries :
      (first : ℕ) (s : Bytes) → Carries (length_by first s) (length_by first (s ++ t))
  length_by-Carries first [] = ground (arith, read_bytes-Carries 4 [], read_bytes-Carries 8 [])
  length_by-Carries first (c ∷ s) =
      ground (arith, read_bytes-Carries 4 (c ∷ s), read_bytes-Carries 8 (c ∷ s))

  read_length-Carries : (s : Bytes) → Carries (read_length s) (read_length (s ++ t))
  unfolding read_length
  read_length-Carries [] = tt
  read_length-Carries (c ∷ s) = length_by-Carries c s

  plain_length-Carries : (s : Bytes) → Carries (read_plain_length s) (read_plain_length (s ++ t))
  unfolding read_plain_length
  plain_length-Carries s =
      bind-Carries (read_length s) _ _ (read_length-Carries s) λ found rest. ground arith

  string_by-Carries :
      (found : Length) (s : Bytes) → Carries (string_by found s) (string_by found (s ++ t))
  string_by-Carries found [] =
      ground
        (arith, read_bytes-Carries found.value [], read_bytes-Carries 2 [], read_u32-Carries [])
  string_by-Carries found (c ∷ s) = ground (
    arith,
    read_bytes-Carries found.value (c ∷ s),
    read_bytes-Carries 2 (c ∷ s),
    read_u32-Carries (c ∷ s),
  )

  read_string-Carries : (s : Bytes) → Carries (read_string s) (read_string (s ++ t))
  unfolding read_string
  read_string-Carries s = bind-Carries (read_length s) _ _ (read_length-Carries s) string_by-Carries

  -- The same of a round.
  abbrev CarriesRound : Expected Round → Expected Round → Type 0
  CarriesRound (expected (continues rest pending entries)) p =
      p ≡ expected (continues (rest ++ t) pending entries)
  CarriesRound (expected (returns entries)) p = p ≡ expected (returns entries)
  CarriesRound (expected throws) p = p ≡ expected throws
  CarriesRound (unexpected message) p = Unit

  bind-CarriesRound :
      {A : Type 0} (o p : Expected (A × Bytes)) (f : A × Bytes → Expected Round)
      → Carries o p
      → ((a : A) (rest : Bytes) → CarriesRound (f (a, rest)) (f (a, rest ++ t)))
      → CarriesRound (o >>= f) (p >>= f)
  bind-CarriesRound (expected (a, rest)) p f h k = rw h (k a rest)
  bind-CarriesRound (unexpected message) p f h k = tt

  module _ (s : Bytes) (pending : Option ℕ) (entries : List StringEntry) where
    auxiliary-CarriesRound :
        CarriesRound (read_auxiliary s pending entries) (read_auxiliary (s ++ t) pending entries)
    auxiliary-CarriesRound =
        bind-CarriesRound (read_string s) _ _ (read_string-Carries s)
          λ key r. bind-CarriesRound (read_string r) _ _ (read_string-Carries r) λ value r'. refl

    entry-CarriesRound :
        CarriesRound (read_entry s pending entries) (read_entry (s ++ t) pending entries)
    entry-CarriesRound =
        bind-CarriesRound (read_string s) _ _ (read_string-Carries s)
          λ key r. bind-CarriesRound (read_string r) _ _ (read_string-Carries r) λ value r'. refl

    database-CarriesRound :
        CarriesRound (read_database s pending entries) (read_database (s ++ t) pending entries)
    database-CarriesRound =
        bind-CarriesRound (read_plain_length s) _ _ (plain_length-Carries s)
          λ database r. ground arith

    sizes-CarriesRound :
        (has_room : ℕ → Bool)
        → CarriesRound
            (read_sizes has_room s pending entries)
            (read_sizes has_room (s ++ t) pending entries)
    sizes-CarriesRound has_room =
        bind-CarriesRound (read_plain_length s) _ _ (plain_length-Carries s) λ key_count r.
          bind-CarriesRound (read_plain_length r) _ _ (plain_length-Carries r)
            λ expiring r'. by_room (leb key_count max_uint64 && not (has_room key_count)) r'
      where
        by_room :
            (b : Bool) (r : Bytes)
            → CarriesRound
                (expected (if b then throws else continues r pending entries))
                (expected (if b then throws else continues (r ++ t) pending entries))
        by_room true r = refl
        by_room false r = refl

    ms-CarriesRound :
        CarriesRound (read_expiration_ms s entries) (read_expiration_ms (s ++ t) entries)
    ms-CarriesRound =
        bind-CarriesRound (read_u64_little_endian s) _ _ (read_u64-Carries s) λ a r. refl

    seconds-CarriesRound :
        CarriesRound (read_expiration_seconds s entries) (read_expiration_seconds (s ++ t) entries)
    seconds-CarriesRound =
        bind-CarriesRound (read_u32_little_endian s) _ _ (read_u32-Carries s) λ a r. refl

    idle-CarriesRound :
        CarriesRound (read_idle s pending entries) (read_idle (s ++ t) pending entries)
    idle-CarriesRound =
        bind-CarriesRound (read_plain_length s) _ _ (plain_length-Carries s) λ a r. refl

  frequency-CarriesRound :
      (s : Bytes) (pending : Option ℕ) (entries : List StringEntry)
      → CarriesRound (read_frequency s pending entries) (read_frequency (s ++ t) pending entries)
  frequency-CarriesRound [] pending entries = tt
  frequency-CarriesRound (c ∷ s) pending entries = refl

  read_item-CarriesRound :
      (has_room : ℕ → Bool) (marker : ℕ) (s : Bytes) (pending : Option ℕ)
      (entries : List StringEntry)
      → CarriesRound
          (read_item has_room marker s pending entries)
          (read_item has_room marker (s ++ t) pending entries)
  unfolding read_item
  read_item-CarriesRound has_room marker s pending entries = ground (
    arith,
    auxiliary-CarriesRound s pending entries,
    entry-CarriesRound s pending entries,
    database-CarriesRound s pending entries,
    sizes-CarriesRound s pending entries has_room,
    ms-CarriesRound s pending entries,
    seconds-CarriesRound s pending entries,
    idle-CarriesRound s pending entries,
    frequency-CarriesRound s pending entries,
  )

after_item_append :
    (t : Bytes) (n : ℕ) (r r' : Expected Round) (f g : Bytes → Option ℕ → List StringEntry → Loaded)
    (loads : List StringEntry)
    → LeavesRound n r
    → CarriesRound t r r'
    → ((s : Bytes) (pending : Option ℕ) (entries : List StringEntry)
        → length s ≤ n
        → f s pending entries ≡ loaded loads
        → g (s ++ t) pending entries ≡ loaded loads)
    → after_item r f ≡ loaded loads
    → after_item r' g ≡ loaded loads
after_item_append t n (expected (continues s pending entries)) r' f g loads l h k e =
    rw h (k s pending entries l e)
after_item_append t n (expected (returns entries)) r' f g loads l h k e = rw h e
after_item_append t n (expected throws) r' f g loads l h k e = cc
after_item_append t n (unexpected message) r' f g loads l h k e = cc

module _ (has_room : ℕ → Bool) where
  parse_loop_append :
      (fuel more : ℕ) (s t : Bytes) (pending : Option ℕ) (entries loads : List StringEntry)
      → length (s ++ t) ≤ more
      → parse_loop has_room fuel s pending entries ≡ loaded loads
      → parse_loop has_room more (s ++ t) pending entries ≡ loaded loads
  unfolding parse_loop
  parse_loop_append fuel more [] t pending entries loads h e = cc
  parse_loop_append zero more (c ∷ s) t pending entries loads h e = cc
  parse_loop_append (suc fuel) zero (c ∷ s) t pending entries loads h e = absurd (omega arith)
  parse_loop_append (suc fuel) (suc more) (c ∷ s) t pending entries loads h e =
      after_item_append t (length s) (read_item has_room c s pending entries) _ _ _ loads
        (read_item-LeavesRound has_room c (length s) s pending entries (omega arith))
        (read_item-CarriesRound t has_room c s pending entries)
        (λ r p es l d.
          parse_loop_append fuel more r t p es loads
            (omega (arith, length-append r t, length-append s t)) d)
        e

  -- What `parse` does with a file of ten bytes or more.
  abbrev by_header : Bytes → Bytes → Loaded → Loaded
  by_header name version further =
      if not (str_eq name (codes "REDIS"))
      then refused (codes "Invalid RDB header")
      else if not (all_digits version)
      then refused (codes "Invalid RDB version")
      else further

  parse_short :
      (s : Bytes) → length s < 10 → parse has_room s ≡ refused (codes "Invalid RDB header")
  unfolding parse
  parse_short s h = ground arith

  parse_long :
      (s : Bytes)
      → 10 ≤ length s
      → parse has_room s
        ≡ by_header
            (take 5 s)
            (take 4 (drop 5 s))
            (parse_loop has_room (length (drop 9 s)) (drop 9 s) none [])
  unfolding parse read_bytes
  parse_long s h = rw (no_shorter 10 h, no_shorter 9 (omega arith)) refl
    where
      no_shorter : (n : ℕ) → n ≤ length s → ltb (length s) n ≡ false
      no_shorter n k = ground arith

  by_header_append :
      (name version : Bytes) (further further' : Loaded) (loads : List StringEntry)
      → (further ≡ loaded loads → further' ≡ loaded loads)
      → by_header name version further ≡ loaded loads
      → by_header name version further' ≡ loaded loads
  by_header_append name version further further' loads h e =
      by_tests (str_eq name (codes "REDIS")) (all_digits version) e
    where
      by_tests :
          (named numbered : Bool)
          → (if not named
              then refused (codes "Invalid RDB header")
              else if not numbered
              then refused (codes "Invalid RDB version")
              else further)
            ≡ loaded loads
          → (if not named
              then refused (codes "Invalid RDB header")
              else if not numbered
              then refused (codes "Invalid RDB version")
              else further')
            ≡ loaded loads
      by_tests false numbered d = cc
      by_tests true false d = cc
      by_tests true true d = h d

  append_long :
      (s t : Bytes) (loads : List StringEntry)
      → 10 ≤ length s
      → parse has_room s ≡ loaded loads
      → parse has_room (s ++ t) ≡ loaded loads
  append_long s t loads h e =
      rw
        (
          parse_long (s ++ t) (omega (arith, length-append s t)),
          take_prefix 5 s t (omega arith),
          drop_prefix 5 s t (omega arith),
          take_prefix 4 (drop 5 s) t (omega (arith, length-drop 5 s)),
          drop_prefix 9 s t (omega arith),
        )
        (by_header_append (take 5 s) (take 4 (drop 5 s)) _ _ loads
          (parse_loop_append (length (drop 9 s)) _ (drop 9 s) t none [] loads (omega arith))
          (sym (parse_long s h) ∙ e))

  -- Bytes behind the end marker of a file that loads make no difference.
  pub parse-append :
      (s t : Bytes) (loads : List StringEntry)
      → parse has_room s ≡ loaded loads
      → parse has_room (s ++ t) ≡ loaded loads
  parse-append s t loads e = elim (Bool-cases (ltb (length s) 10)) [
    | inl short ↦ absurd (refusal (sym e ∙ parse_short s (ground (arith, short))))
    | inr enough ↦ append_long s t loads (ground (arith, enough)) e
  ]
    where
      refusal : loaded loads ≢ refused (codes "Invalid RDB header")
      refusal d = cc

  -- A snapshot file that breaks off before its end marker never loads: no part of a well-formed file is
  -- taken for the whole, wherever it is cut.
  pub parse_torn :
      (version : Bytes) (items : List Item) (before after : Bytes) (loads : List StringEntry)
      → IsVersion version
      → FitsItems has_room items
      → codes "REDIS" ++ (version ++ write_items items) ≡ before ++ after
      → parse has_room before ≢ loaded loads
  parse_torn version items before after loads v h cut e = clash (
      sym (parse-append before (after ++ closing) loads e)
      ∙ ap (parse has_room) whole_file
      ∙ parse_endless has_room version items v h)
    where
      closing : Bytes
      closing = 254 ∷ 0 ∷ []

      whole_file :
          before ++ (after ++ closing)
          ≡ codes "REDIS" ++ (version ++ (write_items items ++ closing))
      whole_file =
          sym (append_assoc before after closing)
          ∙ ap (λ (s : Bytes). s ++ closing) (sym cut)
          ∙ append_assoc (codes "REDIS") (version ++ write_items items) closing
          ∙ ap (λ (s : Bytes). codes "REDIS" ++ s)
              (append_assoc version (write_items items) closing)

      clash : loaded loads ≢ refused (codes "RDB file is missing its end marker")
      clash d = cc
