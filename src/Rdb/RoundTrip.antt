-- ===== src/Rdb/RoundTrip.antt =====
-- What `parse` of src/rdb.cpp gives for what was written.
use codecrafters_redis_cpp.Prelude.{
  ℕ, ◌*◌, ◌^◌, ◌<◌, ◌≡◌, refl, ap, subst, sym, ◌∙◌, Bool, true, false, Option, none, some, List, [],
  ◌∷◌, ◌++◌, arith, append_assoc, append-nil, Bytes, codes, str_eq, length, length-append,
  take-length, drop-length,
}
use codecrafters_redis_cpp.Prelude.Expected.{expected}
use codecrafters_redis_cpp.Rdb.{
  StringEntry, read_bytes, little_endian, read_u32_little_endian, read_u64_little_endian,
  big_endian, read_length, read_plain_length, read_string, string_by, continues, read_item, Loaded,
  loaded, refused, thrown, parse_loop, parse, all_digits,
}
use codecrafters_redis_cpp.Rdb.Ends.{LeavesRound, read_item-LeavesRound, parse_loop_fuel}
use codecrafters_redis_cpp.Rdb.Format.{
  low_first, high_first, write_length, Stored, plain, int8, int16, int32, text_of, write_string,
  FitsStored, Expiry, never, at_ms, at_seconds, write_expiry, FitsExpiry, expiry_ms, Item,
  auxiliary, select_database, sizes, entry, write_idle, write_frequency, write_item, write_items,
  FitsIdle, entries_of,
}

read_bytes-append : (s rest : Bytes) → read_bytes (length s) (s ++ rest) ≡ expected (s, rest)
unfolding read_bytes
read_bytes-append s rest =
    rw (take-length s rest, drop-length s rest) (ground (arith, length-append s rest))

read_u32-low_first :
    (n : ℕ) (rest : Bytes)
    → n < 2 ^ 32
    → read_u32_little_endian (low_first 4 n ++ rest) ≡ expected (n, rest)
unfolding read_u32_little_endian read_bytes little_endian low_first
read_u32-low_first n rest h = ground arith

read_u64-low_first :
    (n : ℕ) (rest : Bytes)
    → n < 2 ^ 64
    → read_u64_little_endian (low_first 8 n ++ rest) ≡ expected (n, rest)
unfolding read_u64_little_endian read_bytes little_endian low_first
read_u64-low_first n rest h = ground arith

read_length-write_length :
    (n : ℕ) (rest : Bytes)
    → n < 2 ^ 64
    → read_length (write_length n ++ rest) ≡ expected (record { value = n; encoded = false }, rest)
unfolding read_length write_length high_first read_bytes big_endian
read_length-write_length n rest h = ground arith

read_plain_length-write_length :
    (n : ℕ) (rest : Bytes)
    → n < 2 ^ 64
    → read_plain_length (write_length n ++ rest) ≡ expected (n, rest)
unfolding read_plain_length
read_plain_length-write_length n rest h = rw (read_length-write_length n rest h) refl

read_string-plain :
    (s rest : Bytes)
    → length s < 2 ^ 64
    → read_string (write_length (length s) ++ (s ++ rest)) ≡ expected (s, rest)
unfolding read_string
read_string-plain s rest h =
    rw (read_length-write_length (length s) (s ++ rest) h)
      (plain_form (length s) h ∙ read_bytes-append s rest)
  where
    plain_form :
        (n : ℕ)
        → n < 2 ^ 64
        → string_by (record { value = n; encoded = false }) (s ++ rest) ≡ read_bytes n (s ++ rest)
    plain_form n h = ground arith

-- Every form of a string is read back.
read_string-write_string :
    (stored : Stored) (rest : Bytes)
    → FitsStored stored
    → read_string (write_string stored ++ rest) ≡ expected (text_of stored, rest)
read_string-write_string (plain s) rest h =
    ap read_string (append_assoc (write_length (length s)) s rest) ∙ read_string-plain s rest h
read_string-write_string (int8 n) rest h = unfold read_string read_length in refl
read_string-write_string (int16 n) rest h =
    unfold read_string read_length read_bytes little_endian low_first in ground arith
read_string-write_string (int32 n) rest h =
    unfold read_string read_length low_first in rw (read_u32-low_first n rest h) refl

-- The loop from here on, with the fuel that it needs.
abbrev parse_from : (ℕ → Bool) → Bytes → Option ℕ → List StringEntry → Loaded
parse_from has_room s pending entries = parse_loop has_room (length s) s pending entries

abbrev FitsItem : (ℕ → Bool) → Item → Type 0
FitsItem has_room (auxiliary key value) = FitsStored key × FitsStored value
FitsItem has_room select_database = Unit
FitsItem has_room (sizes keys expiring) =
    (keys < 2 ^ 64) × (expiring < 2 ^ 64) × (has_room keys ≡ true)
FitsItem has_room (entry expiry idle frequency key value) =
    FitsExpiry expiry × FitsIdle idle × FitsStored key × FitsStored value

abbrev pub FitsItems : (ℕ → Bool) → List Item → Type 0
FitsItems has_room [] = Unit
FitsItems has_room (item ∷ items) = FitsItem has_room item × FitsItems has_room items

-- The four digits of the version.
abbrev pub IsVersion : Bytes → Type 0
IsVersion version = (length version ≡ 4) × (all_digits version ≡ true)

module _ (has_room : ℕ → Bool) where
  round :
      (marker : ℕ) (body rest : Bytes) (pending left : Option ℕ) (entries more : List StringEntry)
      → read_item has_room marker body pending entries ≡ expected (continues rest left more)
      → parse_from has_room (marker ∷ body) pending entries ≡ parse_from has_room rest left more
  unfolding parse_loop
  round marker body rest pending left entries more e = rw e (
      parse_loop_fuel has_room (length body) (length rest) rest left more
        (subst (LeavesRound (length body)) e
          (read_item-LeavesRound has_room marker (length body) body pending entries (omega arith)))
        (omega arith))

  expiry_round :
      (expiry : Expiry) (s : Bytes) (entries : List StringEntry)
      → FitsExpiry expiry
      → parse_from has_room (write_expiry expiry ++ s) none entries
        ≡ parse_from has_room s (expiry_ms expiry) entries
  expiry_round never s entries h = refl
  expiry_round (at_ms n) s entries h =
      round 252 _ s none (some n) entries entries
        (unfold read_item in rw (read_u64-low_first n s h) refl)
  expiry_round (at_seconds n) s entries h =
      round 253 _ s none (some (n * 1000)) entries entries
        (unfold read_item in rw (read_u32-low_first n s h) (ground arith))

  idle_round :
      (idle pending : Option ℕ) (s : Bytes) (entries : List StringEntry)
      → FitsIdle idle
      → parse_from has_room (write_idle idle ++ s) pending entries
        ≡ parse_from has_room s pending entries
  idle_round none pending s entries h = refl
  idle_round (some n) pending s entries h =
      round 248 _ s pending pending entries entries
        (unfold read_item in rw (read_plain_length-write_length n s h) refl)

  frequency_round :
      (frequency pending : Option ℕ) (s : Bytes) (entries : List StringEntry)
      → parse_from has_room (write_frequency frequency ++ s) pending entries
        ≡ parse_from has_room s pending entries
  frequency_round none pending s entries = refl
  frequency_round (some n) pending s entries =
      round 249 _ s pending pending entries entries (unfold read_item in refl)

  -- A key and its value, behind their marker.
  strings_back :
      (key value : Stored) (s : Bytes)
      → (write_string key ++ write_string value) ++ s
        ≡ write_string key ++ (write_string value ++ s)
  strings_back key value s = append_assoc (write_string key) (write_string value) s

  string_round :
      (key value : Stored) (pending : Option ℕ) (s : Bytes) (entries : List StringEntry)
      → FitsStored key
      → FitsStored value
      → parse_from has_room (0 ∷ ((write_string key ++ write_string value) ++ s)) pending entries
        ≡ parse_from has_room s none (
            entries
            ++ record { key = text_of key; value = text_of value; expires_at_unix_ms = pending }
              ∷ [])
  string_round key value pending s entries h k = round 0 _ s pending none entries _ (
      unfold read_item in
      rw
        (
          strings_back key value s,
          read_string-write_string key (write_string value ++ s) h,
          read_string-write_string value s k,
        )
        refl)

  auxiliary_round :
      (key value : Stored) (s : Bytes) (entries : List StringEntry)
      → FitsStored key
      → FitsStored value
      → parse_from has_room (250 ∷ ((write_string key ++ write_string value) ++ s)) none entries
        ≡ parse_from has_room s none entries
  auxiliary_round key value s entries h k = round 250 _ s none none entries entries (
      unfold read_item in
      rw
        (
          strings_back key value s,
          read_string-write_string key (write_string value ++ s) h,
          read_string-write_string value s k,
        )
        refl)

  sizes_round :
      (keys expiring : ℕ) (s : Bytes) (entries : List StringEntry)
      → keys < 2 ^ 64
      → expiring < 2 ^ 64
      → has_room keys ≡ true
      → parse_from has_room (251 ∷ ((write_length keys ++ write_length expiring) ++ s)) none entries
        ≡ parse_from has_room s none entries
  sizes_round keys expiring s entries h k room = round 251 _ s none none entries entries (
      unfold read_item in
      rw
        (
          append_assoc (write_length keys) (write_length expiring) s,
          read_plain_length-write_length keys (write_length expiring ++ s) h,
          read_plain_length-write_length expiring s k,
          room,
        )
        (ground arith))

  select_round :
      (s : Bytes) (entries : List StringEntry)
      → parse_from has_room (254 ∷ 0 ∷ s) none entries ≡ parse_from has_room s none entries
  select_round s entries =
      round 254 _ s none none entries entries
        (unfold read_item read_plain_length read_length in refl)

  entry_back :
      (expiry idle frequency key s : Bytes)
      → (expiry ++ (idle ++ (frequency ++ (0 ∷ key)))) ++ s
        ≡ expiry ++ (idle ++ (frequency ++ (0 ∷ (key ++ s))))
  entry_back expiry idle frequency key s =
      append_assoc expiry (idle ++ (frequency ++ (0 ∷ key))) s
      ∙ ap (λ (t : Bytes). expiry ++ t) (append_assoc idle (frequency ++ (0 ∷ key)) s)
      ∙ ap (λ (t : Bytes). expiry ++ (idle ++ t)) (append_assoc frequency (0 ∷ key) s)

  item_round :
      (item : Item) (s : Bytes) (entries : List StringEntry)
      → FitsItem has_room item
      → parse_from has_room (write_item item ++ s) none entries
        ≡ parse_from has_room s none (entries ++ entries_of (item ∷ []))
  item_round (auxiliary key value) s entries (h, k) =
      auxiliary_round key value s entries h k
      ∙ ap (parse_from has_room s none) (sym (append-nil entries))
  item_round select_database s entries h =
      select_round s entries ∙ ap (parse_from has_room s none) (sym (append-nil entries))
  item_round (sizes keys expiring) s entries (h, k, room) =
      sizes_round keys expiring s entries h k room
      ∙ ap (parse_from has_room s none) (sym (append-nil entries))
  item_round (entry expiry idle frequency key value) s entries (h, k, l, m) =
      let strings = write_string key ++ write_string value in
      ap (λ (t : Bytes). parse_from has_room t none entries)
        (entry_back (write_expiry expiry) (write_idle idle) (write_frequency frequency) strings s)
      ∙ expiry_round expiry _ entries h
      ∙ idle_round idle (expiry_ms expiry) _ entries k
      ∙ frequency_round frequency (expiry_ms expiry) _ entries
      ∙ string_round key value (expiry_ms expiry) s entries l m

  entries_of_first :
      (item : Item) (items : List Item)
      → entries_of (item ∷ []) ++ entries_of items ≡ entries_of (item ∷ items)
  entries_of_first (auxiliary key value) items = refl
  entries_of_first select_database items = refl
  entries_of_first (sizes keys expiring) items = refl
  entries_of_first (entry expiry idle frequency key value) items = refl

  items_round :
      (items : List Item) (s : Bytes) (entries : List StringEntry)
      → FitsItems has_room items
      → parse_from has_room (write_items items ++ s) none entries
        ≡ parse_from has_room s none (entries ++ entries_of items)
  items_round [] s entries h = ap (parse_from has_room s none) (sym (append-nil entries))
  items_round (item ∷ items) s entries (h, k) =
      ap (λ (t : Bytes). parse_from has_room t none entries)
        (append_assoc (write_item item) (write_items items) s)
      ∙ item_round item (write_items items ++ s) entries h
      ∙ items_round items s (entries ++ entries_of (item ∷ [])) k
      ∙ ap (parse_from has_room s none) (
          append_assoc entries (entries_of (item ∷ [])) (entries_of items)
          ∙ ap (λ (es : List StringEntry). entries ++ es) (entries_of_first item items))

  header_round :
      (version body : Bytes)
      → IsVersion version
      → 0 < length body
      → parse has_room (codes "REDIS" ++ (version ++ body)) ≡ parse_from has_room body none []
  unfolding parse read_bytes str_eq
  header_round (a ∷ b ∷ c ∷ d ∷ []) body (h, k) l = ground (arith, k)
  header_round [] body (h, k) l = absurd (omega arith)
  header_round (a ∷ []) body (h, k) l = absurd (omega arith)
  header_round (a ∷ b ∷ []) body (h, k) l = absurd (omega arith)
  header_round (a ∷ b ∷ c ∷ []) body (h, k) l = absurd (omega arith)
  header_round (a ∷ b ∷ c ∷ d ∷ e ∷ version) body (h, k) l = absurd (omega arith)

  -- A snapshot file gives its entries in their order: behind the header, items whose strings, lengths
  -- and times fit their fields and whose announced sizes get their memory, in any order and number,
  -- then the end marker and any checksum. Strings may be stored as integers, and expiry in either unit.
  pub parse-write_items :
      (version : Bytes) (items : List Item) (checksum : Bytes)
      → IsVersion version
      → FitsItems has_room items
      → parse has_room (codes "REDIS" ++ (version ++ (write_items items ++ (255 ∷ checksum))))
        ≡ loaded (entries_of items)
  unfolding parse_loop read_item
  parse-write_items version items checksum v h =
      header_round version (write_items items ++ (255 ∷ checksum)) v
        (omega (arith, length-append (write_items items) (255 ∷ checksum)))
      ∙ items_round items (255 ∷ checksum) [] h

  -- Items with no end marker behind them.
  pub parse_endless :
      (version : Bytes) (items : List Item)
      → IsVersion version
      → FitsItems has_room items
      → parse has_room (codes "REDIS" ++ (version ++ (write_items items ++ (254 ∷ 0 ∷ []))))
        ≡ refused (codes "RDB file is missing its end marker")
  unfolding parse_loop
  parse_endless version items v h =
      header_round version (write_items items ++ (254 ∷ 0 ∷ [])) v
        (omega (arith, length-append (write_items items) (254 ∷ 0 ∷ [])))
      ∙ items_round items (254 ∷ 0 ∷ []) [] h
      ∙ select_round [] (entries_of items)

  -- A file whose announced size does not get its memory is no error: `reserve` throws.
  pub parse_thrown :
      (version : Bytes) (items : List Item) (keys expiring : ℕ) (rest : Bytes)
      → IsVersion version
      → FitsItems has_room items
      → keys < 2 ^ 64
      → expiring < 2 ^ 64
      → has_room keys ≡ false
      → parse has_room (
          codes "REDIS"
          ++ (version ++ (write_items items ++ (write_item (sizes keys expiring) ++ rest))))
        ≡ thrown
  unfolding parse_loop read_item
  parse_thrown version items keys expiring rest v h k l no_room =
      header_round version (write_items items ++ (write_item (sizes keys expiring) ++ rest)) v (
        omega (arith, length-append (write_items items) (write_item (sizes keys expiring) ++ rest)))
      ∙ items_round items (write_item (sizes keys expiring) ++ rest) [] h
      ∙ rw
          (
            append_assoc (write_length keys) (write_length expiring) rest,
            read_plain_length-write_length keys (write_length expiring ++ rest) k,
            read_plain_length-write_length expiring rest l,
            no_room,
          )
          (ground arith)
