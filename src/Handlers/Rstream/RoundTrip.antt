-- ===== src/Handlers/Rstream/RoundTrip.antt =====
-- Stream identifiers as src/rstream_types.hpp prints them and src/rstream.cpp reads them.
use codecrafters_redis_cpp.Prelude.{
  ℕ, ◌≤◌, ◌<◌, ◌≡◌, ◌≢◌, refl, false, Option, none, some, [], ◌∷◌, ◌++◌, arith, Bytes, codes,
  str_eq, Bool-cases, inl, inr, subst, append-nil, ◌∙◌,
}
use codecrafters_redis_cpp.Numeric.{max_uint64, to_string}
use codecrafters_redis_cpp.Numeric.RoundTrip.{
  All, IsDigit, Leads, to_string-Leads, whole-from_chars_bound, to_string-IsDigit,
  whole-from_chars-to_string,
}
use codecrafters_redis_cpp.Streams.{StreamId, id_to_string, IsId, IdRequest, explicit}
use codecrafters_redis_cpp.Handlers.Rstream.Parse.{
  parse_text_as_number, split_dash, parse_id, explicit_request, request_of, request_parts,
  parse_read_id, parse_range_start, parse_range_stop,
}

split_dash_lem :
    (before behind : Bytes)
    → All IsDigit before
    → split_dash (before ++ (b'-' ∷ behind)) ≡ some (before, behind)
unfolding split_dash
split_dash_lem [] behind h = refl
split_dash_lem (c ∷ before) behind (h, hs) = ground (arith, split_dash_lem before behind hs)

-- What stands in front of a dash is never a special identifier of one character, nor is a number.
not_special :
    (mark : ℕ) (before behind : Bytes)
    → All IsDigit before
    → mark < b'0'
    → behind ≢ []
    → str_eq (before ++ (b'-' ∷ behind)) (mark ∷ []) ≡ false
unfolding str_eq
not_special mark [] [] h k n = absurd (n refl)
not_special mark [] (c ∷ behind) h k n = ground arith
not_special mark (c ∷ before) behind (h, hs) k n = ground arith

number_not_special :
    (mark : ℕ) (text : Bytes) → All IsDigit text → mark < b'0' → str_eq text (mark ∷ []) ≡ false
unfolding str_eq
number_not_special mark [] h k = refl
number_not_special mark (c ∷ text) (h, hs) k = ground arith

to_string_nonempty : (n : ℕ) → to_string n ≢ []
to_string_nonempty n e = subst Leads (append-nil (to_string n) ∙ e) (to_string-Leads n [])

parse_text_as_number-to_string :
    (n : ℕ) → n ≤ max_uint64 → parse_text_as_number (to_string n) ≡ some n
unfolding parse_text_as_number
parse_text_as_number-to_string n h = whole-from_chars-to_string max_uint64 n h

-- The identifier of an entry, as XADD replies it and as it is logged, is read back as itself, both
-- parts explicit, by XADD, and by XREAD and by both ends of XRANGE.
pub parse_id-id_to_string :
    (id : StreamId)
    → IsId id
    → (parse_id (id_to_string id)
        ≡ some (record { mode = explicit; milliseconds = id.milliseconds; sequence = id.sequence }))
      × (parse_read_id (id_to_string id) ≡ some id)
      × (parse_range_start (id_to_string id) ≡ some id)
      × (parse_range_stop (id_to_string id) ≡ some id)
unfolding parse_id parse_read_id parse_range_start parse_range_stop id_to_string
parse_id-id_to_string id h =
    let digits = to_string-IsDigit id.milliseconds in
    let split = split_dash_lem (to_string id.milliseconds) (to_string id.sequence) digits in
    let special = λ (mark : ℕ) (k : mark < b'0').
      not_special mark (to_string id.milliseconds) (to_string id.sequence) digits k
        (to_string_nonempty id.sequence) in
    let left = parse_text_as_number-to_string id.milliseconds h.milliseconds in
    let right = parse_text_as_number-to_string id.sequence h.sequence in
    let sequence_special =
      number_not_special b'*' (to_string id.sequence) (to_string-IsDigit id.sequence)
        (omega arith) in
    (
      rw (special b'*' (omega arith), split, left, sequence_special, right) refl,
      rw (split, left, right) refl,
      rw (special b'-' (omega arith), split, left, right) refl,
      rw (special b'+' (omega arith), split, left, right) refl,
    )

-- A number that was read fits 64 bits.
parse_text_as_number_bound :
    (text : Bytes) {n : ℕ} → parse_text_as_number text ≡ some n → n ≤ max_uint64
unfolding parse_text_as_number
parse_text_as_number_bound text e = whole-from_chars_bound max_uint64 text e

abbrev pub RequestFits : Option IdRequest → Type 0
RequestFits none = Unit
RequestFits (some request) = (request.milliseconds ≤ max_uint64) × (request.sequence ≤ max_uint64)

-- The parts of an identifier that XADD accepts fit 64 bits.
pub parse_id-RequestFits : (text : Bytes) → RequestFits (parse_id text)
unfolding parse_id
parse_id-RequestFits text = elim (Bool-cases (str_eq text (codes "*"))) [
  | inl h ↦ rw h (omega arith)
  | inr h ↦ rw h (parts (split_dash text))
]
  where
    second :
        (m : ℕ) (behind : Bytes) (n : Option ℕ)
        → parse_text_as_number behind ≡ n
        → m ≤ max_uint64
        → RequestFits (explicit_request m n)
    second m behind none e h = tt
    second m behind (some n) e h = (h, parse_text_as_number_bound behind e)

    first :
        (before behind : Bytes) (m : Option ℕ)
        → parse_text_as_number before ≡ m
        → RequestFits (request_of behind m)
    first before behind none e = tt
    first before behind (some m) e =
        let bound = parse_text_as_number_bound before e in
        elim (Bool-cases (str_eq behind (codes "*"))) [
          | inl h ↦ rw h (bound, omega arith)
          | inr h ↦ rw h (second m behind (parse_text_as_number behind) refl bound)
        ]

    parts : (p : Option (Bytes × Bytes)) → RequestFits (request_parts p)
    parts none = tt
    parts (some (before, behind)) = first before behind (parse_text_as_number before) refl
