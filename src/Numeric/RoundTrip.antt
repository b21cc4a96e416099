-- ===== src/Numeric/RoundTrip.antt =====
-- Reading back what `std::to_string` writes, and the characters that it writes.
use codecrafters_redis_cpp.Prelude.{
  ℕ, zero, suc, ◌+◌, ◌/◌, ◌%◌, ◌≤◌, ◌≡◌, refl, ap, sym, true, false, some, [], ◌∷◌, ◌++◌,
  append-nil, arith, ◌==◌, Bytes, Bool-cases, inl, inr, ltb, if◌then◌else◌, none, Bool,
}
use codecrafters_redis_cpp.Prelude.Int.{ℤ, pos, negsuc, IsInt64}
use codecrafters_redis_cpp.Numeric.{
  max_int64, digits, to_string, to_string_ℤ, is_digit, scan, from_chars, from_chars_signed, whole,
  within, signed,
}

abbrev pub All : (ℕ → Type 0) → Bytes → Type 0
All P [] = Unit
All P (x ∷ xs) = P x × All P xs

abbrev pub IsDigit : ℕ → Type 0
IsDigit c = (b'0' ≤ c) × (c ≤ b'9')

digits-IsDigit : (f n : ℕ) (out : Bytes) → All IsDigit out → All IsDigit (digits f n out)
unfolding digits
digits-IsDigit zero n out h = h
digits-IsDigit (suc f) n out h =
    ground (arith, digits-IsDigit f (n / 10) ((b'0' + n % 10) ∷ out) (omega arith, h))

pub to_string-IsDigit : (n : ℕ) → All IsDigit (to_string n)
unfolding to_string
to_string-IsDigit n = elim (Bool-cases (n == 0)) [
  | inl e ↦ rw e (omega arith)
  | inr e ↦ rw e (digits-IsDigit n n [] tt)
]

scan_last : (n : ℕ) (out : Bytes) → scan ((b'0' + n % 10) ∷ out) (n / 10) ≡ scan out n
unfolding scan
scan_last n out = ground arith

-- Reading the digits of `n` brings the scan to where it stands behind them.
scan-digits : (f n : ℕ) (out : Bytes) → n ≤ f → scan (digits f n out) 0 ≡ scan out n
unfolding digits
scan-digits zero n out h = ap (scan out) (omega arith)
scan-digits (suc f) n out h =
    ground (arith, scan-digits f (n / 10) ((b'0' + n % 10) ∷ out), scan_last n out)

digits-append : (f n : ℕ) (out rest : Bytes) → digits f n out ++ rest ≡ digits f n (out ++ rest)
unfolding digits
digits-append zero n out rest = refl
digits-append (suc f) n out rest =
    ground (arith, digits-append f (n / 10) ((b'0' + n % 10) ∷ out) rest)

-- The text behind a number does not begin with a digit.
abbrev pub Ends : Bytes → Type 0
Ends [] = Unit
Ends (c ∷ s) = is_digit c ≡ false

scan_end : (rest : Bytes) (n : ℕ) → Ends rest → scan rest n ≡ (n, rest)
unfolding scan
scan_end [] n h = refl
scan_end (c ∷ s) n h = rw h

pub scan-to_string : (n : ℕ) (rest : Bytes) → Ends rest → scan (to_string n ++ rest) 0 ≡ (n, rest)
unfolding to_string
scan-to_string n rest h = elim (Bool-cases (n == 0)) [
  | inl e ↦ rw e (unfold scan in ground (arith, h))
  | inr e ↦
      rw (e, digits-append n n [] rest, scan-digits n n rest (omega arith)) (scan_end rest n h)
]

-- The text begins with a digit.
abbrev pub Leads : Bytes → Type 0
Leads [] = ⊥
Leads (c ∷ s) = is_digit c ≡ true

digits-Leads : (f n : ℕ) (out : Bytes) → Leads out → Leads (digits f n out)
unfolding digits
digits-Leads zero n out h = h
digits-Leads (suc f) n out h =
    ground (arith, digits-Leads f (n / 10) ((b'0' + n % 10) ∷ out) (ground arith))

Leads-append : (s rest : Bytes) → Leads s → Leads (s ++ rest)
Leads-append [] rest h = absurd h
Leads-append (c ∷ s) rest h = h

suc-ne-zero : (n : ℕ) → (suc n == 0) ≡ false
suc-ne-zero n = ground arith

pub to_string-Leads : (n : ℕ) (rest : Bytes) → Leads (to_string n ++ rest)
unfolding to_string digits
to_string-Leads zero rest = refl
to_string-Leads (suc n) rest =
    rw (suc-ne-zero n)
      (Leads-append _ rest (digits-Leads n (suc n / 10) ((b'0' + suc n % 10) ∷ []) (ground arith)))

from_chars-scan : (limit : ℕ) (s : Bytes) → Leads s → from_chars limit s ≡ within limit (scan s 0)
unfolding from_chars
from_chars-scan limit [] h = absurd h
from_chars-scan limit (c ∷ s) h = rw h

pub from_chars-to_string :
    (limit n : ℕ) (rest : Bytes)
    → n ≤ limit
    → Ends rest
    → from_chars limit (to_string n ++ rest) ≡ some (n, rest)
from_chars-to_string limit n rest h e =
    rw (from_chars-scan limit _ (to_string-Leads n rest), scan-to_string n rest e) (ground arith)

-- A sign is no digit.
from_chars_signed_digit :
    (limit : ℕ) (s : Bytes) → Leads s → from_chars_signed limit s ≡ signed pos (from_chars limit s)
unfolding from_chars_signed
from_chars_signed_digit limit [] h = absurd h
from_chars_signed_digit limit (c ∷ s) h = ground arith

-- Every number that fits an unsigned type of `limit` is read back from its print, as the whole text.
pub whole-from_chars-to_string :
    (limit n : ℕ) → n ≤ limit → whole (from_chars limit (to_string n)) ≡ some n
unfolding whole
whole-from_chars-to_string limit n h =
    rw (sym (append-nil (to_string n)), from_chars-to_string limit n [] h tt) refl

pub whole-from_chars_signed-to_string_ℤ :
    (z : ℤ) → IsInt64 z → whole (from_chars_signed max_int64 (to_string_ℤ z)) ≡ some z
unfolding to_string_ℤ whole
whole-from_chars_signed-to_string_ℤ (pos n) h =
    rw
      (
        sym (append-nil (to_string n)),
        from_chars_signed_digit max_int64 _ (to_string-Leads n []),
        from_chars-to_string max_int64 n [] (omega arith) tt,
      )
      refl
whole-from_chars_signed-to_string_ℤ (negsuc n) h =
    unfold from_chars_signed in
    rw
      (
        sym (append-nil (to_string (suc n))),
        from_chars-to_string (max_int64 + 1) (suc n) [] (omega arith) tt,
      )
      refl

-- What is read into a type of the largest value `limit` is not above it.
pub whole-from_chars_bound :
    (limit : ℕ) (text : Bytes) {n : ℕ} → whole (from_chars limit text) ≡ some n → n ≤ limit
unfolding from_chars whole scan
whole-from_chars_bound limit [] e = cc
whole-from_chars_bound limit (c ∷ text) {n} e = go (is_digit c) (scan (c ∷ text) 0) e
  where
    ended : (m : ℕ) (rest : Bytes) → m ≤ limit → whole (some (m, rest)) ≡ some n → n ≤ limit
    ended m [] h p = ground arith
    ended m (d ∷ rest) h p = cc

    go :
        (digit : Bool) (read : ℕ × Bytes)
        → whole (if digit then within limit read else none) ≡ some n
        → n ≤ limit
    go false read p = cc
    go true (m, rest) p = elim (Bool-cases (ltb limit m)) [
      | inl h ↦ cc (rw h at p)
      | inr h ↦ ended m rest (ground arith) (rw h at p)
    ]
