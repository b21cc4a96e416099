-- ===== src/Numeric.antt =====
-- `std::to_string` and `std::from_chars` of the standard library, on which the program's parsers of
-- lengths, indexes, identifiers and counters stand. Their laws are in the children.
pub mod RoundTrip
use codecrafters_redis_cpp.Prelude.{
  ℕ, zero, suc, ◌+◌, ◌-◌, ◌*◌, ◌/◌, ◌%◌, ◌^◌, Bool, true, false, ◌&&◌, Option, none, some, List, [],
  ◌∷◌, ltb, leb, ◌==◌, if◌then◌else◌, Bytes,
}
use codecrafters_redis_cpp.Prelude.Int.{ℤ, pos, negsuc}

abbrev pub max_uint64 : ℕ
max_uint64 = 2 ^ 64 - 1

abbrev pub max_int64 : ℕ
max_int64 = 2 ^ 63 - 1

abbrev pub max_int32 : ℕ
max_int32 = 2 ^ 31 - 1

-- The digits of `n` in front of `out`. Each round divides by ten, so `n` rounds are enough.
digits : ℕ → ℕ → Bytes → Bytes
digits zero n out = out
digits (suc fuel) n out =
    let more = digits fuel (n / 10) ((b'0' + n % 10) ∷ out) in if n == 0 then out else more

-- `std::to_string` of an unsigned number.
unfoldable pub to_string : ℕ → Bytes
unfolding digits
to_string n = if n == 0 then b'0' ∷ [] else digits n n []

-- `std::to_string` of a signed number.
unfoldable pub to_string_ℤ : ℤ → Bytes
unfolding to_string
to_string_ℤ (pos n) = to_string n
to_string_ℤ (negsuc n) = b'-' ∷ to_string (suc n)

abbrev pub is_digit : ℕ → Bool
is_digit c = leb b'0' c && leb c b'9'

-- The value of the leading digits behind `n`, and what follows them.
pub scan : Bytes → ℕ → ℕ × Bytes
scan [] n = (n, [])
scan (c ∷ s) n =
    let further = scan s (n * 10 + (c - b'0')) in if is_digit c then further else (n, c ∷ s)

-- A value beyond `limit` is `errc::result_out_of_range`, for which `none` stands as well.
abbrev pub within : ℕ → ℕ × Bytes → Option (ℕ × Bytes)
within limit (n, rest) = if ltb limit n then none else some (n, rest)

-- `from_chars` into an unsigned type whose largest value is `limit`: the value and the unread text.
unfoldable pub from_chars : ℕ → Bytes → Option (ℕ × Bytes)
unfolding scan
from_chars limit [] = none
from_chars limit (c ∷ s) = if is_digit c then within limit (scan (c ∷ s) 0) else none

abbrev pub negate : ℕ → ℤ
negate zero = pos 0
negate (suc n) = negsuc n

abbrev pub signed : (ℕ → ℤ) → Option (ℕ × Bytes) → Option (ℤ × Bytes)
signed f none = none
signed f (some (n, rest)) = some (f n, rest)

-- `from_chars` into a signed type whose values lie between `-limit - 1` and `limit`.
unfoldable pub from_chars_signed : ℕ → Bytes → Option (ℤ × Bytes)
unfolding from_chars
from_chars_signed limit [] = none
from_chars_signed limit (c ∷ s) =
    if c == b'-'
    then signed negate (from_chars (limit + 1) s)
    else signed pos (from_chars limit (c ∷ s))

-- The tests `error != errc{}` and `end != text.data() + text.size()` of the callers.
unfoldable pub whole {ℓ} : {A : Type ℓ} → Option (A × Bytes) → Option A
whole none = none
whole (some (a, [])) = some a
whole (some (a, c ∷ rest)) = none
