-- ===== src/Handlers/Time.antt =====
-- src/utils/time.cpp: the numbers that stand for times in commands.
use codecrafters_redis_cpp.Prelude.{
  Bool, Option, none, some, [], ◌∷◌, ◌||◌, not, if◌then◌else◌, Bytes,
}
use codecrafters_redis_cpp.Prelude.Int.{ℤ, pos, ltb_ℤ, leb_ℤ}
use codecrafters_redis_cpp.Numeric.{max_int64, from_chars_signed, whole}

abbrev pub positive_only : Option ℤ → Option ℤ
positive_only none = none
positive_only (some n) = if leb_ℤ n (pos 0) then none else some n

unfoldable pub parse_expiry : Bytes → Option ℤ
parse_expiry text = positive_only (whole (from_chars_signed max_int64 text))

abbrev pub not_negative : Option ℤ → Option ℤ
not_negative none = none
not_negative (some n) = if ltb_ℤ n (pos 0) then none else some n

unfoldable pub parse_stream_blocking_timeout : Bytes → Option ℤ
parse_stream_blocking_timeout text = not_negative (whole (from_chars_signed max_int64 text))

-- `double`, as far as the timeout of BLPOP needs it.
pub record Doubles : Type 1 where
  pub Double : Type 0
  -- `std::from_chars` in the general format: the value and the unread text
  pub from_chars_double : Bytes → Option (Double × Bytes)
  pub is_finite : Double → Bool
  pub is_negative : Double → Bool
  pub is_positive : Double → Bool
  -- `duration_cast<milliseconds>` of so many seconds
  pub to_milliseconds : Double → ℤ

module _ (F : Doubles) where
  open F use {Double, from_chars_double, is_finite, is_negative}

  abbrev usable : Option Double → Option Double
  usable none = none
  usable (some seconds) =
      if not (is_finite seconds) || is_negative seconds then none else some seconds

  unfoldable pub parse_blocking_timeout : Bytes → Option Double
  parse_blocking_timeout [] = none
  parse_blocking_timeout (c ∷ text) = usable (whole (from_chars_double (c ∷ text)))
