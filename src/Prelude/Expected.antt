-- ===== src/Prelude/Expected.antt =====
-- `std::expected<A, std::string>`: a value, or the text of an error.
use codecrafters_redis_cpp.Prelude.{Bytes}

pub data Expected (A : Type 0) : Type 0 where
  expected : A → Expected A
  unexpected : Bytes → Expected A

-- What follows a test `if (!value) return std::unexpected(value.error())`.
infixl 5 ◌>>=◌
abbrev pub ◌>>=◌ : {A B : Type 0} → Expected A → (A → Expected B) → Expected B
expected a >>= f = f a
unexpected message >>= f = unexpected message
