-- ===== src/Handlers.antt =====
-- What the command handlers of src/commands.cpp, src/rlist.cpp and src/rstream.cpp share: the words
-- of a command, the readings of the clocks, and the outcome of a handler.
pub mod Time
pub mod Strings
pub mod Rlist
pub mod Rstream
mod Tests
use codecrafters_redis_cpp.Prelude.{◌≤◌, ℕ, List, [], Bytes, codes, get_or}
use codecrafters_redis_cpp.Prelude.Int.{ℤ}
use codecrafters_redis_cpp.Resp.{Command}
use codecrafters_redis_cpp.Resp.Reply.{Response, simple_error}
use codecrafters_redis_cpp.Database.{Database}

-- `command[i]`, which the handlers read only where the size that they have checked allows.
abbrev pub word : Command → ℕ → Bytes
word command i = get_or command i []

-- What a handler reads from the clocks: `steady` in nanoseconds; at each lookup of the two loops of
-- XREAD; and the milliseconds since the epoch. No handler reads `ended`, the steady clock when it has
-- replied.
pub record Clock : Type 0 where
  pub steady : ℕ
  pub first_reads : ℕ → ℕ
  pub second_reads : ℕ → ℕ
  pub ended : ℕ
  pub unix_ms : ℕ

-- The steady clock does not run back.
pub record InOrder (clock : Clock) : Type 0 where
  pub start : clock.steady ≤ clock.ended
  pub first : (n : ℕ) → clock.first_reads n ≤ clock.ended
  pub second : (n : ℕ) → clock.second_reads n ≤ clock.ended

-- A reply with the database that is left, or undefined behaviour.
pub data Outcome : Type 0 where
  replied : Response → Database → Outcome
  undefined : Outcome

abbrev pub wrong_type_error : Response
wrong_type_error =
    simple_error (codes "WRONGTYPE Operation against a key holding the wrong kind of value")

-- `std::expected<A, resp::SimpleError>`
pub data Parsed (A : Type 0) : Type 0 where
  parsed : A → Parsed A
  refused : Bytes → Parsed A

infixl 5 ◌>>=◌
abbrev pub ◌>>=◌ : {A B : Type 0} → Parsed A → (A → Parsed B) → Parsed B
parsed a >>= f = f a
refused message >>= f = refused message
