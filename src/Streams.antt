-- ===== src/Streams.antt =====
-- src/rstream_types.hpp: identifiers of stream entries, and the requests of XADD and XREAD.
use codecrafters_redis_cpp.Prelude.{
  ℕ, ◌≤◌, ◌≡◌, Bool, true, ◌&&◌, ◌||◌, List, ◌∷◌, ◌++◌, arith, ltb, ◌==◌, Bytes, not,
}
use codecrafters_redis_cpp.Numeric.{to_string, max_uint64}

pub record StreamId : Type 0 where
  pub milliseconds : ℕ
  pub sequence : ℕ

abbrev pub zero_id : StreamId
zero_id = record { milliseconds = 0; sequence = 0 }

-- The defaulted `operator<=>`: the first member decides, then the second.
unfoldable pub id_lt : StreamId → StreamId → Bool
id_lt a b =
    ltb a.milliseconds b.milliseconds
    || ((a.milliseconds == b.milliseconds) && ltb a.sequence b.sequence)

unfoldable pub id_le : StreamId → StreamId → Bool
unfolding id_lt
id_le a b = not (id_lt b a)

unfoldable pub id_to_string : StreamId → Bytes
id_to_string id = to_string id.milliseconds ++ (b'-' ∷ to_string id.sequence)

-- Both members are `uint64_t`.
pub record IsId (id : StreamId) : Type 0 where
  pub milliseconds : id.milliseconds ≤ max_uint64
  pub sequence : id.sequence ≤ max_uint64

pub record StreamEntry : Type 0 where
  pub id : StreamId
  pub values : List (Bytes × Bytes)

pub data IdMode : Type 0 where
  automatic automatic_sequence explicit : IdMode

pub record IdRequest : Type 0 where
  pub mode : IdMode
  pub milliseconds : ℕ
  pub sequence : ℕ

pub data ReadMode : Type 0 where
  immediate block_indefinitely block_with_timeout : ReadMode

pub record ReadOptions : Type 0 where
  pub mode : ReadMode
  pub timeout : ℕ

pub data ReadStartMode : Type 0 where
  after latest : ReadStartMode

pub record ReadRequest : Type 0 where
  pub key : Bytes
  pub start_mode : ReadStartMode
  pub after_id : StreamId

pub record ReadCommand : Type 0 where
  pub requests : List ReadRequest
  pub options : ReadOptions

pub record ReadResult : Type 0 where
  pub key : Bytes
  pub entries : List StreamEntry

pub id_lt_trans : (a b c : StreamId) → id_lt a b ≡ true → id_lt b c ≡ true → id_lt a c ≡ true
unfolding id_lt
id_lt_trans a b c h k = ground arith
