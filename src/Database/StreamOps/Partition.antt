-- ===== src/Database/StreamOps/Partition.antt =====
-- The halving search over the entries of a stream (`Search`), against positions.
use codecrafters_redis_cpp.Prelude.{
  ℕ, zero, suc, ◌+◌, ◌-◌, ◌/◌, ◌≤◌, ◌<◌, ◌≡◌, inl, inr, refl, Bool, true, false, List, [], ◌∷◌,
  arith, ◌==◌, Bool-cases, length,
}
use codecrafters_redis_cpp.Streams.{StreamId, id_lt, StreamEntry}
use codecrafters_redis_cpp.Database.StreamOps.Search.{holds_at, halve, partition_point}

-- Every identifier is above `id`.
abbrev pub Above : StreamId → List StreamEntry → Type 0
Above id [] = Unit
Above id (entry ∷ entries) = (id_lt id entry.id ≡ true) × Above id entries

-- Identifiers grow strictly.
abbrev pub IsSorted : List StreamEntry → Type 0
IsSorted [] = Unit
IsSorted (entry ∷ entries) = Above entry.id entries × IsSorted entries

-- What holds of a later entry holds of the ones before it.
abbrev pub Falls : (StreamId → Bool) → List StreamEntry → Type 0
Falls before entries =
    (i j : ℕ) → i ≤ j → holds_at before entries j ≡ true → holds_at before entries i ≡ true

module _ (before : StreamId → Bool) (entries : List StreamEntry) where
  -- `before` holds at the positions below `p`, and at no other.
  pub record SplitsAt (p : ℕ) : Type 0 where
    pub within : p ≤ length entries
    pub below : (i : ℕ) → i < p → holds_at before entries i ≡ true
    pub behind : (i : ℕ) → p ≤ i → holds_at before entries i ≡ false

  -- What the search knows when `first` and `len` are left.
  record Searching (first len : ℕ) : Type 0 where
    within : first + len ≤ length entries
    below : (i : ℕ) → i < first → holds_at before entries i ≡ true
    behind : (i : ℕ) → first + len ≤ i → holds_at before entries i ≡ false

  module _ (falls : Falls before entries) where
    step_ahead :
        (first len half : ℕ)
        → half < len
        → holds_at before entries (first + half) ≡ true
        → Searching first len
        → Searching (first + half + 1) (len - half - 1)
    step_ahead first len half h e s = record {
      within = omega (arith, s.within);
      below = λ i p. falls i (first + half) (omega arith) e;
      behind = λ i p. s.behind i (omega arith);
    }

    step_back :
        (first len half : ℕ)
        → half < len
        → holds_at before entries (first + half) ≡ false
        → Searching first len
        → Searching first half
    step_back first len half h e s = record {
      within = omega (arith, s.within);
      below = s.below;
      behind = λ i p. elim (Bool-cases (holds_at before entries i)) [
        | inl t ↦ cc (falls (first + half) i p t)
        | inr f ↦ f
      ];
    }

    halve-SplitsAt :
        (fuel first len : ℕ)
        → len ≤ fuel
        → Searching first len
        → SplitsAt (halve fuel before entries first len)
    unfolding halve
    halve-SplitsAt zero first len h s = record {
      within = omega (arith, s.within);
      below = s.below;
      behind = λ i p. s.behind i (omega arith);
    }
    halve-SplitsAt (suc fuel) first len h s = elim (Bool-cases (len == 0)) [
      | inl e ↦ rw e (record {
        within = omega (arith, s.within);
        below = s.below;
        behind = λ i p. s.behind i (ground arith);
      })
      | inr e ↦ rw e (elim (Bool-cases (holds_at before entries (first + len / 2))) [
        | inl t ↦ rw t (
            halve-SplitsAt fuel _ _ (ground arith)
              (step_ahead first len (len / 2) (ground arith) t s))
        | inr f ↦ rw f (
            halve-SplitsAt fuel _ _ (ground arith)
              (step_back first len (len / 2) (ground arith) f s))
      ])
    ]

    pub partition_point-SplitsAt : SplitsAt (partition_point before entries)
    unfolding partition_point
    partition_point-SplitsAt =
        halve-SplitsAt (length entries) 0 (length entries) (omega arith) (record {
          within = omega arith;
          below = λ i h. absurd (omega arith);
          behind = λ i h. none_at entries i (omega arith);
        })
      where
        none_at : (es : List StreamEntry) (i : ℕ) → length es ≤ i → holds_at before es i ≡ false
        none_at [] i h = refl
        none_at (e ∷ es) zero h = absurd (omega arith)
        none_at (e ∷ es) (suc i) h = none_at es i (omega arith)
