-- ===== src/Processor/Subscriptions/Sets.antt =====
-- `std::unordered_set` as a list without repetition, and maps to such sets.
use codecrafters_redis_cpp.Prelude.{
  ◌≡◌, Bool, false, ◌&&◌, ◌||◌, not, Option, none, some, List, [], ◌∷◌, ◌++◌, arith, if◌then◌else◌,
}
use codecrafters_redis_cpp.Prelude.Map.{Map, Eq, find, insert, erase, find-insert, find-erase}

module _ {K : Type 0} ⦃e : Eq K⦄ where
  unfoldable pub member : K → List K → Bool
  member k [] = false
  member k (j ∷ set) = e.beq j k || member k set

  -- `insert`
  unfoldable pub add : K → List K → List K
  add k set = if member k set then set else set ++ k ∷ []

  -- `erase`
  unfoldable pub remove : K → List K → List K
  remove k [] = []
  remove k (j ∷ set) = let rest = remove k set in if e.beq j k then rest else j ∷ rest

  member-append : (k j : K) (set : List K) → member k (set ++ j ∷ []) ≡ (member k set || e.beq j k)
  unfolding member
  member-append k j [] = ground arith
  member-append k j (i ∷ set) = ground (arith, member-append k j set)

  pub member-add : (k j : K) (set : List K) → member k (add j set) ≡ (e.beq j k || member k set)
  unfolding add
  member-add k j set = ground (arith, member-append k j set, e.beq_iff j k)

  pub member-remove :
      (k j : K) (set : List K) → member k (remove j set) ≡ (not (e.beq j k) && member k set)
  unfolding member remove
  member-remove k j [] = ground arith
  member-remove k j (i ∷ set) =
      ground (arith, member-remove k j set, e.beq_iff i j, e.beq_iff i k, e.beq_iff j k)

abbrev or_empty : {V : Type 0} → Option (List V) → List V
or_empty none = []
or_empty (some set) = set

module _ {K V : Type 0} ⦃e : Eq K⦄ where
  -- The set of a key, empty if the key is missing.
  unfoldable pub set_of : K → Map K (List V) → List V
  set_of k m = or_empty (find k m)

  -- A set that has become empty is erased.
  unfoldable pub put_or_erase : K → List V → Map K (List V) → Map K (List V)
  put_or_erase k [] m = erase k m
  put_or_erase k (v ∷ set) m = insert k (v ∷ set) m

  pub set_of-insert :
      (k j : K) (set : List V) (m : Map K (List V))
      → set_of j (insert k set m) ≡ (if e.beq k j then set else set_of j m)
  unfolding set_of
  set_of-insert k j set m = ground (arith, find-insert k j set m)

  pub set_of-erase :
      (k j : K) (m : Map K (List V)) → set_of j (erase k m) ≡ (if e.beq k j then [] else set_of j m)
  unfolding set_of
  set_of-erase k j m = ground (arith, find-erase k j m)

  pub set_of-put_or_erase :
      (k j : K) (set : List V) (m : Map K (List V))
      → set_of j (put_or_erase k set m) ≡ (if e.beq k j then set else set_of j m)
  unfolding put_or_erase
  set_of-put_or_erase k j [] m = set_of-erase k j m
  set_of-put_or_erase k j (v ∷ set) m = set_of-insert k j (v ∷ set) m
