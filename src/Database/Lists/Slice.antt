-- ===== src/Database/Lists/Slice.antt =====
-- The slice that `list_elements` of src/database.cpp takes, against the positions that LRANGE names.
use codecrafters_redis_cpp.Prelude.{
  ℕ, zero, suc, ◌+◌, ◌-◌, ◌≤◌, ◌≡◌, inl, inr, refl, ap, ◌&&◌, ◌||◌, List, [], ◌∷◌, arith,
  Bool-cases, length, take, drop, if◌then◌else◌, ltb, leb, ◌==◌, Bytes, length-drop, ap₂, ◌∙◌, sym,
}
use codecrafters_redis_cpp.Prelude.Int.{ℤ, pos, negsuc, pos_part, leb_ℤ, ltb_ℤ, ◌-ℤ◌}
use codecrafters_redis_cpp.Database.Lists.{from_end, slice}

-- The items whose position, counted from `k`, lies from `start` to `stop`, both included.
abbrev pub positions : ℤ → ℤ → ℕ → List Bytes → List Bytes
positions start stop k [] = []
positions start stop k (item ∷ items) =
    if leb_ℤ start (pos k) && leb_ℤ (pos k) stop
    then item ∷ positions start stop (suc k) items
    else positions start stop (suc k) items

-- One more than `stop`, where that is a position.
abbrev end_of : ℤ → ℕ
end_of (pos n) = suc n
end_of (negsuc n) = 0

reaches : (start : ℤ) (k : ℕ) → leb_ℤ start (pos k) ≡ leb (pos_part start) k
reaches (pos n) k = ground arith
reaches (negsuc n) k = ground arith

precedes : (stop : ℤ) (k : ℕ) → leb_ℤ (pos k) stop ≡ ltb k (end_of stop)
precedes (pos n) k = ground arith
precedes (negsuc n) k = ground arith

-- `positions` with natural bounds, the second one past the end.
abbrev keep : ℕ → ℕ → ℕ → List Bytes → List Bytes
keep from to k [] = []
keep from to k (item ∷ items) =
    if leb from k && ltb k to then item ∷ keep from to (suc k) items else keep from to (suc k) items

positions-keep :
    (start stop : ℤ) (k : ℕ) (items : List Bytes)
    → positions start stop k items ≡ keep (pos_part start) (end_of stop) k items
positions-keep start stop k [] = refl
positions-keep start stop k (item ∷ items) =
    rw (reaches start k, precedes stop k, positions-keep start stop (suc k) items) refl

window_eq :
    (items : List Bytes) (m m' n n' : ℕ)
    → m ≡ m'
    → n ≡ n'
    → take m (drop n items) ≡ take m' (drop n' items)
window_eq items m m' n n' p q = ap₂ (λ (a b : ℕ). take a (drop b items)) p q

take_nil : (n : ℕ) → take {A = Bytes} n [] ≡ []
take_nil zero = refl
take_nil (suc n) = refl

take_none : (n : ℕ) (items : List Bytes) → n ≤ 0 → take n items ≡ []
take_none zero items h = refl
take_none (suc n) items h = absurd (omega arith)

drop_nil : (n : ℕ) → drop {A = Bytes} n [] ≡ []
drop_nil zero = refl
drop_nil (suc n) = refl

keep-take :
    (from to k : ℕ) (items : List Bytes)
    → keep from to k items ≡ take (to - (k + (from - k))) (drop (from - k) items)
keep-take from to k [] = rw (drop_nil (from - k)) (sym (take_nil _))
keep-take from to k (item ∷ items) = elim (Bool-cases (leb from k)) [
  | inr s ↦ rw s (
      keep-take from to (suc k) items
      ∙ window_eq (item ∷ items) (to - (suc k + (from - suc k))) _ (suc (from - suc k)) _
          (ground arith) (ground arith))
  | inl s ↦ elim (Bool-cases (ltb k to)) [
    | inl t ↦
        rw (s, t)
          (ap (λ (l : List Bytes). item ∷ l)
              (keep-take from to (suc k) items
                ∙ window_eq items _ (to - suc k) _ 0 (ground arith) (ground arith))
            ∙ window_eq (item ∷ items) (suc (to - suc k)) _ 0 _ (ground arith) (ground arith))
    | inr t ↦
        rw (s, t)
          (keep-take from to (suc k) items
            ∙ window_eq items _ 0 _ 0 (ground arith) (ground arith)
            ∙ window_eq (item ∷ items) 0 _ 0 _ (ground arith) (ground arith))
  ]
]

-- A count beyond the end takes the same.
take_beyond :
    (m n : ℕ) (items : List Bytes)
    → length items ≤ m
    → length items ≤ n
    → take m items ≡ take n items
take_beyond m n [] h k = take_nil m ∙ sym (take_nil n)
take_beyond zero n (item ∷ items) h k = absurd (omega arith)
take_beyond (suc m) zero (item ∷ items) h k = absurd (omega arith)
take_beyond (suc m) (suc n) (item ∷ items) h k =
    ap (λ (l : List Bytes). item ∷ l) (take_beyond m n items (omega arith) (omega arith))

drop_beyond : (n : ℕ) (items : List Bytes) → length items ≤ n → drop n items ≡ []
drop_beyond n [] h = drop_nil n
drop_beyond zero (item ∷ items) h = absurd (omega arith)
drop_beyond (suc n) (item ∷ items) h = drop_beyond n items (omega arith)

-- The slice once the bounds count from the front.
abbrev cut : List Bytes → ℤ → ℤ → List Bytes
cut items first last =
    if length items == 0
    then []
    else if ltb_ℤ last (pos 0) || (leb_ℤ (pos (length items)) first || ltb_ℤ last first)
    then []
    else take (pos_part last + 1 - pos_part first) (drop (pos_part first) items)

abbrev not_below : ℤ → ℤ
not_below index = if ltb_ℤ index (pos 0) then pos 0 else index

abbrev not_beyond : ℕ → ℤ → ℤ
not_beyond size index = if leb_ℤ (pos size) index then pos size -ℤ pos 1 else index

cut_lem :
    (items : List Bytes) (first : ℕ) (last : ℤ)
    → cut items (pos first) (not_beyond (length items) last)
      ≡ take (end_of last - first) (drop first items)
unfolding ◌-ℤ◌
cut_lem items first (negsuc n) =
    ground (arith, take_none (0 - first) (drop first items) (omega arith))
cut_lem items first (pos n) = ground (
  arith,
  drop_beyond first items,
  take_nil (suc n - first),
  take_none (suc n - first) (drop first items),
  length-drop first items,
  take_beyond (length items - 1 + 1 - first) (suc n - first) (drop first items),
)

not_below-pos : (index : ℤ) → not_below index ≡ pos (pos_part index)
not_below-pos (pos n) = ground arith
not_below-pos (negsuc n) = ground arith

pub slice_lem :
    (items : List Bytes) (start stop : ℤ)
    → slice items start stop
      ≡ positions (from_end (length items) start) (from_end (length items) stop) 0 items
unfolding slice
slice_lem items start stop =
    let from = from_end (length items) start in
    let to = from_end (length items) stop in
    ap (λ (i : ℤ). cut items i (not_beyond (length items) to)) (not_below-pos from)
    ∙ cut_lem items (pos_part from) to
    ∙ window_eq items _ (end_of to - (0 + (pos_part from - 0))) _ (pos_part from - 0) (omega arith)
        (omega arith)
    ∙ sym (keep-take (pos_part from) (end_of to) 0 items)
    ∙ sym (positions-keep from to 0 items)
