-- ===== src/Database/StreamOps/Range.antt =====
-- What XRANGE gets from `stream_range` of src/database.cpp.
use codecrafters_redis_cpp.Prelude.{
  ℕ, zero, suc, ◌-◌, ◌≤◌, ◌≡◌, inl, inr, refl, ap, subst, ◌∙◌, Bool, true, false, not, ◌&&◌, Option,
  none, some, List, [], ◌∷◌, arith, Bool-cases, take, drop, get_elem?, if◌then◌else◌, ltb, Bytes,
}
use codecrafters_redis_cpp.Prelude.Map.{bytes_eq}
use codecrafters_redis_cpp.Streams.{StreamId, id_lt, id_le, StreamEntry, id_lt_trans}
use codecrafters_redis_cpp.Database.{stream, Entry, Database, ok, fault}
use codecrafters_redis_cpp.Database.Expiry.{view, find_active_entry-eq-view}
use codecrafters_redis_cpp.Database.StreamOps.{stream_range}
use codecrafters_redis_cpp.Database.StreamOps.Search.{holds_at, lower_bound, upper_bound}
use codecrafters_redis_cpp.Database.StreamOps.Partition.{
  Above, IsSorted, Falls, SplitsAt, partition_point-SplitsAt,
}

-- The entries that satisfy a test, in their order.
abbrev pub select : (StreamEntry → Bool) → List StreamEntry → List StreamEntry
select test [] = []
select test (entry ∷ entries) =
    if test entry then entry ∷ select test entries else select test entries

-- A test that holds of all smaller identifiers too.
abbrev IsClosed : (StreamId → Bool) → Type 0
IsClosed before = (a b : StreamId) → id_lt a b ≡ true → before b ≡ true → before a ≡ true

module _ (before : StreamId → Bool) (closed : IsClosed before) where
  holds_below :
      (id : StreamId) (entries : List StreamEntry) (j : ℕ)
      → Above id entries
      → holds_at before entries j ≡ true
      → before id ≡ true
  holds_below id [] j above h = cc
  holds_below id (entry ∷ entries) zero (a, above) h = closed id entry.id a h
  holds_below id (entry ∷ entries) (suc j) (a, above) h = holds_below id entries j above h

  IsSorted-Falls : (entries : List StreamEntry) → IsSorted entries → Falls before entries
  IsSorted-Falls [] sorted i j h e = e
  IsSorted-Falls (entry ∷ entries) (above, sorted) zero zero h e = e
  IsSorted-Falls (entry ∷ entries) (above, sorted) zero (suc j) h e =
      holds_below entry.id entries j above e
  IsSorted-Falls (entry ∷ entries) (above, sorted) (suc i) zero h e = absurd (omega arith)
  IsSorted-Falls (entry ∷ entries) (above, sorted) (suc i) (suc j) h e =
      IsSorted-Falls entries sorted i j (omega arith) e

below-IsClosed : (id : StreamId) → IsClosed (λ other. id_lt other id)
below-IsClosed id a b h e = id_lt_trans a b id h e

not_above-IsClosed : (id : StreamId) → IsClosed (λ other. not (id_lt id other))
unfolding id_lt
not_above-IsClosed id a b h e = ground arith

pub lower_bound-SplitsAt :
    (entries : List StreamEntry) (id : StreamId)
    → IsSorted entries
    → SplitsAt (λ other. id_lt other id) entries (lower_bound entries id)
unfolding lower_bound
lower_bound-SplitsAt entries id sorted =
    partition_point-SplitsAt _ entries (IsSorted-Falls _ (below-IsClosed id) entries sorted)

pub upper_bound-SplitsAt :
    (entries : List StreamEntry) (id : StreamId)
    → IsSorted entries
    → SplitsAt (λ other. not (id_lt id other)) entries (upper_bound entries id)
unfolding upper_bound
upper_bound-SplitsAt entries id sorted =
    partition_point-SplitsAt _ entries (IsSorted-Falls _ (not_above-IsClosed id) entries sorted)

-- The split of the tail of a list.
module _ (before : StreamId → Bool) (entry : StreamEntry) (entries : List StreamEntry) where
  SplitsAt-tail : {p : ℕ} → SplitsAt before (entry ∷ entries) (suc p) → SplitsAt before entries p
  SplitsAt-tail s = record {
    within = omega (arith, s.within);
    below = λ i h. s.below (suc i) (omega arith);
    behind = λ i h. s.behind (suc i) (omega arith);
  }

  SplitsAt-tail_zero : SplitsAt before (entry ∷ entries) 0 → SplitsAt before entries 0
  SplitsAt-tail_zero s = record {
    within = omega arith;
    below = λ i h. absurd (omega arith);
    behind = λ i h. s.behind (suc i) (omega arith);
  }

-- What lies behind a split is what fails the test.
pub drop-SplitsAt :
    (before : StreamId → Bool) (entries : List StreamEntry) (p : ℕ)
    → SplitsAt before entries p
    → drop p entries ≡ select (λ entry. not (before entry.id)) entries
drop-SplitsAt before [] zero s = refl
drop-SplitsAt before [] (suc p) s = absurd (omega (arith, s.within))
drop-SplitsAt before (entry ∷ entries) zero s = rw (s.behind 0 (omega arith)) (
    ap (λ (l : List StreamEntry). entry ∷ l)
      (drop-SplitsAt before entries 0 (SplitsAt-tail_zero before entry entries s)))
drop-SplitsAt before (entry ∷ entries) (suc p) s =
    rw (s.below 0 (omega arith))
      (drop-SplitsAt before entries p (SplitsAt-tail before entry entries s))

minus_zero : (n : ℕ) → n - 0 ≡ n
minus_zero n = omega arith

minus_suc : (q p : ℕ) → suc q - suc p ≡ q - p
minus_suc q p = omega arith

-- What lies between two splits is what fails the first test and passes the second.
between-SplitsAt :
    (low high : StreamId → Bool) (entries : List StreamEntry) (p q : ℕ)
    → SplitsAt low entries p
    → SplitsAt high entries q
    → p ≤ q
    → take (q - p) (drop p entries) ≡ select (λ entry. not (low entry.id) && high entry.id) entries
between-SplitsAt low high [] zero q s t h = ground arith
between-SplitsAt low high [] (suc p) q s t h = absurd (omega (arith, s.within))
between-SplitsAt low high (entry ∷ entries) zero zero s t h = rw (t.behind 0 (omega arith)) (
    rw (s.behind 0 (omega arith)) (
      between-SplitsAt low high entries 0 0 (SplitsAt-tail_zero low entry entries s)
        (SplitsAt-tail_zero high entry entries t) (omega arith)))
between-SplitsAt low high (entry ∷ entries) zero (suc q) s t h = rw (t.below 0 (omega arith)) (
    rw (s.behind 0 (omega arith)) (
      rw (minus_zero (suc q)) (
        ap (λ (l : List StreamEntry). entry ∷ l)
          (subst (λ n. take n entries ≡ select (λ e. not (low e.id) && high e.id) entries)
            (minus_zero q)
            (between-SplitsAt low high entries 0 q (SplitsAt-tail_zero low entry entries s)
              (SplitsAt-tail high entry entries t) (omega arith))))))
between-SplitsAt low high (entry ∷ entries) (suc p) zero s t h = absurd (omega arith)
between-SplitsAt low high (entry ∷ entries) (suc p) (suc q) s t h = rw (s.below 0 (omega arith)) (
    rw (minus_suc q p) (
      between-SplitsAt low high entries p q (SplitsAt-tail low entry entries s)
        (SplitsAt-tail high entry entries t) (omega arith)))

-- The entries from `start` to `end`, both included, in the order of the stream.
abbrev pub in_range : StreamId → StreamId → List StreamEntry → List StreamEntry
in_range start end entries = select (λ entry. id_le start entry.id && id_le entry.id end) entries

bounds_ordered :
    (entries : List StreamEntry) (start end : StreamId) (p q : ℕ)
    → SplitsAt (λ other. id_lt other start) entries p
    → SplitsAt (λ other. not (id_lt end other)) entries q
    → id_lt end start ≡ false
    → ltb q p ≡ false
bounds_ordered entries start end p q s t h = elim (Bool-cases (ltb q p)) [
  | inr e ↦ e
  | inl e ↦ clash (get_elem? entries q) (s.below q (ground arith)) (t.behind q (omega arith))
]
  where
    clash :
        (found : Option StreamEntry)
        → elim found [ none ↦ false | some entry ↦ id_lt entry.id start ] ≡ true
        → elim found [ none ↦ false | some entry ↦ not (id_lt end entry.id) ] ≡ false
        → ltb q p ≡ false
    clash none a b = cc
    clash (some entry) a b = ground (arith, id_lt_trans end entry.id start (ground arith) a)

-- XRANGE over a stream that a client can see, whose identifiers grow, gives exactly the entries
-- from `start` to `end`, both included, in order, when `start` is not above `end`.
pub stream_range_lem :
    (now : ℕ) (key : Bytes) (start end : StreamId) (db : Database) (entry : Entry)
    (entries : List StreamEntry)
    → view now key db ≡ some entry
    → entry.value ≡ stream entries
    → IsSorted entries
    → id_lt end start ≡ false
    → (stream_range now key start end db).0 ≡ ok (in_range start end entries)
unfolding stream_range id_le
stream_range_lem now key start end db entry entries seen e sorted h =
    rw (find_active_entry-eq-view now key db, seen, e)
      (let s = lower_bound-SplitsAt entries start sorted in
        let t = upper_bound-SplitsAt entries end sorted in
        let o = bounds_ordered entries start end _ _ s t h in
        rw o (ap ok (between-SplitsAt _ _ entries _ _ s t (ground arith))))

bounds_crossed :
    (entries : List StreamEntry) (low high : StreamId → Bool) (i p q : ℕ)
    → SplitsAt low entries p
    → SplitsAt high entries q
    → holds_at low entries i ≡ true
    → holds_at high entries i ≡ false
    → ltb q p ≡ true
bounds_crossed entries low high i p q s t a b = elim (Bool-cases (ltb i p)) [
  | inr e ↦ cc (s.behind i (ground arith))
  | inl e ↦ elim (Bool-cases (ltb i q)) [
    | inl f ↦ cc (t.below i (ground arith))
    | inr f ↦ ground arith
  ]
]

holds_at_lem :
    (before : StreamId → Bool) (entries : List StreamEntry) (i : ℕ) {entry : StreamEntry}
    → get_elem? entries i ≡ some entry
    → holds_at before entries i ≡ before entry.id
holds_at_lem before entries i {entry} e =
    ap (λ (o : Option StreamEntry). elim o [ none ↦ false | some found ↦ before found.id ]) e

-- With `start` above `end`, a stream that a client can see, whose identifiers grow and that has an
-- entry between the two, makes `stream_range` build a vector whose first position lies behind its
-- last, which is undefined.
pub stream_range_fault :
    (now : ℕ) (key : Bytes) (start end : StreamId) (db : Database) (entry : Entry)
    (entries : List StreamEntry) (i : ℕ) (inside : StreamEntry)
    → view now key db ≡ some entry
    → entry.value ≡ stream entries
    → IsSorted entries
    → get_elem? entries i ≡ some inside
    → id_lt end inside.id ≡ true
    → id_lt inside.id start ≡ true
    → (stream_range now key start end db).0 ≡ fault
unfolding stream_range
stream_range_fault now key start end db entry entries i inside seen e sorted at a b =
    rw (find_active_entry-eq-view now key db, seen, e)
      (let s = lower_bound-SplitsAt entries start sorted in
        let t = upper_bound-SplitsAt entries end sorted in
        rw
          (bounds_crossed entries _ _ i _ _ s t (holds_at_lem _ entries i at ∙ b)
            (holds_at_lem _ entries i at ∙ ap not a))
          refl)
