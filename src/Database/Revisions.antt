-- ===== src/Database/Revisions.antt =====
-- The revision numbers of src/database.cpp, on which WATCH stands.
pub mod Operations
pub mod Loops
pub mod Watch
use codecrafters_redis_cpp.Prelude.{
  ℕ, zero, suc, ◌+◌, ◌^◌, ◌≤◌, ◌<◌, ◌≡◌, ◌≢◌, ◌⊎◌, inl, inr, refl, Bool, true, false, Option, none,
  some, List, [], ◌∷◌, ◌++◌, arith, Bytes, str_eq, str_eq_iff, Bool-cases, length, if◌then◌else◌,
  ◌∙◌,
}
use codecrafters_redis_cpp.Prelude.Map.{Map, bytes_eq, find, insert, erase, find-insert, find-erase}
use codecrafters_redis_cpp.Database.{
  Entry, Database, has_expired, if_active, mark_key_modified, put_entry, erase_entry,
  find_active_entry, key_revision, revision_or_zero, visit_keys, keys,
}

abbrev pub revision : Bytes → Database → ℕ
revision key db = revision_or_zero (find key db.key_revisions)

-- No revision number has been given out yet that is not below the next one.
abbrev pub IsFresh : Bytes → Database → Type 0
IsFresh key db = revision key db < db.next_revision

-- `later` comes from `db` by at most `n` marked changes: the entry of `key` is what it was, or its
-- revision is one that `db` had not given out.
pub record Advances (n : ℕ) (key : Bytes) (db later : Database) : Type 0 where
  pub grows : db.next_revision ≤ later.next_revision
  pub bound : later.next_revision ≤ db.next_revision + n
  pub fresh : IsFresh key db → IsFresh key later
  pub kept :
      ((find key later.entries ≡ find key db.entries) × (revision key later ≡ revision key db))
      ⊎ (db.next_revision ≤ revision key later)

pub Advances-refl : (n : ℕ) (key : Bytes) (db : Database) → Advances n key db db
Advances-refl n key db = record {
  grows = omega arith;
  bound = omega arith;
  fresh = λ h. h;
  kept = inl (refl, refl);
}

pub Advances-trans :
    (m n : ℕ) (key : Bytes) (a b c : Database)
    → Advances m key a b
    → Advances n key b c
    → Advances (m + n) key a c
Advances-trans m n key a b c p q = record {
  grows = omega (arith, p.grows, q.grows);
  bound = omega (arith, p.bound, q.bound);
  fresh = λ h. q.fresh (p.fresh h);
  kept = ground (arith, p.kept, q.kept, p.grows);
}

-- So many revision numbers are left before the 64-bit counter wraps around.
abbrev pub HasRoom : ℕ → Database → Type 0
HasRoom n db = db.next_revision + n < 2 ^ 64

-- `changed` is `db` but for the entry of `key`.
pub record ChangesOnly (key : Bytes) (db changed : Database) : Type 0 where
  pub revisions : changed.key_revisions ≡ db.key_revisions
  pub counter : changed.next_revision ≡ db.next_revision
  pub others :
      (other : Bytes)
      → str_eq key other ≡ false
      → find other changed.entries ≡ find other db.entries

-- A change to the entry of one key, marked as a change of that key.
pub mark-Advances :
    (key other : Bytes) (db changed : Database)
    → HasRoom 1 db
    → ChangesOnly key db changed
    → Advances 1 other db (mark_key_modified key changed)
unfolding mark_key_modified
mark-Advances key other db changed h c = record {
  grows = ground (arith, c.counter);
  bound = ground (arith, c.counter);
  fresh = λ f. ground (
    arith,
    find-insert key other changed.next_revision changed.key_revisions,
    f,
    c.counter,
    c.revisions,
  );
  kept = elim (Bool-cases (str_eq key other)) [
    | inl e ↦ inr (
        ground
          (arith, find-insert key other changed.next_revision changed.key_revisions, c.counter))
    | inr e ↦ inl (
      c.others other e,
      ground
          (arith, find-insert key other changed.next_revision changed.key_revisions, c.revisions),
    )
  ];
}

pub put-ChangesOnly :
    (key : Bytes) (entry : Entry) (db : Database) → ChangesOnly key db (put_entry key entry db)
unfolding put_entry
put-ChangesOnly key entry db = record {
  revisions = refl;
  counter = refl;
  others = λ other e. ground (arith, find-insert key other entry db.entries);
}

pub erase-ChangesOnly : (key : Bytes) (db : Database) → ChangesOnly key db (erase_entry key db)
unfolding erase_entry
erase-ChangesOnly key db = record {
  revisions = refl;
  counter = refl;
  others = λ other e. ground (arith, find-erase key other db.entries);
}

pub ChangesOnly-trans :
    (key : Bytes) (a b c : Database)
    → ChangesOnly key a b
    → ChangesOnly key b c
    → ChangesOnly key a c
ChangesOnly-trans key a b c p q = record {
  revisions = q.revisions ∙ p.revisions;
  counter = q.counter ∙ p.counter;
  others = λ other e. q.others other e ∙ p.others other e;
}

pub find_active_entry-Advances :
    (now : ℕ) (key other : Bytes) (db : Database)
    → HasRoom 1 db
    → Advances 1 other db (find_active_entry now key db).1
unfolding find_active_entry
find_active_entry-Advances now key other db h = go (find key db.entries)
  where
    go : (found : Option Entry) → Advances 1 other db (if_active now key found db).1
    go none = Advances-refl 1 other db
    go (some entry) = elim (Bool-cases (has_expired now entry.expires_at)) [
      | inl e ↦ rw e (mark-Advances key other db _ h (erase-ChangesOnly key db))
      | inr e ↦ rw e (Advances-refl 1 other db)
    ]

-- An operation that looks its key up and then makes at most one marked change.
pub lookup-Advances :
    {A : Type 0} (now : ℕ) (key other : Bytes) (db : Database)
    (f : Option Entry → Database → A × Database)
    → HasRoom 2 db
    → ((found : Option Entry) (db' : Database)
        → HasRoom 1 db'
        → Advances 1 other db' (f found db').1)
    → Advances 2 other db (f (find_active_entry now key db).0 (find_active_entry now key db).1).1
lookup-Advances now key other db f h step =
    let first = find_active_entry-Advances now key other db (omega arith) in
    Advances-trans 1 1 other db _ _ first (step _ _ (omega (arith, first.bound)))

-- The books stay right, so an unchanged revision means an unchanged entry.
pub unchanged_of-Advances :
    (n : ℕ) (key : Bytes) (db later : Database)
    → IsFresh key db
    → Advances n key db later
    → revision key later ≡ revision key db
    → find key later.entries ≡ find key db.entries
unchanged_of-Advances n key db later f a e = ground (arith, a.kept)
