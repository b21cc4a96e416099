-- ===== src/Database/Expiry.antt =====
-- Lazy expiration in src/database.cpp, against the entries that a client can see.
pub mod Loops
pub mod Failures
use codecrafters_redis_cpp.Prelude.{
  ℕ, ◌+◌, ◌*◌, ◌<◌, ◌≤◌, ◌^◌, ◌≡◌, refl, true, false, Option, none, some, arith, if◌then◌else◌,
  Bytes, str_eq, str_eq_iff, ltb, Bool, ◌-◌,
}
use codecrafters_redis_cpp.Prelude.Int.{ℤ, pos, negsuc, ◌+ℤ◌, ◌*ℤ◌, wrap64}
use codecrafters_redis_cpp.Prelude.Map.{bytes_eq, find, find-insert, find-erase}
use codecrafters_redis_cpp.Database.{
  Entry, Database, ok, err, key_not_found, has_expired, find_active_entry, set, get, deadline_after,
  string_in, mark_key_modified, erase_entry, put_entry,
}

abbrev pub live : ℕ → Option Entry → Option Entry
live now none = none
live now (some entry) = if has_expired now entry.expires_at then none else some entry

-- The entry of a key for a client that looks at the time `now`.
unfoldable pub view : ℕ → Bytes → Database → Option Entry
view now key db = live now (find key db.entries)

pub find_active_entry-eq-view :
    (now : ℕ) (key : Bytes) (db : Database) → (find_active_entry now key db).0 ≡ view now key db
unfolding find_active_entry view
find_active_entry-eq-view now key db = ground arith

pub view-find_active_entry :
    (now later : ℕ) (key other : Bytes) (db : Database)
    → now ≤ later
    → view later other (find_active_entry now key db).1 ≡ view later other db
unfolding find_active_entry view mark_key_modified erase_entry
view-find_active_entry now later key other db h =
    ground (arith, find-erase key other db.entries, str_eq_iff key other)

-- What the writes of the operations show to clients.
pub view-put :
    (now : ℕ) (key other : Bytes) (entry : Entry) (db : Database)
    → view now other (mark_key_modified key (put_entry key entry db))
      ≡ (if str_eq key other then live now (some entry) else view now other db)
unfolding view put_entry mark_key_modified
view-put now key other entry db = ground (arith, find-insert key other entry db.entries)

pub view-erase :
    (now : ℕ) (key other : Bytes) (db : Database)
    → view now other (mark_key_modified key (erase_entry key db))
      ≡ (if str_eq key other then none else view now other db)
unfolding view erase_entry mark_key_modified
view-erase now key other db = ground (arith, find-erase key other db.entries)

pub view_unmarked_put :
    (now : ℕ) (key other : Bytes) (entry : Entry) (db : Database)
    → view now other (put_entry key entry db)
      ≡ (if str_eq key other then live now (some entry) else view now other db)
unfolding view put_entry
view_unmarked_put now key other entry db = ground (arith, find-insert key other entry db.entries)

-- What is seen is live.
pub live-view :
    (now : ℕ) (key : Bytes) (db : Database) → live now (view now key db) ≡ view now key db
unfolding view
live-view now key db = ground arith

-- Looking a key up returns the entry that a client can see at that time, and shows no client
-- anything at that time or later: the expired entry that it drops was gone already.
pub find_active_entry_unobservable :
    (now later : ℕ) (key other : Bytes) (db : Database)
    → now ≤ later
    → ((find_active_entry now key db).0 ≡ view now key db)
      × (view later other (find_active_entry now key db).1 ≡ view later other db)
find_active_entry_unobservable now later key other db h =
    (find_active_entry-eq-view now key db, view-find_active_entry now later key other db h)

-- The expiry of SET, in milliseconds, ends within the range of the clock.
abbrev pub Ends : ℕ → Option ℤ → Type 0
Ends now none = Unit
Ends now (some (pos ms)) = now + ms * 1_000_000 < 2 ^ 63
Ends now (some (negsuc n)) = ⊥

abbrev pub lasts : ℕ → ℕ → Option ℤ → Bool
lasts now later none = true
lasts now later (some (pos ms)) = ltb later (now + ms * 1_000_000)
lasts now later (some (negsuc n)) = false

deadline_after_lem :
    (now ms : ℕ)
    → now + ms * 1_000_000 < 2 ^ 63
    → deadline_after now (pos ms) ≡ pos (now + ms * 1_000_000)
unfolding deadline_after ◌+ℤ◌ ◌*ℤ◌ wrap64
deadline_after_lem now ms h = ground arith

get-put :
    (later : ℕ) (key : Bytes) (entry : Entry) (db : Database)
    → (get later key (mark_key_modified key (put_entry key entry db))).0
      ≡ string_in (live later (some entry))
unfolding get put_entry mark_key_modified
get-put later key entry db =
    ground (arith, find-insert key key entry db.entries, str_eq_iff key key)

-- What SET stores, with an expiry that ends within the range of the clock or none, is what GET reads
-- until the expiry has passed, to the nanosecond, and from then on the key is not found. Without an
-- expiry it is read at any time.
pub get-set :
    (now later : ℕ) (key value : Bytes) (expiry : Option ℤ) (db : Database)
    → Ends now expiry
    → (get later key (set now key value expiry db)).0
      ≡ (if lasts now later expiry then ok value else err key_not_found)
unfolding set
get-set now later key value none db h = rw get-put refl
get-set now later key value (some (pos ms)) db h =
    rw get-put (rw (deadline_after_lem now ms h) (ground arith))
get-set now later key value (some (negsuc n)) db h = absurd h

overflown :
    (now ms : ℕ)
    → 2 ^ 63 ≤ now + ms * 1_000_000
    → now + ms * 1_000_000 < 2 ^ 64
    → now < 2 ^ 63
    → deadline_after now (pos ms) ≡ negsuc (2 ^ 64 - 1 - (now + ms * 1_000_000))
unfolding deadline_after ◌+ℤ◌ ◌*ℤ◌ wrap64
overflown now ms h k l = ground arith

-- An expiry that ends beyond the signed 64 bits of the clock, but within the unsigned ones, wraps
-- around into the past: the value that SET has just stored is never read back.
pub get-set_overflow :
    (now later ms : ℕ) (key value : Bytes) (db : Database)
    → now < 2 ^ 63
    → 2 ^ 63 ≤ now + ms * 1_000_000
    → now + ms * 1_000_000 < 2 ^ 64
    → (get later key (set now key value (some (pos ms)) db)).0 ≡ err key_not_found
unfolding set
get-set_overflow now later ms key value db h k l =
    rw get-put (rw (overflown now ms k l h) (ground arith))
