-- ===== src/Processor/Loading/Visible.antt =====
-- What clients read after `process_rdb_load` of src/command_processor.cpp.
use codecrafters_redis_cpp.Prelude.{
  ℕ, suc, ◌+◌, ◌-◌, ◌*◌, ◌^◌, ◌<◌, ◌≤◌, ltb, Bool, true, ◌≡◌, ◌≢◌, ◌⊎◌, inl, inr, refl, ap, fun_ext,
  ◌∙◌, Option, none, some, List, [], ◌∷◌, ◌++◌, arith, Bytes, str_eq_iff, if◌then◌else◌, length,
}
use codecrafters_redis_cpp.Prelude.Int.{ℤ, pos}
use codecrafters_redis_cpp.Prelude.Map.{bytes_eq, find-insert}
use codecrafters_redis_cpp.Rdb.{StringEntry}
use codecrafters_redis_cpp.Database.{
  Database, ok, err, key_not_found, set, get, find_active_entry, mark_key_modified, put_entry,
  string, deadline,
}
use codecrafters_redis_cpp.Database.Expiry.{get-set}
use codecrafters_redis_cpp.Processor.Loading.{expiry_of, set_entry, load_entry, process_rdb_load}

-- By the Unix time in milliseconds the entry is past its time. An entry without one never is.
abbrev pub IsPast : ℕ → Option ℕ → Type 0
IsPast unix_now none = ⊥
IsPast unix_now (some expires_at) = expires_at ≤ unix_now

-- The entry has time left, and its end lies within the range of the steady clock, which reads `now`
-- nanoseconds as the entry is set.
abbrev pub IsLive : ℕ → ℕ → Option ℕ → Type 0
IsLive unix_now now none = Unit
IsLive unix_now now (some expires_at) =
    (unix_now < expires_at) × (now + (expires_at - unix_now) * 1_000_000 < 2 ^ 63)

-- The time that the entry has left, from when it is set, is not over yet when the clock reads `later`.
abbrev pub is_left : ℕ → ℕ → ℕ → Option ℕ → Bool
is_left unix_now now later none = true
is_left unix_now now later (some expires_at) = ltb later (now + (expires_at - unix_now) * 1_000_000)

-- No entry of the list sets the key: each has another one, or its time has passed.
abbrev pub LeavesAlone : ℕ → Bytes → List StringEntry → Type 0
LeavesAlone unix_now key [] = Unit
LeavesAlone unix_now key (entry ∷ entries) =
    ((entry.key ≢ key) ⊎ IsPast unix_now entry.expires_at_unix_ms)
    × LeavesAlone unix_now key entries

IsPast-expiry_of :
    (unix_now : ℕ) (expires_at : Option ℕ)
    → IsPast unix_now expires_at
    → expiry_of (pos unix_now) expires_at ≡ none
IsPast-expiry_of unix_now none h = absurd h
IsPast-expiry_of unix_now (some expires_at) h = ground (arith, h)

get-set_other :
    (now later : ℕ) (key other value : Bytes) (expiry : Option ℤ) (db : Database)
    → key ≢ other
    → (get later other (set now key value expiry db)).0 ≡ (get later other db).0
unfolding get set find_active_entry put_entry mark_key_modified
get-set_other now later key other value expiry db h = ground (
  arith,
  h,
  str_eq_iff key other,
  find-insert key other (record { value = string value; expires_at = deadline now expiry })
      db.entries,
)

set_entry_other :
    (now later : ℕ) (entry : StringEntry) (other : Bytes) (expiry : Option (Option ℤ))
    (db : Database)
    → (entry.key ≢ other) ⊎ (expiry ≡ none)
    → (get later other (set_entry now entry expiry db)).0 ≡ (get later other db).0
set_entry_other now later entry other none db h = refl
set_entry_other now later entry other (some expiry) db (inl h) =
    get-set_other now later entry.key other entry.value expiry db h
set_entry_other now later entry other (some expiry) db (inr h) = cc

-- A key that the snapshot has no live entry for reads as it did before.
pub get-process_rdb_load_other :
    (unix_now : ℕ) (times : ℕ → ℕ) (later : ℕ) (key : Bytes) (entries : List StringEntry)
    (db : Database)
    → LeavesAlone unix_now key entries
    → (get later key (process_rdb_load (pos unix_now) times entries db)).0 ≡ (get later key db).0
unfolding process_rdb_load
get-process_rdb_load_other unix_now times later key [] db h = refl
get-process_rdb_load_other unix_now times later key (entry ∷ entries) db (h, k) =
    get-process_rdb_load_other unix_now (λ i. times (suc i)) later key entries
      (load_entry (pos unix_now) (times 0) entry db) k
    ∙ set_entry_other (times 0) later entry key (expiry_of (pos unix_now) entry.expires_at_unix_ms)
        db (unset h)
  where
    unset :
        (entry.key ≢ key) ⊎ IsPast unix_now entry.expires_at_unix_ms
        → (entry.key ≢ key) ⊎ (expiry_of (pos unix_now) entry.expires_at_unix_ms ≡ none)
    unset (inl n) = inl n
    unset (inr past) = inr (IsPast-expiry_of unix_now entry.expires_at_unix_ms past)

process_rdb_load-append :
    (unix_now : ℤ) (times : ℕ → ℕ) (before after : List StringEntry) (db : Database)
    → process_rdb_load unix_now times (before ++ after) db
      ≡ process_rdb_load unix_now
          (λ i. times (length before + i))
          after
          (process_rdb_load unix_now times before db)
unfolding process_rdb_load
process_rdb_load-append unix_now times [] after db =
    ap (λ (t : ℕ → ℕ). process_rdb_load unix_now t after db) (fun_ext λ i. ap times (omega arith))
process_rdb_load-append unix_now times (entry ∷ before) after db =
    process_rdb_load-append unix_now (λ i. times (suc i)) before after
      (load_entry unix_now (times 0) entry db)
    ∙ ap
        (λ (t : ℕ → ℕ). process_rdb_load unix_now t after (
          process_rdb_load unix_now (λ i. times (suc i)) before
            (load_entry unix_now (times 0) entry db)))
        (fun_ext λ i. ap times (omega arith))

-- Setting the entry shows it for the time that it has left.
get-load_entry :
    (unix_now now later : ℕ) (entry : StringEntry) (db : Database)
    → IsLive unix_now now entry.expires_at_unix_ms
    → (get later entry.key (load_entry (pos unix_now) now entry db)).0 ≡ (
        if is_left unix_now now later entry.expires_at_unix_ms
        then ok entry.value
        else err key_not_found)
get-load_entry unix_now now later entry db = by_time entry.expires_at_unix_ms
  where
    by_time :
        (expires_at : Option ℕ)
        → IsLive unix_now now expires_at
        → (get later entry.key (set_entry now entry (expiry_of (pos unix_now) expires_at) db)).0
          ≡ (if is_left unix_now now later expires_at then ok entry.value else err key_not_found)
    by_time none h = get-set now later entry.key entry.value none db tt
    by_time (some expires_at) (live, ends) =
        ap (λ (x : Option (Option ℤ)). (get later entry.key (set_entry now entry x db)).0) remaining
        ∙ get-set now later entry.key entry.value (some (pos (expires_at - unix_now))) db ends
      where
        remaining :
            expiry_of (pos unix_now) (some expires_at) ≡ some (some (pos (expires_at - unix_now)))
        remaining = ground (arith, live, ends)

-- After a snapshot is loaded, whatever the keyspace held, a key reads as its last live entry says, for as
-- long as that entry has left to live by the Unix time of the load: the milliseconds between that time
-- and the entry's are counted on the steady clock from when it was set, and must end within the range
-- of that clock. An entry whose time was up at the load, to the millisecond, sets nothing.
pub get-process_rdb_load :
    (unix_now : ℕ) (times : ℕ → ℕ) (later : ℕ) (before : List StringEntry) (entry : StringEntry)
    (after : List StringEntry) (db : Database)
    → IsLive unix_now (times (length before)) entry.expires_at_unix_ms
    → LeavesAlone unix_now entry.key after
    → (get later entry.key (process_rdb_load (pos unix_now) times (before ++ entry ∷ after) db)).0
      ≡ (if is_left unix_now (times (length before)) later entry.expires_at_unix_ms
          then ok entry.value
          else err key_not_found)
unfolding process_rdb_load
get-process_rdb_load unix_now times later before entry after db live h =
    let loaded_before = process_rdb_load (pos unix_now) times before db in
    ap (λ (d : Database). (get later entry.key d).0)
      (process_rdb_load-append (pos unix_now) times before (entry ∷ after) db)
    ∙ get-process_rdb_load_other unix_now (λ i. times (length before + suc i)) later entry.key after
        (load_entry (pos unix_now) (times (length before + 0)) entry loaded_before) h
    ∙ ap
        (λ (n : ℕ).
          (get later entry.key (load_entry (pos unix_now) (times n) entry loaded_before)).0)
        (omega arith)
    ∙ get-load_entry unix_now (times (length before)) later entry loaded_before live
