-- ===== src/Database/Expiry/Loops.antt =====
-- What the loops of src/database.cpp over keys and requests show to clients: KEYS and XREAD expire
-- several keys.
use codecrafters_redis_cpp.Prelude.{
  ℕ, suc, ◌≤◌, ◌≡◌, refl, ◌∙◌, Bool, true, false, Option, none, some, List, [], ◌∷◌, ◌++◌, arith,
  if◌then◌else◌, Bytes, str_eq, Bool-cases, str_eq_iff, inl, inr,
}
use codecrafters_redis_cpp.Prelude.Int.{ℤ, pos, negsuc}
use codecrafters_redis_cpp.Prelude.Map.{Map, bytes_eq, find, find-erase}
use codecrafters_redis_cpp.Streams.{ReadRequest, ReadResult}
use codecrafters_redis_cpp.Database.{
  Entry, Database, has_expired, find_active_entry, mark_key_modified, erase_entry, visit_keys, keys,
  Result, ok, err, fault,
}
use codecrafters_redis_cpp.Database.Reads.{
  Resolution, keep_going, resolve_requests, answer, go_on, collect_results, after_resolution,
  read_streams,
}
use codecrafters_redis_cpp.Database.StreamOps.{resolve}
use codecrafters_redis_cpp.Database.Expiry.{live, view, view-find_active_entry}

-- Every entry of the list is the one that a lookup in `all` finds: no key stands in it twice.
abbrev pub AllFound : Map Bytes Entry → Map Bytes Entry → Type 0
AllFound [] all = Unit
AllFound ((key, entry) ∷ entries) all = (find key all ≡ some entry) × AllFound entries all

-- An `std::unordered_map` has one entry for a key.
abbrev pub IsMap : Map Bytes Entry → Type 0
IsMap entries = AllFound entries entries

-- The expired entries of the list are out of sight already.
abbrev AllGone : ℕ → Map Bytes Entry → Database → Type 0
AllGone now [] db = Unit
AllGone now ((key, entry) ∷ entries) db =
    (has_expired now entry.expires_at ≡ true → view now key db ≡ none) × AllGone now entries db

found-AllGone :
    (now : ℕ) (entries : Map Bytes Entry) (db : Database)
    → AllFound entries db.entries
    → AllGone now entries db
unfolding view
found-AllGone now [] db f = tt
found-AllGone now ((key, entry) ∷ entries) db (e, f) =
    ((λ h. rw e (rw h refl)), found-AllGone now entries db f)

view-dropped :
    (now : ℕ) (key other : Bytes) (db : Database)
    → view now other (erase_entry key (mark_key_modified key db))
      ≡ (if str_eq key other then none else view now other db)
unfolding view erase_entry mark_key_modified
view-dropped now key other db = ground (arith, find-erase key other db.entries)

dropped-AllGone :
    (now : ℕ) (key : Bytes) (entries : Map Bytes Entry) (db : Database)
    → AllGone now entries db
    → AllGone now entries (erase_entry key (mark_key_modified key db))
dropped-AllGone now key [] db g = tt
dropped-AllGone now key ((other, entry) ∷ entries) db (g, gs) = (
  (λ h. ground (arith, view-dropped now key other db, g h)),
  dropped-AllGone now key entries db gs,
)

has_expired_later :
    (now later : ℕ) (expires_at : Option ℤ)
    → now ≤ later
    → has_expired now expires_at ≡ true
    → has_expired later expires_at ≡ true
has_expired_later now later none h e = cc
has_expired_later now later (some (pos n)) h e = ground arith
has_expired_later now later (some (negsuc n)) h e = ground arith

live-none_later :
    (now later : ℕ) (found : Option Entry)
    → now ≤ later
    → live now found ≡ none
    → live later found ≡ none
live-none_later now later none h e = refl
live-none_later now later (some entry) h e = elim (Bool-cases (has_expired now entry.expires_at)) [
  | inl d ↦ rw (has_expired_later now later entry.expires_at h d) refl
  | inr d ↦ cc (rw d at e)
]

pub view-none_later :
    (now later : ℕ) (key : Bytes) (db : Database)
    → now ≤ later
    → view now key db ≡ none
    → view later key db ≡ none
unfolding view
view-none_later now later key db h e = live-none_later now later (find key db.entries) h e

dropped_unobservable :
    (now later : ℕ) (key other : Bytes) (db : Database)
    → now ≤ later
    → view now key db ≡ none
    → view later other (erase_entry key (mark_key_modified key db)) ≡ view later other db
dropped_unobservable now later key other db h e = ground (
  arith,
  view-dropped later key other db,
  view-none_later now later key db h e,
  str_eq_iff key other,
)

drop_if_unobservable :
    (expired : Bool) (now later : ℕ) (key other : Bytes) (db : Database)
    → now ≤ later
    → (expired ≡ true → view now key db ≡ none)
    → view later other (if expired then erase_entry key (mark_key_modified key db) else db)
      ≡ view later other db
drop_if_unobservable true now later key other db h g =
    dropped_unobservable now later key other db h (g refl)
drop_if_unobservable false now later key other db h g = refl

drop_if-AllGone :
    (expired : Bool) (now : ℕ) (key : Bytes) (entries : Map Bytes Entry) (db : Database)
    → AllGone now entries db
    → AllGone now entries (if expired then erase_entry key (mark_key_modified key db) else db)
drop_if-AllGone true now key entries db g = dropped-AllGone now key entries db g
drop_if-AllGone false now key entries db g = g

visit_keys_unobservable :
    (now : ℕ) (unvisited : Map Bytes Entry) (result : List Bytes) (db : Database)
    → AllGone now unvisited db
    → (later : ℕ) (other : Bytes) → now ≤ later
    → view later other (visit_keys now unvisited result db).1 ≡ view later other db
unfolding visit_keys
visit_keys_unobservable now [] result db g later other h = refl
visit_keys_unobservable now ((key, entry) ∷ unvisited) result db (g, gs) later other h =
    let expired = has_expired now entry.expires_at in
    visit_keys_unobservable now unvisited _ _ (drop_if-AllGone expired now key unvisited db gs)
      later other h
    ∙ drop_if_unobservable expired now later key other db h g

-- KEYS shows no client a change.
pub keys_unobservable :
    (now later : ℕ) (other : Bytes) (db : Database)
    → IsMap db.entries
    → now ≤ later
    → view later other (keys now db).1 ≡ view later other db
unfolding keys
keys_unobservable now later other db m h =
    visit_keys_unobservable now db.entries [] db (found-AllGone now db.entries db m) later other h

resolve_requests_unobservable :
    (times : ℕ → ℕ) (later : ℕ) (requests : List ReadRequest) (other : Bytes) (db : Database)
    → ((n : ℕ) → times n ≤ later)
    → view later other (resolve_requests times requests db).2 ≡ view later other db
unfolding resolve_requests
resolve_requests_unobservable times later [] other db h = refl
resolve_requests_unobservable times later (request ∷ requests) other db h =
    let first = view-find_active_entry (times 0) later request.key other db (h 0) in
    go (resolve request (find_active_entry (times 0) request.key db).0)
      (resolve_requests (λ n. times (suc n)) requests
        (find_active_entry (times 0) request.key db).1)
      (resolve_requests_unobservable (λ n. times (suc n)) later requests other
        (find_active_entry (times 0) request.key db).1 (λ n. h (suc n)))
    ∙ first
  where
    db' : Database
    db' = (find_active_entry (times 0) request.key db).1

    go :
        (r : Result ReadRequest) (rest : Resolution)
        → view later other rest.2 ≡ view later other db'
        → view later other (keep_going request requests r db' rest).2 ≡ view later other db'
    go (ok request') rest e = e
    go (err _) rest e = refl
    go fault rest e = refl

collect_results_unobservable :
    (times : ℕ → ℕ) (later : ℕ) (requests : List ReadRequest) (results : List ReadResult)
    (other : Bytes) (db : Database)
    → ((n : ℕ) → times n ≤ later)
    → view later other (collect_results times requests results db).1 ≡ view later other db
unfolding collect_results
collect_results_unobservable times later [] results other db h = refl
collect_results_unobservable times later (request ∷ requests) results other db h =
    let first = view-find_active_entry (times 0) later request.key other db (h 0) in
    go (answer request (find_active_entry (times 0) request.key db).0) (λ results'.
      collect_results_unobservable (λ n. times (suc n)) later requests results' other
        (find_active_entry (times 0) request.key db).1 (λ n. h (suc n)))
    ∙ first
  where
    db' : Database
    db' = (find_active_entry (times 0) request.key db).1

    go :
        (r : Result (List ReadResult))
        → ((results' : List ReadResult)
            → view later other (collect_results (λ n. times (suc n)) requests results' db').1
              ≡ view later other db')
        → view later other
            (go_on results r db'
              (λ results'. collect_results (λ n. times (suc n)) requests results' db')).1
          ≡ view later other db'
    go (ok more) k = k (results ++ more)
    go (err _) k = refl
    go fault k = refl

-- XREAD shows no client a change.
pub read_streams_unobservable :
    (times times' : ℕ → ℕ) (later : ℕ) (requests : List ReadRequest) (other : Bytes) (db : Database)
    → ((n : ℕ) → times n ≤ later)
    → ((n : ℕ) → times' n ≤ later)
    → view later other (read_streams times times' requests db).2 ≡ view later other db
unfolding read_streams
read_streams_unobservable times times' later requests other db h k =
    go (resolve_requests times requests db)
      (resolve_requests_unobservable times later requests other db h)
  where
    go :
        (r : Resolution)
        → view later other r.2 ≡ view later other db
        → view later other (after_resolution times' r).2 ≡ view later other db
    go (some _, requests', db') e = e
    go (none, requests', db') e =
        collect_results_unobservable times' later requests' [] other db' k ∙ e
