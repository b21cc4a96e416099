-- ===== src/Database/Revisions/Loops.antt =====
-- The loops of `keys` and `read_streams` in src/database.cpp keep the books of revision numbers.
use codecrafters_redis_cpp.Prelude.{
  ℕ, suc, ◌+◌, ◌≤◌, ◌≡◌, refl, ap, subst, Bool, true, false, none, some, List, [], ◌∷◌, ◌++◌, arith,
  Bytes, length, if◌then◌else◌,
}
use codecrafters_redis_cpp.Prelude.Map.{Map, bytes_eq}
use codecrafters_redis_cpp.Streams.{ReadRequest, ReadResult}
use codecrafters_redis_cpp.Database.{
  Entry, Database, Result, ok, err, fault, has_expired, mark_key_modified, erase_entry,
  find_active_entry, visit_keys,
}
use codecrafters_redis_cpp.Database.StreamOps.{resolve}
use codecrafters_redis_cpp.Database.Reads.{
  Resolution, resolve_requests, collect_results, read_streams, after_resolution, keep_going, go_on,
  answer,
}
use codecrafters_redis_cpp.Database.Revisions.{
  Advances, Advances-refl, Advances-trans, HasRoom, mark-Advances, erase-ChangesOnly,
  find_active_entry-Advances,
}

pub weaken :
    {m n : ℕ} (key : Bytes) (db later : Database)
    → m ≤ n
    → Advances m key db later
    → Advances n key db later
weaken key db later h a = record {
  grows = a.grows;
  bound = omega (arith, a.bound);
  fresh = a.fresh;
  kept = a.kept;
}

one_more :
    (n : ℕ) (key : Bytes) (a b c : Database)
    → Advances 1 key a b
    → Advances n key b c
    → Advances (suc n) key a c
one_more n key a b c p q = weaken key a c (omega arith) (Advances-trans 1 n key a b c p q)

-- The order of the two writes does not matter.
mark-erase :
    (key : Bytes) (db : Database)
    → erase_entry key (mark_key_modified key db) ≡ mark_key_modified key (erase_entry key db)
unfolding erase_entry mark_key_modified
mark-erase key db = refl

drop_if-Advances :
    (expired : Bool) (key other : Bytes) (db : Database)
    → HasRoom 1 db
    → Advances 1 other db (if expired then erase_entry key (mark_key_modified key db) else db)
drop_if-Advances true key other db h =
    rw (mark-erase key db) (mark-Advances key other db _ h (erase-ChangesOnly key db))
drop_if-Advances false key other db h = Advances-refl 1 other db

pub visit_keys-Advances :
    (now : ℕ) (unvisited : Map Bytes Entry) (result : List Bytes) (other : Bytes) (db : Database)
    → HasRoom (length unvisited) db
    → Advances (length unvisited) other db (visit_keys now unvisited result db).1
unfolding visit_keys
visit_keys-Advances now [] result other db h = Advances-refl 0 other db
visit_keys-Advances now ((key, entry) ∷ unvisited) result other db h =
    let first = drop_if-Advances (has_expired now entry.expires_at) key other db (omega arith) in
    one_more (length unvisited) other db _ _ first
      (visit_keys-Advances now unvisited _ other _ (omega (arith, first.bound)))

resolve_requests-Advances :
    (times : ℕ → ℕ) (requests : List ReadRequest) (other : Bytes) (db : Database)
    → HasRoom (length requests) db
    → Advances (length requests) other db (resolve_requests times requests db).2
unfolding resolve_requests
resolve_requests-Advances times [] other db h = Advances-refl 0 other db
resolve_requests-Advances times (request ∷ requests) other db h =
    let first = find_active_entry-Advances (times 0) request.key other db (omega arith) in
    let further =
      resolve_requests-Advances (λ n. times (suc n)) requests other
        (find_active_entry (times 0) request.key db).1 (omega (arith, first.bound)) in
    one_more (length requests) other db _ _ first (
      go (resolve request (find_active_entry (times 0) request.key db).0)
        (resolve_requests (λ n. times (suc n)) requests
          (find_active_entry (times 0) request.key db).1)
        further)
  where
    go :
        (r : Result ReadRequest) (rest : Resolution)
        → Advances (length requests) other (find_active_entry (times 0) request.key db).1 rest.2
        → Advances
            (length requests)
            other
            (find_active_entry (times 0) request.key db).1
            (keep_going request requests r (find_active_entry (times 0) request.key db).1 rest).2
    go (ok request') rest a = a
    go (err e) rest a = Advances-refl (length requests) other _
    go fault rest a = Advances-refl (length requests) other _

collect_results-Advances :
    (times : ℕ → ℕ) (requests : List ReadRequest) (results : List ReadResult) (other : Bytes)
    (db : Database)
    → HasRoom (length requests) db
    → Advances (length requests) other db (collect_results times requests results db).1
unfolding collect_results
collect_results-Advances times [] results other db h = Advances-refl 0 other db
collect_results-Advances times (request ∷ requests) results other db h =
    let first = find_active_entry-Advances (times 0) request.key other db (omega arith) in
    one_more (length requests) other db _ _ first (
      go (answer request (find_active_entry (times 0) request.key db).0) (λ results'.
        collect_results-Advances (λ n. times (suc n)) requests results' other
          (find_active_entry (times 0) request.key db).1 (omega (arith, first.bound))))
  where
    go :
        (r : Result (List ReadResult))
        → ((results' : List ReadResult)
            → Advances
                (length requests)
                other
                (find_active_entry (times 0) request.key db).1
                (collect_results
                  (λ n. times (suc n))
                  requests
                  results'
                  (find_active_entry (times 0) request.key db).1).1)
        → Advances
            (length requests)
            other
            (find_active_entry (times 0) request.key db).1
            (go_on results r (find_active_entry (times 0) request.key db).1 (λ results'.
              collect_results
                (λ n. times (suc n))
                requests
                results'
                (find_active_entry (times 0) request.key db).1)).1
    go (ok more) k = k (results ++ more)
    go (err e) k = Advances-refl (length requests) other _
    go fault k = Advances-refl (length requests) other _

resolved-length :
    (times : ℕ → ℕ) (requests : List ReadRequest) (db : Database)
    → length (resolve_requests times requests db).1 ≡ length requests
unfolding resolve_requests
resolved-length times [] db = refl
resolved-length times (request ∷ requests) db =
    go (resolve request (find_active_entry (times 0) request.key db).0)
      (resolve_requests (λ n. times (suc n)) requests
        (find_active_entry (times 0) request.key db).1)
      (resolved-length (λ n. times (suc n)) requests (find_active_entry (times 0) request.key db).1)
  where
    go :
        (r : Result ReadRequest) (rest : Resolution)
        → length rest.1 ≡ length requests
        → length
            (keep_going request requests r (find_active_entry (times 0) request.key db).1 rest).1
          ≡ suc (length requests)
    go (ok request') rest l = ap suc l
    go (err e) rest l = refl
    go fault rest l = refl

pub lookup_only :
    (now : ℕ) (key other : Bytes) (db : Database)
    → HasRoom 2 db
    → Advances 2 other db (find_active_entry now key db).1
lookup_only now key other db h =
    weaken other db _ (omega arith) (find_active_entry-Advances now key other db (omega arith))

pub read_streams-Advances :
    (times times' : ℕ → ℕ) (requests : List ReadRequest) (other : Bytes) (db : Database)
    → HasRoom (length requests + length requests) db
    → Advances
        (length requests + length requests)
        other
        db
        (read_streams times times' requests db).2
unfolding read_streams
read_streams-Advances times times' requests other db h =
    go (resolve_requests times requests db)
      (resolve_requests-Advances times requests other db (omega arith))
      (resolved-length times requests db)
  where
    go :
        (r : Resolution)
        → Advances (length requests) other db r.2
        → length r.1 ≡ length requests
        → Advances (length requests + length requests) other db (after_resolution times' r).2
    go (some e, requests', db') a l = weaken other db db' (omega arith) a
    go (none, requests', db') a l =
        Advances-trans (length requests) (length requests) other db db' _ a (
          subst (λ n. Advances n other db' (collect_results times' requests' [] db').1) l
            (collect_results-Advances times' requests' [] other db' (omega (arith, a.bound))))
