-- ===== src/Database/Reads.antt =====
-- `read_streams` of src/database.cpp: the requests of XREAD, resolved in place and then answered.
use codecrafters_redis_cpp.Prelude.{ℕ, suc, Option, none, some, List, [], ◌∷◌, ◌++◌, drop}
use codecrafters_redis_cpp.Streams.{StreamEntry, ReadRequest, ReadResult}
use codecrafters_redis_cpp.Database.{
  Value, string, list, stream, Entry, Database, Error, wrong_type, Result, ok, err, fault,
  find_active_entry,
}
use codecrafters_redis_cpp.Database.StreamOps.{resolve}
use codecrafters_redis_cpp.Database.StreamOps.Search.{upper_bound}

-- The requests as they stand when the first loop ends, and the error that ended it early.
abbrev pub Resolution : Type 0
Resolution = Option Error × List ReadRequest × Database

abbrev pub keep_going :
    ReadRequest → List ReadRequest → Result ReadRequest → Database → Resolution → Resolution
keep_going request requests (err e) db further = (some e, request ∷ requests, db)
keep_going request requests fault db further = (none, request ∷ requests, db)
keep_going request requests (ok request') db (failure, requests', db') =
    (failure, request' ∷ requests', db')

unfoldable pub resolve_requests : (ℕ → ℕ) → List ReadRequest → Database → Resolution
unfolding find_active_entry
resolve_requests times [] db = (none, [], db)
resolve_requests times (request ∷ requests) db =
    let (found, db') = find_active_entry (times 0) request.key db in
    let further = resolve_requests (λ n. times (suc n)) requests db' in
    keep_going request requests (resolve request found) db' further

-- What a request adds to the results.
abbrev pub unread : ReadRequest → List StreamEntry → List ReadResult
unread request [] = []
unread request (entry ∷ entries) = record { key = request.key; entries = entry ∷ entries } ∷ []

abbrev pub answer_value : ReadRequest → Value → Result (List ReadResult)
answer_value request (string _) = err wrong_type
answer_value request (list _) = err wrong_type
answer_value request (stream entries) =
    ok (unread request (drop (upper_bound entries request.after_id) entries))

abbrev pub answer : ReadRequest → Option Entry → Result (List ReadResult)
answer request none = ok []
answer request (some entry) = answer_value request entry.value

abbrev pub go_on :
    List ReadResult
    → Result (List ReadResult)
    → Database
    → (List ReadResult → Result (List ReadResult) × Database)
    → Result (List ReadResult) × Database
go_on results (err e) db further = (err e, db)
go_on results fault db further = (fault, db)
go_on results (ok more) db further = further (results ++ more)

-- The second loop.
unfoldable pub collect_results :
    (ℕ → ℕ) → List ReadRequest → List ReadResult → Database → Result (List ReadResult) × Database
unfolding find_active_entry
collect_results times [] results db = (ok results, db)
collect_results times (request ∷ requests) results db =
    let (found, db') = find_active_entry (times 0) request.key db in
    go_on results (answer request found) db'
      (λ results'. collect_results (λ n. times (suc n)) requests results' db')

abbrev pub ReadOutcome : Type 0
ReadOutcome = Result (List ReadResult) × List ReadRequest × Database

abbrev pub after_resolution : (ℕ → ℕ) → Resolution → ReadOutcome
after_resolution times (some e, requests, db) = (err e, requests, db)
after_resolution times (none, requests, db) =
    let (result, db') = collect_results times requests [] db in (result, requests, db')

-- Each loop reads the clock at each of its lookups.
unfoldable pub read_streams : (ℕ → ℕ) → (ℕ → ℕ) → List ReadRequest → Database → ReadOutcome
unfolding resolve_requests collect_results
read_streams times times' requests db = after_resolution times' (resolve_requests times requests db)
