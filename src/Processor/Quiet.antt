-- ===== src/Processor/Quiet.antt =====
-- Which runs of the handlers show no client a change: the shared lemmas on their replies.

pub mod Commands
use codecrafters_redis_cpp.Prelude.{
  ℕ, ◌≤◌, ◌≡◌, refl, Option, none, some, Bool, true, false, List, [], ◌∷◌, if◌then◌else◌, Bytes,
}
use codecrafters_redis_cpp.Prelude.Int.{ℤ, to_int64}
use codecrafters_redis_cpp.Streams.{StreamId, id_to_string, StreamEntry, ReadRequest, ReadResult}
use codecrafters_redis_cpp.Resp.Reply.{Response, integer, bulk_string, array, null_bulk_string}
use codecrafters_redis_cpp.Database.{
  Database, Result, ok, err, fault, Error, key_not_found, wrong_type, value_not_integer,
  invalid_stream_id_mode, invalid_stream_id_value,
}
use codecrafters_redis_cpp.Database.Expiry.{view}
use codecrafters_redis_cpp.Database.Expiry.Failures.{
  Alike, Alike-refl, KeepsUnlessOk, KeepsUnlessPopped,
}
use codecrafters_redis_cpp.Handlers.{Outcome, replied, undefined}
use codecrafters_redis_cpp.Handlers.Time.{Doubles}
use codecrafters_redis_cpp.Handlers.Strings.{string_reply, incr_reply}
use codecrafters_redis_cpp.Handlers.Rlist.{
  size_reply, range_reply, pop_reply, pop_many_reply, blpop_reply,
}
use codecrafters_redis_cpp.Handlers.Rstream.{xadd_reply, xrange_reply, xread_reply}

-- A reply that is not `logged` comes with a database that looks like `db` from the time `now` on.
abbrev pub Quiet : (Response → Bool) → ℕ → Database → Outcome → Type 0
Quiet logged now db undefined = Unit
Quiet logged now db (replied reply db') = logged reply ≡ false → Alike now db db'

module _ (logged : Response → Bool) (now : ℕ) (db : Database) where
  -- An early return leaves the database as it was.
  pub refusing-Quiet :
      (refuses : Bool) (reply : Response) (outcome : Outcome)
      → Quiet logged now db outcome
      → Quiet logged now db (if refuses then replied reply db else outcome)
  refusing-Quiet true reply outcome q = λ h. Alike-refl now db
  refusing-Quiet false reply outcome q = q

  pub accepting-Quiet :
      (accepts : Bool) (reply : Response) (outcome : Outcome)
      → Quiet logged now db outcome
      → Quiet logged now db (if accepts then outcome else replied reply db)
  accepting-Quiet true reply outcome q = q
  accepting-Quiet false reply outcome q = λ h. Alike-refl now db

  module _ (db' : Database) (a : Alike now db db') where
    pub string_reply-Quiet : (r : Result Bytes) → Quiet logged now db (string_reply r db')
    string_reply-Quiet (ok value) = λ h. a
    string_reply-Quiet (err wrong_type) = λ h. a
    string_reply-Quiet (err key_not_found) = λ h. a
    string_reply-Quiet (err invalid_stream_id_mode) = λ h. a
    string_reply-Quiet (err invalid_stream_id_value) = λ h. a
    string_reply-Quiet (err value_not_integer) = λ h. a
    string_reply-Quiet fault = tt

    pub range_reply-Quiet : (r : Result (List Bytes)) → Quiet logged now db (range_reply r db')
    range_reply-Quiet (ok []) = λ h. a
    range_reply-Quiet (ok (value ∷ values)) = λ h. a
    range_reply-Quiet (err _) = λ h. a
    range_reply-Quiet fault = tt

    pub length_reply-Quiet : (r : Result ℕ) → Quiet logged now db (size_reply r db')
    length_reply-Quiet (ok n) = λ h. a
    length_reply-Quiet (err _) = λ h. a
    length_reply-Quiet fault = tt

    pub xrange_reply-Quiet :
        (r : Result (List StreamEntry)) → Quiet logged now db (xrange_reply r db')
    xrange_reply-Quiet (ok entries) = λ h. a
    xrange_reply-Quiet (err wrong_type) = λ h. a
    xrange_reply-Quiet (err key_not_found) = λ h. a
    xrange_reply-Quiet (err invalid_stream_id_mode) = tt
    xrange_reply-Quiet (err invalid_stream_id_value) = tt
    xrange_reply-Quiet (err value_not_integer) = tt
    xrange_reply-Quiet fault = tt

    pub xread_reply-Quiet :
        (r : Result (List ReadResult)) (requests : List ReadRequest)
        → Quiet logged now db (xread_reply (r, requests, db'))
    xread_reply-Quiet (ok results) requests = λ h. a
    xread_reply-Quiet (err wrong_type) requests = λ h. a
    xread_reply-Quiet (err key_not_found) requests = λ h. a
    xread_reply-Quiet (err invalid_stream_id_mode) requests = λ h. a
    xread_reply-Quiet (err invalid_stream_id_value) requests = λ h. a
    xread_reply-Quiet (err value_not_integer) requests = λ h. a
    xread_reply-Quiet fault requests = tt

  kept : (db₁ db' : Database) → Alike now db db₁ → db' ≡ db₁ → Alike now db db'
  kept db₁ db' a e = rw e a

  -- The writes: a success is logged, and a failure leaves what the lookup left.
  module _ (db₁ db' : Database) (a : Alike now db db₁) where
    pub size_reply-Quiet :
        ((n : ℤ) → logged (integer n) ≡ true)
        → (r : Result ℕ) → KeepsUnlessOk db₁ (r, db')
        → Quiet logged now db (size_reply r db')
    size_reply-Quiet p (ok n) k = λ h. cc (p (to_int64 n), h)
    size_reply-Quiet p (err _) k = λ h. kept db₁ db' a k
    size_reply-Quiet p fault k = tt

    pub incr_reply-Quiet :
        ((n : ℤ) → logged (integer n) ≡ true)
        → (r : Result ℤ) → KeepsUnlessOk db₁ (r, db')
        → Quiet logged now db (incr_reply r db')
    incr_reply-Quiet p (ok n) k = λ h. cc (p n, h)
    incr_reply-Quiet p (err wrong_type) k = λ h. kept db₁ db' a k
    incr_reply-Quiet p (err value_not_integer) k = λ h. kept db₁ db' a k
    incr_reply-Quiet p (err key_not_found) k = tt
    incr_reply-Quiet p (err invalid_stream_id_mode) k = tt
    incr_reply-Quiet p (err invalid_stream_id_value) k = tt
    incr_reply-Quiet p fault k = tt

    pub pop_reply-Quiet :
        ((value : Bytes) → logged (bulk_string value) ≡ true)
        → (r : Result Bytes) → KeepsUnlessOk db₁ (r, db')
        → Quiet logged now db (pop_reply r db')
    pop_reply-Quiet p (ok value) k = λ h. cc (p value, h)
    pop_reply-Quiet p (err wrong_type) k = λ h. kept db₁ db' a k
    pop_reply-Quiet p (err key_not_found) k = λ h. kept db₁ db' a k
    pop_reply-Quiet p (err invalid_stream_id_mode) k = λ h. kept db₁ db' a k
    pop_reply-Quiet p (err invalid_stream_id_value) k = λ h. kept db₁ db' a k
    pop_reply-Quiet p (err value_not_integer) k = λ h. kept db₁ db' a k
    pop_reply-Quiet p fault k = tt

    pub pop_many_reply-Quiet :
        ((value : Bytes) (values : List Bytes) → logged (array (value ∷ values)) ≡ true)
        → (r : Result (List Bytes)) → KeepsUnlessPopped db₁ (r, db')
        → Quiet logged now db (pop_many_reply r db')
    pop_many_reply-Quiet p (ok []) k = λ h. kept db₁ db' a k
    pop_many_reply-Quiet p (ok (value ∷ values)) k = λ h. cc (p value values, h)
    pop_many_reply-Quiet p (err wrong_type) k = λ h. kept db₁ db' a k
    pop_many_reply-Quiet p (err key_not_found) k = λ h. kept db₁ db' a k
    pop_many_reply-Quiet p (err invalid_stream_id_mode) k = λ h. kept db₁ db' a k
    pop_many_reply-Quiet p (err invalid_stream_id_value) k = λ h. kept db₁ db' a k
    pop_many_reply-Quiet p (err value_not_integer) k = λ h. kept db₁ db' a k
    pop_many_reply-Quiet p fault k = tt

    pub xadd_reply-Quiet :
        ((id : Bytes) → logged (bulk_string id) ≡ true)
        → (r : Result StreamId) → KeepsUnlessOk db₁ (r, db')
        → Quiet logged now db (xadd_reply r db')
    xadd_reply-Quiet p (ok id) k = λ h. cc (p (id_to_string id), h)
    xadd_reply-Quiet p (err wrong_type) k = λ h. kept db₁ db' a k
    xadd_reply-Quiet p (err invalid_stream_id_value) k = λ h. kept db₁ db' a k
    xadd_reply-Quiet p (err key_not_found) k = tt
    xadd_reply-Quiet p (err invalid_stream_id_mode) k = tt
    xadd_reply-Quiet p (err value_not_integer) k = tt
    xadd_reply-Quiet p fault k = tt

pub blpop_reply-Quiet :
    (F : Doubles) (logged : Response → Bool) (now : ℕ) (db db₁ db' : Database)
    → Alike now db db₁
    → (key : Bytes) → ((value : Bytes) → logged (array (key ∷ value ∷ [])) ≡ true)
    → (r : Result Bytes) → KeepsUnlessOk db₁ (r, db')
    → Quiet logged now db (blpop_reply F key r db')
blpop_reply-Quiet F logged now db db₁ db' a key p (ok value) k = λ h. cc (p value, h)
blpop_reply-Quiet F logged now db db₁ db' a key p (err wrong_type) k =
    λ h. kept logged now db db₁ db' a k
blpop_reply-Quiet F logged now db db₁ db' a key p (err key_not_found) k =
    λ h. kept logged now db db₁ db' a k
blpop_reply-Quiet F logged now db db₁ db' a key p (err invalid_stream_id_mode) k =
    λ h. kept logged now db db₁ db' a k
blpop_reply-Quiet F logged now db db₁ db' a key p (err invalid_stream_id_value) k =
    λ h. kept logged now db db₁ db' a k
blpop_reply-Quiet F logged now db db₁ db' a key p (err value_not_integer) k =
    λ h. kept logged now db db₁ db' a k
blpop_reply-Quiet F logged now db db₁ db' a key p fault k = tt
