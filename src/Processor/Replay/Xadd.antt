-- ===== src/Processor/Replay/Xadd.antt =====
-- XADD of src/rstream.cpp, run again in the form in which src/command_processor.cpp logs it: with
-- the identifier that was generated.
use codecrafters_redis_cpp.Prelude.{
  ℕ, ◌≤◌, ◌<◌, ◌≡◌, refl, sym, ap, ◌∙◌, Bool, true, false, ◌&&◌, Option, none, some, List, ◌∷◌,
  ◌==◌, ltb, length, drop, Bytes, Bool-cases, inl, inr,
}
use codecrafters_redis_cpp.Numeric.{max_uint64}
use codecrafters_redis_cpp.Resp.{Command}
use codecrafters_redis_cpp.Resp.Reply.{Response, bulk_string}
use codecrafters_redis_cpp.Streams.{
  StreamId, id_to_string, IdMode, explicit, automatic, automatic_sequence, IdRequest,
}
use codecrafters_redis_cpp.Database.{
  Database, Result, ok, err, fault, key_not_found, wrong_type, value_not_integer,
  invalid_stream_id_mode, invalid_stream_id_value,
}
use codecrafters_redis_cpp.Database.StreamOps.{add_stream}
use codecrafters_redis_cpp.Database.StreamOps.Explicit.{
  explicit_of, IsAccepted, add_stream_explicit,
}
use codecrafters_redis_cpp.Database.Validity.{IsValid}
use codecrafters_redis_cpp.Handlers.{word, Clock, Outcome, replied, undefined}
use codecrafters_redis_cpp.Handlers.Rstream.{
  xadd, xadd_request, xadd_values, xadd_reply, is_explicit,
}
use codecrafters_redis_cpp.Handlers.Rstream.Parse.{parse_id, parse_value_list}
use codecrafters_redis_cpp.Handlers.Rstream.RoundTrip.{
  parse_id-id_to_string, RequestFits, parse_id-RequestFits,
}
use codecrafters_redis_cpp.Processor.Log.{response_is_error}

-- The clock of another run at the same time of the steady clock.
abbrev pub rerun : Clock → Clock → Clock
rerun clock again = record again { steady = clock.steady }

abbrev pub reports_error : Outcome → Bool
reports_error undefined = true
reports_error (replied reply db) = response_is_error reply

pub error_refuted :
    {A : Type 0} (outcome : Outcome) {reply : Response} {db : Database}
    → outcome ≡ replied reply db
    → response_is_error reply ≡ false
    → reports_error outcome ≡ true
    → A
error_refuted outcome e l h = absurd (true-ne-false (sym h ∙ ap reports_error e ∙ l))
  where
    true-ne-false : true ≡ false → ⊥
    true-ne-false p = cc

abbrev refuses_zero : IdRequest → Bool
refuses_zero request =
    is_explicit request.mode && ((request.milliseconds == 0) && (request.sequence == 0))

accepted :
    (mode : IdMode) (milliseconds sequence : ℕ)
    → refuses_zero (record { mode = mode; milliseconds = milliseconds; sequence = sequence })
      ≡ false
    → IsAccepted (record { mode = mode; milliseconds = milliseconds; sequence = sequence })
accepted explicit m s e = e
accepted automatic m s e = tt
accepted automatic_sequence m s e = tt

-- XADD whose checks pass.
xadd_lem :
    (clock : Clock) (command : Command) (db : Database) (request : IdRequest)
    (values : List (Bytes × Bytes))
    → ltb (length command) 5 ≡ false
    → parse_id (word command 2) ≡ some request
    → refuses_zero request ≡ false
    → parse_value_list (drop 3 command) ≡ some values
    → xadd clock command db
      ≡ xadd_reply
          (add_stream clock.steady clock.unix_ms (word command 1) request values db).0
          (add_stream clock.steady clock.unix_ms (word command 1) request values db).1
unfolding xadd
xadd_lem clock command db request values a b c d = rw (a, b, c, d) refl

-- A reply that is no error is the identifier, and the run with it in place of what was asked for
-- replies the same and leaves the same.
abbrev Replayed : Clock → Bytes → Bytes → List Bytes → Database → Response → Database → Type 0
Replayed clock name key arguments db reply db' =
    (text : Bytes) × (reply ≡ bulk_string text)
    × (xadd clock (name ∷ key ∷ text ∷ arguments) db ≡ replied reply db')

module _ (clock again : Clock) (name key old : Bytes) (arguments : List Bytes) (db db' : Database)
    (reply : Response) (awake : 0 < clock.unix_ms) (fits : clock.unix_ms ≤ max_uint64)
    (valid : IsValid db) (succeeded : response_is_error reply ≡ false) where
  added :
      (request : IdRequest) (values : List (Bytes × Bytes))
      → RequestFits (some request)
      → IsAccepted request
      → ltb (length (name ∷ key ∷ old ∷ arguments)) 5 ≡ false
      → parse_value_list arguments ≡ some values
      → (r : Result StreamId) → (add_stream clock.steady clock.unix_ms key request values db).0 ≡ r
      → xadd_reply r (add_stream clock.steady clock.unix_ms key request values db).1
        ≡ replied reply db'
      → Replayed (rerun clock again) name key arguments db reply db'
  added request values f a long d (ok id) r e =
      let (same, known) =
        add_stream_explicit clock.unix_ms again.unix_ms key request values id clock.steady db r
          valid in
      let is_id = known.fits (record { clock = fits; milliseconds = f.0; sequence = f.1 }) in
      (
        id_to_string id,
        cc,
        xadd_lem (rerun clock again) (name ∷ key ∷ id_to_string id ∷ arguments) db (explicit_of id)
              values long (parse_id-id_to_string id is_id).0 (known.not_zero a awake) d
            ∙ ap (λ (p : Result StreamId × Database). xadd_reply p.0 p.1) same
            ∙ ap (λ x. xadd_reply x (add_stream clock.steady clock.unix_ms key request values db).1)
                r
            ∙ e,
      )
  added request values f a long d (err wrong_type) r e = error_refuted _ e succeeded refl
  added request values f a long d (err invalid_stream_id_value) r e =
      error_refuted _ e succeeded refl
  added request values f a long d (err key_not_found) r e = error_refuted _ e succeeded refl
  added request values f a long d (err invalid_stream_id_mode) r e =
      error_refuted _ e succeeded refl
  added request values f a long d (err value_not_integer) r e = error_refuted _ e succeeded refl
  added request values f a long d fault r e = error_refuted _ e succeeded refl

  valued :
      (request : IdRequest) (values : Option (List (Bytes × Bytes)))
      → RequestFits (some request)
      → IsAccepted request
      → ltb (length (name ∷ key ∷ old ∷ arguments)) 5 ≡ false
      → parse_value_list arguments ≡ values
      → xadd_values clock (name ∷ key ∷ old ∷ arguments) request values db ≡ replied reply db'
      → Replayed (rerun clock again) name key arguments db reply db'
  valued request none f a long d e = error_refuted _ e succeeded refl
  valued request (some values) f a long d e =
      added request values f a long d
        (add_stream clock.steady clock.unix_ms key request values db).0 refl e

  requested :
      (request : Option IdRequest)
      → RequestFits request
      → ltb (length (name ∷ key ∷ old ∷ arguments)) 5 ≡ false
      → xadd_request clock (name ∷ key ∷ old ∷ arguments) request db ≡ replied reply db'
      → Replayed (rerun clock again) name key arguments db reply db'
  requested none f long e = error_refuted _ e succeeded refl
  requested (some request) f long e = elim (Bool-cases (refuses_zero request)) [
    | inl h ↦ error_refuted _ (rw h at e) succeeded refl
    | inr h ↦
        valued request (parse_value_list arguments) f
          (accepted request.mode request.milliseconds request.sequence h) long refl (rw h at e)
  ]

  pub xadd_replayed :
      xadd clock (name ∷ key ∷ old ∷ arguments) db ≡ replied reply db'
      → Replayed (rerun clock again) name key arguments db reply db'
  unfolding xadd
  xadd_replayed e = elim (Bool-cases (ltb (length (name ∷ key ∷ old ∷ arguments)) 5)) [
    | inl h ↦ error_refuted _ (rw h at e) succeeded refl
    | inr h ↦ requested (parse_id old) (parse_id-RequestFits old) h (rw h at e)
  ]
