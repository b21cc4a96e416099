-- ===== src/Processor/Transactions/Exec/Block.antt =====
-- The payload that EXEC of src/command_processor.cpp makes for the log, as src/aof.cpp reads it back.
use codecrafters_redis_cpp.Prelude.{
  ℕ, suc, ◌≡◌, refl, sym, ap, ap₂, ◌∙◌, true, List, [], ◌∷◌, ◌++◌, append_assoc, append-nil, arith,
  if◌then◌else◌, Bytes, codes, Bool-cases, inl, inr,
}
use codecrafters_redis_cpp.Numeric.{to_string}
use codecrafters_redis_cpp.Resp.{Command, serialize_command}
use codecrafters_redis_cpp.Resp.Reply.{Response, Responses}
use codecrafters_redis_cpp.Database.{Database}
use codecrafters_redis_cpp.Handlers.{Clock, Outcome, replied, undefined}
use codecrafters_redis_cpp.Handlers.Time.{Doubles}
use codecrafters_redis_cpp.Aof.{commands, read_commands}
use codecrafters_redis_cpp.Aof.Reading.{log_of, AllFit, read_commands-log_of}
use codecrafters_redis_cpp.Processor.Table.{dispatch}
use codecrafters_redis_cpp.Processor.Log.{is_logged, normalize_replication_command}
use codecrafters_redis_cpp.Processor.Transactions.Exec.{
  Ran, ran, undefined_run, prepend_reply, opened, after_dispatch, run_queued, closed,
}

module _ (F : Doubles) where
  abbrev logged_by : Command → Outcome → (Database → List Command) → List Command
  logged_by command undefined further = []
  logged_by command (replied reply db) further =
      if is_logged F command reply
      then normalize_replication_command command reply ∷ further db
      else further db

  -- The queued commands that are to be logged, each in its logged form.
  unfoldable pub logged : (ℕ → Clock) → List Command → Database → List Command
  logged clocks [] db = []
  logged clocks (command ∷ queue) db =
      logged_by command (dispatch F (clocks 0) command db)
        (λ db'. logged (λ n. clocks (suc n)) queue db')

-- The payload with more commands.
abbrev extended : Bytes → List Command → Bytes
extended payload [] = payload
extended payload (command ∷ log) = extended (opened payload ++ serialize_command command) log

extended_open :
    (c : ℕ) (payload : Bytes) (log : List Command)
    → extended (c ∷ payload) log ≡ (c ∷ payload) ++ log_of log
extended_open c payload [] = sym (append-nil (c ∷ payload))
extended_open c payload (command ∷ log) =
    extended_open c (payload ++ serialize_command command) log
    ∙ append_assoc (c ∷ payload) (serialize_command command) (log_of log)

abbrev payload_of : Ran → Bytes → Bytes
payload_of undefined_run otherwise = otherwise
payload_of (ran replies payload db) otherwise = payload

module _ (F : Doubles) where
  run_queued_lem :
      (clocks : ℕ → Clock) (queue : List Command) (payload : Bytes) (db : Database)
      → payload_of
          (run_queued F true clocks queue payload db)
          (extended payload (logged F clocks queue db))
        ≡ extended payload (logged F clocks queue db)
  unfolding run_queued logged
  run_queued_lem clocks [] payload db = refl
  run_queued_lem clocks (command ∷ queue) payload db =
      go (dispatch F (clocks 0) command db)
        (λ payload' db'. run_queued_lem (λ n. clocks (suc n)) queue payload' db')
    where
      prepended :
          (reply : Response) (r : Ran) (text : Bytes)
          → payload_of r text ≡ text
          → payload_of (prepend_reply reply r) text ≡ text
      prepended reply (ran replies payload' db') text e = e
      prepended reply undefined_run text e = refl

      go :
          (outcome : Outcome)
          → ((payload' : Bytes) (db' : Database)
              → payload_of
                  (run_queued F true (λ n. clocks (suc n)) queue payload' db')
                  (extended payload' (logged F (λ n. clocks (suc n)) queue db'))
                ≡ extended payload' (logged F (λ n. clocks (suc n)) queue db'))
          → payload_of
              (after_dispatch F true command payload outcome
                (λ payload' db'. run_queued F true (λ n. clocks (suc n)) queue payload' db'))
              (extended payload
                (logged_by F command outcome (λ db'. logged F (λ n. clocks (suc n)) queue db')))
            ≡ extended payload
                (logged_by F command outcome (λ db'. logged F (λ n. clocks (suc n)) queue db'))
      go undefined k = refl
      go (replied reply db') k = elim (Bool-cases (is_logged F command reply)) [
        | inl e ↦
            let text =
              opened payload ++ serialize_command (normalize_replication_command command reply) in
            rw e (
              prepended reply (run_queued F true (λ n. clocks (suc n)) queue text db')
                (extended text (logged F (λ n. clocks (suc n)) queue db')) (k text db'))
        | inr e ↦ rw e (
            prepended reply (run_queued F true (λ n. clocks (suc n)) queue payload db')
              (extended payload (logged F (λ n. clocks (suc n)) queue db')) (k payload db'))
      ]

abbrev multi_command : Command
multi_command = codes "MULTI" ∷ []

abbrev exec_command : Command
exec_command = codes "EXEC" ∷ []

log_of-append :
    (first second : List Command) → log_of (first ++ second) ≡ log_of first ++ log_of second
log_of-append [] second = refl
log_of-append (command ∷ first) second =
    ap (λ (s : Bytes). serialize_command command ++ s) (log_of-append first second)
    ∙ sym (append_assoc (serialize_command command) (log_of first) (log_of second))

extended_block :
    (command : Command) (log : List Command)
    → extended [] (command ∷ log) ≡ log_of (multi_command ∷ command ∷ log)
unfolding serialize_command to_string
extended_block command log =
    extended_open 42 _ log
    ∙ append_assoc (serialize_command multi_command) (serialize_command command) (log_of log)

closed_block :
    (payload : Bytes) (block : List Command)
    → payload ≡ log_of block
    → closed payload ≡ log_of (block ++ exec_command ∷ [])
closed_block payload block e =
    ap closed e
    ∙ ap (λ (s : Bytes). log_of block ++ s) (sym (append-nil (serialize_command exec_command)))
    ∙ sym (log_of-append block (exec_command ∷ []))

-- The commands of a transaction as they stand in the log: MULTI, those that are to be logged, EXEC; or
-- nothing, if there are none.
abbrev pub block : List Command → List Command
block [] = []
block (command ∷ log) = multi_command ∷ ((command ∷ log) ++ exec_command ∷ [])

-- What `conclude` sends to the log.
abbrev pub sent : Bytes → Bytes
sent [] = []
sent (c ∷ payload) = closed (c ∷ payload)

sent_block : (log : List Command) → sent (extended [] log) ≡ log_of (block log)
unfolding serialize_command to_string
sent_block [] = refl
sent_block (command ∷ log) =
    ap sent (extended_block command log)
    ∙ closed_block (log_of (multi_command ∷ command ∷ log)) (multi_command ∷ command ∷ log) refl

pub run_queued-sent :
    (F : Doubles) (clocks : ℕ → Clock) (queue : List Command) (db db' : Database)
    (replies : Responses) (payload : Bytes)
    → run_queued F true clocks queue [] db ≡ ran replies payload db'
    → sent payload ≡ log_of (block (logged F clocks queue db))
run_queued-sent F clocks queue db db' replies payload e =
    ap sent (
      sym (ap (λ r. payload_of r (extended [] (logged F clocks queue db))) e)
      ∙ run_queued_lem F clocks queue [] db)
    ∙ sent_block (logged F clocks queue db)

AllFit-append :
    (first second : List Command) → AllFit first → AllFit second → AllFit (first ++ second)
AllFit-append [] second f g = g
AllFit-append (command ∷ first) second (f, fs) g = (f, AllFit-append first second fs g)

AllFit-block : (log : List Command) → AllFit log → AllFit (block log)
AllFit-block [] f = tt
AllFit-block (command ∷ log) f = (
  (omega arith, omega arith),
  AllFit-append (command ∷ log) (exec_command ∷ []) f ((omega arith, omega arith), tt),
)

-- A log with a block behind it is read back.
pub read_commands-block :
    (earlier log : List Command) (text written : Bytes)
    → text ≡ log_of earlier
    → written ≡ log_of (block log)
    → AllFit earlier
    → AllFit log
    → read_commands (text ++ written) ≡ commands (earlier ++ block log)
read_commands-block earlier log text written e e' f g =
    ap₂ (λ (s t : Bytes). read_commands (s ++ t)) e e'
    ∙ ap read_commands (sym (log_of-append earlier (block log)))
    ∙ read_commands-log_of (earlier ++ block log)
        (AllFit-append earlier (block log) f (AllFit-block log g))
