-- ===== src/Processor/Transactions/Exec/Logged.antt =====
-- What EXEC of src/command_processor.cpp leaves in the file of the log.
use codecrafters_redis_cpp.Prelude.{
  ℕ, ◌≡◌, refl, sym, ap, subst, ◌∙◌, Bool, true, false, ◌&&◌, ◌||◌, not, Option, none, some, List,
  [], ◌∷◌, ◌++◌, append-nil, Bytes,
}
use codecrafters_redis_cpp.Prelude.Map.{nat_eq, find, erase}
use codecrafters_redis_cpp.Resp.{Command}
use codecrafters_redis_cpp.Resp.Reply.{Responses, response_array}
use codecrafters_redis_cpp.Database.{Database}
use codecrafters_redis_cpp.Handlers.Time.{Doubles}
use codecrafters_redis_cpp.Aof.{
  commands, read_commands, Appended, appended, no_append, waiting, AppendOnlyFile,
}
use codecrafters_redis_cpp.Aof.Reading.{log_of, AllFit}
use codecrafters_redis_cpp.Aof.Appending.{Kept, append-Kept}
use codecrafters_redis_cpp.Processor.Transactions.{
  CommandSource, TransactionState, State, System, Step, answered, undefined_step, writing,
  watched_of, any_changed,
}
use codecrafters_redis_cpp.Processor.Transactions.Exec.{
  Ran, ran, undefined_run, closed, replicated, after_append, persist, conclude, run_queued,
  run_transaction, execute_transaction, is_master, is_client, is_aof, has_file,
}
use codecrafters_redis_cpp.Processor.Transactions.Exec.Ends.{either}
use codecrafters_redis_cpp.Processor.Transactions.Exec.Block.{
  logged, block, sent, run_queued-sent, read_commands-block,
}

-- The log that the processor has is read back as these commands.
abbrev pub Holds : List Command → Option AppendOnlyFile → Type 0
Holds log none = ⊥
Holds log (some file) = read_commands file.contents ≡ commands log

-- After a reply with those of the queued commands.
abbrev Logs : List Command → Step → Type 0
Logs log undefined_step = Unit
Logs log writing = Unit
Logs log (answered (response_array replies) state) = Holds log state.aof_file
Logs log (answered reply state) = Unit

module _ (system : System) (client : ℕ) (earlier log : List Command) (old : AppendOnlyFile)
    (text : old.contents ≡ log_of earlier) (earlier_fit : AllFit earlier) (fit : AllFit log) where
  replicated-Holds :
      (replicates : Bool) (payload : Bytes) (state : State)
      → Holds (earlier ++ block log) state.aof_file
      → Holds (earlier ++ block log) (replicated replicates client payload state).aof_file
  replicated-Holds false payload state h = h
  replicated-Holds true payload state h = h

  after_append-Logs :
      (replicates : Bool) (payload : Bytes) (replies : Responses)
      (outcome : Appended × AppendOnlyFile) (state : State)
      → payload ≡ log_of (block log)
      → Kept payload old outcome
      → Logs (earlier ++ block log) (after_append replicates client payload replies outcome state)
  after_append-Logs replicates payload replies (waiting, file) state e k = tt
  after_append-Logs replicates payload replies (no_append reason, file) state e k = tt
  after_append-Logs replicates payload replies (appended, file) state e k =
      replicated-Holds replicates payload (record state { aof_file = some file })
        (ap read_commands (k.grows.holds ∙ ap (λ (s : Bytes). old.contents ++ s) all)
          ∙ read_commands-block earlier log old.contents payload text e earlier_fit fit)
    where
      all : k.grows.done ≡ payload
      all =
          sym (append-nil k.grows.done)
          ∙ ap (λ (s : Bytes). k.grows.done ++ s) (sym (k.grows.whole refl))
          ∙ sym k.grows.splits

  conclude-Logs :
      (replicates : Bool) (r : Ran) (state : State)
      → state.aof_file ≡ some old
      → ((replies : Responses) (payload : Bytes) (db : Database)
          → r ≡ ran replies payload db
          → sent payload ≡ log_of (block log))
      → Logs (earlier ++ block log) (conclude system true replicates client r state)
  conclude-Logs replicates undefined_run state f h = tt
  conclude-Logs replicates (ran replies [] db) state f h =
      subst (Holds (earlier ++ block log)) (sym f) (
        ap read_commands (sym (append-nil old.contents))
        ∙ read_commands-block earlier log old.contents [] text (h replies [] db refl) earlier_fit
            fit)
  conclude-Logs replicates (ran replies (c ∷ payload) db) state f h =
      subst
        (λ file. Logs (earlier ++ block log) (
          persist system true replicates client (closed (c ∷ payload)) replies file
            (record state { database = db })))
        (sym f)
        (after_append-Logs replicates (closed (c ∷ payload)) replies _
          (record state { database = db }) (h replies (c ∷ payload) db refl)
          (append-Kept system.writes system.fsync system.write_time system.sync_time
            (closed (c ∷ payload)) old))

module _ (F : Doubles) (system : System) (client : ℕ) (source : CommandSource)
    (unlike_aof : is_aof source ≡ false) (earlier : List Command) (old : AppendOnlyFile)
    (text : old.contents ≡ log_of earlier) (earlier_fit : AllFit earlier) where
  run_transaction-Logs :
      (queue : List Command) (state : State)
      → state.aof_file ≡ some old
      → AllFit (logged F system.clocks queue state.database)
      → Logs
          (earlier ++ block (logged F system.clocks queue state.database))
          (run_transaction F system client source queue state)
  run_transaction-Logs [] state f fit = tt
  run_transaction-Logs (command ∷ queue) state f fit =
      by_tests (is_master state.role && is_client source)
        (has_file state.aof_file && not (is_aof source)) persists
    where
      persists : (has_file state.aof_file && not (is_aof source)) ≡ true
      persists = rw (f, unlike_aof) refl

      log : List Command
      log = logged F system.clocks (command ∷ queue) state.database

      recorded :
          (replicates : Bool)
          → Logs (earlier ++ block log) (
              conclude system true replicates client
                (run_queued F true system.clocks (command ∷ queue) [] state.database)
                state)
      recorded replicates =
          conclude-Logs system client earlier log old text earlier_fit fit replicates _ state f
            (λ replies payload db e.
              run_queued-sent F system.clocks (command ∷ queue) state.database db replies payload e)

      by_tests :
          (replicates persists : Bool)
          → persists ≡ true
          → Logs (earlier ++ block log) (
              conclude system persists replicates client
                (run_queued F
                  (replicates || persists)
                  system.clocks
                  (command ∷ queue)
                  []
                  state.database)
                state)
      by_tests true true e = recorded true
      by_tests false true e = recorded false
      by_tests replicates false e = cc

  -- EXEC logs a transaction as one block. Let the processor have a log that holds some commands, each
  -- with words and lengths that fit 64 bits, and let EXEC of a client or of the master answer with the
  -- replies of the queued commands. Then the file, read as at a start, gives those commands, and behind
  -- them MULTI, the queued commands that are to be logged in their order and their logged form, and
  -- EXEC; or no more than it did, if none is to be logged.
  pub execute_transaction-Holds :
      (transaction : TransactionState) (replies : Responses) (before after : State)
      → find client before.transactions ≡ some transaction
      → before.aof_file ≡ some old
      → (let (changed, db) =
            any_changed system.times
              (watched_of (find client before.watched_keys))
              before.database in
          AllFit (logged F system.clocks transaction.commands db))
      → execute_transaction F system client source before ≡ answered (response_array replies) after
      → (let (changed, db) =
            any_changed system.times
              (watched_of (find client before.watched_keys))
              before.database in
          Holds (earlier ++ block (logged F system.clocks transaction.commands db)) after.aof_file)
  unfolding execute_transaction
  execute_transaction-Holds transaction replies before after found f fit e =
      let (changed, db) =
        any_changed system.times (watched_of (find client before.watched_keys)) before.database in
      let log = earlier ++ block (logged F system.clocks transaction.commands db) in
      subst (Logs log) (rw found at e) (
        either (Logs log) transaction.has_error tt (
          either (Logs log) changed tt (
            run_transaction-Logs transaction.commands
              (record before {
                database = db;
                transactions = erase client before.transactions;
                watched_keys = erase client before.watched_keys;
              })
              f fit)))
