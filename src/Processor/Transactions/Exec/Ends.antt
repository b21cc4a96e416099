-- ===== src/Processor/Transactions/Exec/Ends.antt =====
-- What EXEC of src/command_processor.cpp leaves of the transactions.
use codecrafters_redis_cpp.Prelude.{
  ℕ, ◌≡◌, ◌≢◌, refl, subst, Bool, true, false, Option, none, some, List, [], ◌∷◌, arith,
  if◌then◌else◌, Bytes,
}
use codecrafters_redis_cpp.Prelude.Map.{Map, nat_eq, find, erase, find-erase}
use codecrafters_redis_cpp.Resp.{Command}
use codecrafters_redis_cpp.Resp.Reply.{Response, Responses}
use codecrafters_redis_cpp.Database.{Database}
use codecrafters_redis_cpp.Handlers.Time.{Doubles}
use codecrafters_redis_cpp.Aof.{Appended, appended, no_append, waiting, AppendOnlyFile, append}
use codecrafters_redis_cpp.Processor.Transactions.{
  CommandSource, TransactionState, State, System, Step, answered, undefined_step, writing,
  watched_of, any_changed,
}
use codecrafters_redis_cpp.Processor.Transactions.Exec.{
  Ran, ran, undefined_run, closed, replicated, after_append, persist, conclude, run_transaction,
  checked, execute_transaction,
}

-- The client has no transaction and watches nothing, and the other clients have theirs.
pub record Ended (client : ℕ) (before after : State) : Type 0 where
  pub transaction : find client after.transactions ≡ none
  pub watched : find client after.watched_keys ≡ none
  pub others :
      (other : ℕ)
      → other ≢ client
      → (find other after.transactions ≡ find other before.transactions)
        × (find other after.watched_keys ≡ find other before.watched_keys)

abbrev EndsWith : (State → Type 0) → Step → Type 0
EndsWith P undefined_step = Unit
EndsWith P writing = Unit
EndsWith P (answered reply state) = P state

pub either :
    (P : Step → Type 0) (test : Bool) {yes no : Step} → P yes → P no → P (if test then yes else no)
either P true p q = p
either P false p q = q

replicated-Ended :
    (replicates : Bool) (client : ℕ) (payload : Bytes) (before state : State)
    → Ended client before state
    → Ended client before (replicated replicates client payload state)
replicated-Ended false client payload before state e = e
replicated-Ended true client payload before state e = record {
  transaction = e.transaction;
  watched = e.watched;
  others = e.others;
}

erased_find :
    {A : Type 0} (client other : ℕ) (m : Map ℕ A)
    → other ≢ client
    → find other (erase client m) ≡ find other m
erased_find client other m n = ground (arith, find-erase client other m, n)

erased_none : {A : Type 0} (client : ℕ) (m : Map ℕ A) → find client (erase client m) ≡ none
erased_none client m = ground (arith, find-erase client client m)

erased-Ended :
    (client : ℕ) (before : State) (db : Database)
    → Ended client before (record before {
      database = db;
      transactions = erase client before.transactions;
      watched_keys = erase client before.watched_keys;
    })
erased-Ended client before db = record {
  transaction = erased_none client before.transactions;
  watched = erased_none client before.watched_keys;
  others = λ other n. (
    erased_find client other before.transactions n,
    erased_find client other before.watched_keys n,
  );
}

module _ (system : System) (persists replicates : Bool) (client : ℕ) (before : State) where
  moved :
      (state after : State)
      → after.transactions ≡ state.transactions
      → after.watched_keys ≡ state.watched_keys
      → Ended client before state
      → Ended client before after
  moved state after t w e = record {
    transaction = rw t e.transaction;
    watched = rw w e.watched;
    others = λ other n. rw (t, w) (e.others other n);
  }

  after_append-EndsWith :
      (payload : Bytes) (replies : Responses) (result : Appended) (file : AppendOnlyFile)
      (state : State)
      → Ended client before state
      → EndsWith
          (Ended client before)
          (after_append replicates client payload replies (result, file) state)
  after_append-EndsWith payload replies appended file state e =
      replicated-Ended replicates client payload before _ (moved state _ refl refl e)
  after_append-EndsWith payload replies (no_append reason) file state e = moved state _ refl refl e
  after_append-EndsWith payload replies waiting file state e = tt

  persist-EndsWith :
      (payload : Bytes) (replies : Responses) (file : Option AppendOnlyFile) (state : State)
      → Ended client before state
      → EndsWith
          (Ended client before)
          (persist system persists replicates client payload replies file state)
  persist-EndsWith payload replies none state e =
      replicated-Ended replicates client payload before state e
  persist-EndsWith payload replies (some file) state e =
      let (result, file') =
        append system.writes system.fsync system.write_time system.sync_time payload file in
      either (EndsWith (Ended client before)) persists
        (after_append-EndsWith payload replies result file' state e)
        (replicated-Ended replicates client payload before state e)

  conclude-EndsWith :
      (r : Ran) (state : State)
      → Ended client before state
      → EndsWith (Ended client before) (conclude system persists replicates client r state)
  conclude-EndsWith undefined_run state e = tt
  conclude-EndsWith (ran replies [] db) state e = moved state _ refl refl e
  conclude-EndsWith (ran replies (c ∷ payload) db) state e =
      persist-EndsWith (closed (c ∷ payload)) replies state.aof_file
        (record state { database = db }) (moved state _ refl refl e)

module _ (F : Doubles) (system : System) (client : ℕ) (source : CommandSource) where
  run_transaction-EndsWith :
      (before : State) (commands : List Command) (state : State)
      → Ended client before state
      → EndsWith (Ended client before) (run_transaction F system client source commands state)
  run_transaction-EndsWith before [] state e = e
  run_transaction-EndsWith before (command ∷ commands) state e =
      conclude-EndsWith system _ _ client before _ state e

  checked-EndsWith :
      (before : State) (transaction : TransactionState) (changed : Bool) (state : State)
      → Ended client before state
      → EndsWith (Ended client before) (checked F system client source transaction changed state)
  checked-EndsWith before transaction changed state e =
      either (EndsWith (Ended client before)) transaction.has_error e (
        either (EndsWith (Ended client before)) changed e
          (run_transaction-EndsWith before transaction.commands state e))

  -- However EXEC of a client with a transaction replies, with the replies of its commands, with an
  -- error or with the null array of a changed key, the client has no transaction and watches nothing
  -- afterwards, and the transactions and watched keys of all other clients are as they were.
  pub execute_transaction-Ended :
      (transaction : TransactionState) (reply : Response) (before after : State)
      → find client before.transactions ≡ some transaction
      → execute_transaction F system client source before ≡ answered reply after
      → Ended client before after
  unfolding execute_transaction
  execute_transaction-Ended transaction reply before after found e =
      let (changed, db) =
        any_changed system.times (watched_of (find client before.watched_keys)) before.database in
      subst (EndsWith (Ended client before)) (rw found at e)
        (checked-EndsWith before transaction changed _ (erased-Ended client before db))
