-- ===== src/Processor/Transactions/Exec.antt =====
-- src/command_processor.cpp: EXEC, `execute_transaction`.
pub mod Ends
pub mod Block
pub mod Logged
use codecrafters_redis_cpp.Prelude.{
  ℕ, zero, suc, ◌+◌, ◌%◌, ◌^◌, Bool, true, false, ◌&&◌, ◌||◌, not, Option, none, some, List, [],
  ◌∷◌, ◌++◌, if◌then◌else◌, Bytes, codes, length,
}
use codecrafters_redis_cpp.Prelude.Map.{bytes_eq, nat_eq, find, insert, erase}
use codecrafters_redis_cpp.Resp.{Command, serialize_command}
use codecrafters_redis_cpp.Resp.Reply.{
  Response, Responses, nil, cons, simple_error, null_array, empty_array, response_array,
}
use codecrafters_redis_cpp.Database.{Database}
use codecrafters_redis_cpp.Handlers.{Clock, Outcome, replied, undefined}
use codecrafters_redis_cpp.Handlers.Time.{Doubles}
use codecrafters_redis_cpp.Aof.{Appended, appended, no_append, waiting, AppendOnlyFile, append}
use codecrafters_redis_cpp.Processor.Table.{dispatch}
use codecrafters_redis_cpp.Processor.Log.{is_logged, normalize_replication_command}
use codecrafters_redis_cpp.Processor.Transactions.{
  ReplicationRole, master, replica, CommandSource, client_source, master_source, aof_source,
  TransactionState, Frame, State, System, Step, answered, undefined_step, writing, watched_of,
  any_changed,
}

-- What the queued commands leave: their replies, the payload for the log, and the database.
pub data Ran : Type 0 where
  ran : Responses → Bytes → Database → Ran
  undefined_run : Ran

abbrev pub prepend_reply : Response → Ran → Ran
prepend_reply reply (ran replies payload db) = ran (cons reply replies) payload db
prepend_reply reply undefined_run = undefined_run

-- The payload starts with MULTI, before its first command.
abbrev pub opened : Bytes → Bytes
opened [] = serialize_command (codes "MULTI" ∷ [])
opened (c ∷ payload) = c ∷ payload

abbrev pub extend : Bool → Command → Response → Bytes → Bytes
extend logs command reply payload =
    if logs
    then opened payload ++ serialize_command (normalize_replication_command command reply)
    else payload

module _ (F : Doubles) (records : Bool) where
  abbrev pub after_dispatch : Command → Bytes → Outcome → (Bytes → Database → Ran) → Ran
  after_dispatch command payload undefined further = undefined_run
  after_dispatch command payload (replied reply db) further =
      prepend_reply reply
        (further (extend (records && is_logged F command reply) command reply payload) db)

  -- The loop over the queued commands. `records` is whether they are replicated or persisted.
  unfoldable pub run_queued : (ℕ → Clock) → List Command → Bytes → Database → Ran
  run_queued clocks [] payload db = ran nil payload db
  run_queued clocks (command ∷ commands) payload db =
      after_dispatch command payload (dispatch F (clocks 0) command db)
        (λ payload' db'. run_queued (λ n. clocks (suc n)) commands payload' db')

abbrev pub is_master : ReplicationRole → Bool
is_master master = true
is_master replica = false

abbrev pub is_client : CommandSource → Bool
is_client client_source = true
is_client _ = false

abbrev pub is_aof : CommandSource → Bool
is_aof aof_source = true
is_aof _ = false

abbrev pub has_file : Option AppendOnlyFile → Bool
has_file none = false
has_file (some file) = true

-- `append_client_replication_frame`; the offset is a `uint64_t`.
abbrev pub append_client_replication_frame : ℕ → Bytes → State → State
append_client_replication_frame client payload state =
    let offset = (state.offset + length payload) % 2 ^ 64 in
    record state {
      offset = offset;
      backlog = state.backlog ++ record { payload = payload; ending_offset = offset } ∷ [];
      client_write_offsets = insert client offset state.client_write_offsets;
    }

abbrev pub replicated : Bool → ℕ → Bytes → State → State
replicated false client payload state = state
replicated true client payload state = append_client_replication_frame client payload state

-- The end of EXEC, after an append to the log.
abbrev pub after_append : Bool → ℕ → Bytes → Responses → Appended × AppendOnlyFile → State → Step
after_append replicates client payload replies (appended, file) state =
    answered (response_array replies)
      (replicated replicates client payload (record state { aof_file = some file }))
after_append replicates client payload replies (no_append reason, file) state =
    answered (simple_error (codes "MISCONF AOF persistence error: " ++ reason))
      (record state { aof_file = some file })
after_append replicates client payload replies (waiting, file) state = writing

-- With a payload that is not empty, already closed by EXEC.
abbrev pub persist :
    System → Bool → Bool → ℕ → Bytes → Responses → Option AppendOnlyFile → State → Step
persist system persists replicates client payload replies (some file) state =
    if persists
    then after_append replicates client payload replies
        (append system.writes system.fsync system.write_time system.sync_time payload file) state
    else answered (response_array replies) (replicated replicates client payload state)
persist system persists replicates client payload replies none state =
    answered (response_array replies) (replicated replicates client payload state)

abbrev pub closed : Bytes → Bytes
closed payload = payload ++ serialize_command (codes "EXEC" ∷ [])

abbrev pub conclude : System → Bool → Bool → ℕ → Ran → State → Step
conclude system persists replicates client undefined_run state = undefined_step
conclude system persists replicates client (ran replies [] db) state =
    answered (response_array replies) (record state { database = db })
conclude system persists replicates client (ran replies (c ∷ payload) db) state =
    persist system persists replicates client (closed (c ∷ payload)) replies state.aof_file
      (record state { database = db })

module _ (F : Doubles) (system : System) (client : ℕ) (source : CommandSource) where
  abbrev pub run_transaction : List Command → State → Step
  run_transaction [] state = answered empty_array state
  run_transaction (command ∷ commands) state =
      let replicates = is_master state.role && is_client source in
      let persists = has_file state.aof_file && not (is_aof source) in
      conclude system persists replicates client
        (run_queued F (replicates || persists) system.clocks (command ∷ commands) [] state.database)
        state

  -- The checks, once the transaction and the watched keys are gone.
  abbrev pub checked : TransactionState → Bool → State → Step
  checked transaction changed state =
      if transaction.has_error
      then answered
          (simple_error (codes "EXECABORT Transaction discarded because of previous errors.")) state
      else if changed
      then answered null_array state
      else run_transaction transaction.commands state

  abbrev pub execute : Option TransactionState → State → Step
  execute none state = answered (simple_error (codes "ERR EXEC without MULTI")) state
  execute (some transaction) state =
      let (changed, db) =
        any_changed system.times (watched_of (find client state.watched_keys)) state.database in
      checked transaction changed (record state {
        database = db;
        transactions = erase client state.transactions;
        watched_keys = erase client state.watched_keys;
      })

  unfoldable pub execute_transaction : State → Step
  unfolding any_changed run_queued
  execute_transaction state = execute (find client state.transactions) state
