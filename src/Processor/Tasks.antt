-- ===== src/Processor/Tasks.antt =====
-- src/command_processor.cpp: `process_task`, which guards, runs, logs, replicates and answers a command,
-- and what a connection in src/server.cpp does with a command that it has parsed.
-- A command that may wait is handed over to another part.
pub mod Guards
mod Tests
use codecrafters_redis_cpp.Prelude.{
  ◌==◌, ℕ, zero, suc, ◌+◌, ◌%◌, ◌^◌, Bool, true, false, ◌&&◌, ◌||◌, not, Option, none, some, List,
  [], ◌∷◌, ◌++◌, if◌then◌else◌, Bytes, codes, str_eq, length,
}
use codecrafters_redis_cpp.Prelude.Map.{Map, bytes_eq, nat_eq, find, insert, erase}
use codecrafters_redis_cpp.Prelude.Expected.{Expected, expected, unexpected}
use codecrafters_redis_cpp.Resp.{Command, serialize_command}
use codecrafters_redis_cpp.Resp.Reply.{Response, simple_error, no_response, serialize_response}
use codecrafters_redis_cpp.Handlers.Time.{Doubles}
use codecrafters_redis_cpp.Aof.{Appended, appended, no_append, waiting, AppendOnlyFile, append}
use codecrafters_redis_cpp.Pubsub.{PubSubSession, Call, enqueue}
use codecrafters_redis_cpp.Processor.Table.{is_write_command}
use codecrafters_redis_cpp.Processor.Log.{
  response_is_error, write_modified_database, normalize_replication_command,
}
use codecrafters_redis_cpp.Processor.Transactions.{
  ReplicationRole, CommandSource, client_source, master_source, aof_source, TransactionState, State,
  System, contains,
}
use codecrafters_redis_cpp.Processor.Transactions.Exec.{
  is_master, is_client, is_aof, has_file, append_client_replication_frame,
}
use codecrafters_redis_cpp.Processor.Subscriptions.{
  Hub, Found, unknown, expired, alive, find_session,
}
use codecrafters_redis_cpp.Processor.Access.{is_authenticated, no_authentication}
use codecrafters_redis_cpp.Processor.Commands.{
  Processor, Outside, Processed, done, no_meaning, not_returned, handed_over, process_command,
}

pub record Task : Type 0 where
  pub client : ℕ
  pub command : Command
  pub source : CommandSource
  pub replication_bytes : ℕ

-- `command.front() == name`, where the command is not empty.
abbrev pub is_named : Bytes → Command → Bool
is_named name [] = false
is_named name (first ∷ arguments) = str_eq first name

abbrev pub stored : ℕ → Expected Unit × PubSubSession → Hub → Expected Unit × Hub
stored handle (result, session) hub =
    (result, record hub { sessions = insert handle session hub.sessions })

abbrev pub enqueue_found : Call → ℕ → Response → Found → Hub → Expected Unit × Hub
enqueue_found call client reply unknown hub =
    (unexpected (codes "Pub/Sub session is not registered"), hub)
enqueue_found call client reply expired hub = (
  unexpected (codes "Pub/Sub session is no longer available"),
  record hub { clients = erase client hub.clients },
)
enqueue_found call client reply (alive handle session) hub =
    stored handle (enqueue call (serialize_response reply) session) hub

unfoldable pub enqueue_pubsub_response : Call → ℕ → Response → Hub → Expected Unit × Hub
enqueue_pubsub_response call client reply hub =
    enqueue_found call client reply (find_session client hub) hub

-- What the connection is answered when the reply was to be queued at its session.
abbrev pub queued_reply : Expected Unit × Hub → Processor → Processed
queued_reply (expected tt', hub) processor = done no_response (record processor { hub = hub })
queued_reply (unexpected reason, hub) processor =
    done (simple_error (codes "ERR failed to queue Pub/Sub response: " ++ reason))
      (record processor { hub = hub })

abbrev pub reply_queued : Outside → ℕ → Response → Processor → Processed
reply_queued outside client reply processor =
    queued_reply (enqueue_pubsub_response outside.reply_call client reply processor.hub) processor

abbrev pub has_subscriptions : ℕ → Processor → Bool
has_subscriptions client processor = contains (find client processor.hub.client_subscriptions)

-- Without authentication.
abbrev pub refuse_client : Outside → ℕ → Processor → Processed
refuse_client outside client processor =
    if has_subscriptions client processor
    then reply_queued outside client no_authentication processor
    else done no_authentication processor

abbrev pub name_of : Command → Bytes
name_of [] = []
name_of (name ∷ arguments) = name

abbrev pub not_in_this_context : Command → Response
not_in_this_context command = simple_error (
    codes "ERR Can't execute '"
    ++ (name_of command
        ++ codes "': only SUBSCRIBE, UNSUBSCRIBE and PING are allowed in this context"))

abbrev pub read_only : Response
read_only = simple_error (codes "READONLY You can't write against a read only replica.")

abbrev pub with_error : ℕ → Option TransactionState → Processor → Processor
with_error client none processor = processor
with_error client (some transaction) processor = record processor {
  core = record processor.core {
    transactions =
        insert client (record transaction { has_error = true }) processor.core.transactions;
  };
}

abbrev pub is_no_response : Response → Bool
is_no_response no_response = true
is_no_response _ = false

-- The frame for the replicas, unless the append has made the reply an error.
abbrev pub replicate_write : Bool → ℕ → Bytes → Response → Processor → Processor
replicate_write replicates client payload reply processor =
    if replicates && not (response_is_error reply)
    then record processor { core = append_client_replication_frame client payload processor.core }
    else processor

abbrev pub after_log :
    Appended × AppendOnlyFile
    → Bool
    → ℕ
    → Bytes
    → Response
    → Processor
    → (Response → Processor → Processed)
    → Processed
after_log (appended, file) replicates client payload reply processor further = further reply (
    replicate_write replicates client payload reply
      (record processor { core = record processor.core { aof_file = some file } }))
after_log (no_append reason, file) replicates client payload reply processor further =
    further (simple_error (codes "MISCONF AOF persistence error: " ++ reason))
      (record processor { core = record processor.core { aof_file = some file } })
after_log (waiting, file) replicates client payload reply processor further = not_returned

abbrev pub log_write :
    System
    → Bool
    → Bool
    → ℕ
    → Bytes
    → Option AppendOnlyFile
    → Response
    → Processor
    → (Response → Processor → Processed)
    → Processed
log_write system persists replicates client payload none reply processor further =
    further reply (replicate_write replicates client payload reply processor)
log_write system persists replicates client payload (some file) reply processor further =
    if persists
    then after_log
        (append system.writes system.fsync system.write_time system.sync_time payload file)
        replicates client payload reply processor further
    else further reply (replicate_write replicates client payload reply processor)

-- A command from the master moves the offset of the replica, unless it failed.
abbrev pub follow_master : Task → Bool → Processor → Processor
follow_master task succeeded processor = elim task.source [
  | master_source ↦
      if succeeded
      then record processor {
        core = record processor.core {
          offset = (processor.core.offset + task.replication_bytes) % 2 ^ 64;
        };
      }
      else processor
  | _ ↦ processor
]

-- The reply goes to the session of a client that has subscriptions, if it is not there already.
abbrev pub finish_task : Outside → Task → Response → Processor → Processed
finish_task outside task reply processor =
    if is_client task.source
      && (has_subscriptions task.client processor && not (is_no_response reply))
    then reply_queued outside task.client reply processor
    else done reply processor

-- Behind `process_command`. `replicates` and `persists` were settled before it.
abbrev pub after_command : Outside → Task → Bool → Bool → Response → Processor → Processed
after_command outside task replicates persists reply processor =
    let payload = serialize_command (normalize_replication_command task.command reply) in
    let further = λ (final : Response) (later : Processor).
      finish_task outside task final (follow_master task (not (response_is_error reply)) later) in
    if (replicates || persists) && write_modified_database task.command reply
    then log_write outside.system persists replicates task.client payload processor.core.aof_file
        reply processor further
    else further reply processor

abbrev pub after_processed : Processed → (Response → Processor → Processed) → Processed
after_processed (done reply processor) further = further reply processor
after_processed no_meaning further = no_meaning
after_processed not_returned further = not_returned
after_processed (handed_over command processor) further = handed_over command processor

module _ (F : Doubles) (outside : Outside) where
  abbrev pub run_task : Task → Processor → Processed
  run_task task processor =
      let writes =
        not (contains (find task.client processor.core.transactions))
        && is_write_command F task.command in
      after_processed (process_command F outside task.client task.source task.command processor) (
        after_command outside task
          (is_master processor.core.role && (is_client task.source && writes))
          (has_file processor.core.aof_file && (not (is_aof task.source) && writes)))

  abbrev pub may_wait : Command → Bool
  may_wait command =
      is_named (codes "BLPOP") command
      || (is_named (codes "XREAD") command || is_named (codes "WAIT") command)

  unfoldable pub process_task : Task → Processor → Processed
  process_task task processor =
      if is_client task.source
        && (not (is_named (codes "AUTH") task.command)
            && not (is_authenticated (find task.client processor.hub.clients)))
      then refuse_client outside task.client processor
      else if is_client task.source
          && (has_subscriptions task.client processor
              && not (
                  is_named (codes "SUBSCRIBE") task.command
                  || (is_named (codes "UNSUBSCRIBE") task.command
                      || is_named (codes "PING") task.command)))
      then reply_queued outside task.client (not_in_this_context task.command) processor
      else if not (is_master processor.core.role)
          && (is_client task.source && is_write_command F task.command)
      then done read_only
          (with_error task.client (find task.client processor.core.transactions) processor)
      else if may_wait task.command && not (contains (find task.client processor.core.transactions))
      then handed_over task.command processor
      else run_task task processor

-- What a connection does with a command that it has parsed: it becomes that of a replica, whose client
-- is registered as one and is sent every write, or the command goes to the worker.
pub data Received : Type 0 where
  becomes_replica : Received
  submitted : Processed → Received

abbrev pub starts_replication : Command → Bool
starts_replication command = length command == 3 && is_named (codes "PSYNC") command

-- The loop of a connection in src/server.cpp, for one command.
unfoldable pub received : Doubles → Outside → ℕ → Command → Processor → Received
received F outside client command processor =
    if starts_replication command
    then becomes_replica
    else submitted (
        process_task F outside
          (record {
            client = client;
            command = command;
            source = client_source;
            replication_bytes = 0;
          })
          processor)
