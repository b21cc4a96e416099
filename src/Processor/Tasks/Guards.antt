-- ===== src/Processor/Tasks/Guards.antt =====
-- What `process_task` of src/command_processor.cpp refuses, and what it leaves then.
use codecrafters_redis_cpp.Prelude.{
  ℕ, ◌≡◌, inl, inr, Bool-cases, refl, ap, Bool, true, false, ◌&&◌, ◌||◌, not, Option, none, some,
  if◌then◌else◌, codes,
}
use codecrafters_redis_cpp.Prelude.Map.{bytes_eq, nat_eq, find}
use codecrafters_redis_cpp.Prelude.Expected.{Expected, expected, unexpected}
use codecrafters_redis_cpp.Resp.{Command}
use codecrafters_redis_cpp.Resp.Reply.{Response, serialize_response}
use codecrafters_redis_cpp.Handlers.Time.{Doubles}
use codecrafters_redis_cpp.Pubsub.{PubSubSession, enqueue}
use codecrafters_redis_cpp.Processor.Table.{is_write_command}
use codecrafters_redis_cpp.Processor.Transactions.{replica, client_source, TransactionState, State}
use codecrafters_redis_cpp.Processor.Transactions.Exec.{is_master, is_client}
use codecrafters_redis_cpp.Processor.Subscriptions.{Found, unknown, expired, alive, find_session}
use codecrafters_redis_cpp.Processor.Access.{is_authenticated, no_authentication}
use codecrafters_redis_cpp.Processor.Commands.{
  Processor, Outside, Processed, done, no_meaning, not_returned, handed_over,
}
use codecrafters_redis_cpp.Processor.Tasks.{
  Task, is_named, stored, enqueue_found, enqueue_pubsub_response, queued_reply, reply_queued,
  has_subscriptions, refuse_client, not_in_this_context, read_only, with_error, process_task,
  Received, becomes_replica, submitted, starts_replication, received,
}

-- Nothing but sessions and clients that are gone differs.
pub record Untouched (processor later : Processor) : Type 0 where
  pub same_core : later.core ≡ processor.core
  pub same_user : later.default_user ≡ processor.default_user
  pub same_subscriptions : later.hub.client_subscriptions ≡ processor.hub.client_subscriptions
  pub same_channels : later.hub.channel_subscribers ≡ processor.hub.channel_subscribers

-- The task is answered, and what is left has the property.
abbrev pub Leaves : (Processor → Type 0) → Processed → Type 0
Leaves P (done reply processor) = P processor
Leaves P no_meaning = ⊥
Leaves P not_returned = ⊥
Leaves P (handed_over command processor) = ⊥

reply_queued-Untouched :
    (outside : Outside) (client : ℕ) (reply : Response) (processor : Processor)
    → Leaves (Untouched processor) (reply_queued outside client reply processor)
unfolding enqueue_pubsub_response
reply_queued-Untouched outside client reply processor = by_found (find_session client processor.hub)
  where
    by_result :
        (handle : ℕ) (queued : Expected Unit × PubSubSession)
        → Leaves (Untouched processor) (queued_reply (stored handle queued processor.hub) processor)
    by_result handle (expected told, session) = record {
      same_core = refl;
      same_user = refl;
      same_subscriptions = refl;
      same_channels = refl;
    }
    by_result handle (unexpected reason, session) = record {
      same_core = refl;
      same_user = refl;
      same_subscriptions = refl;
      same_channels = refl;
    }

    by_found :
        (found : Found)
        → Leaves (Untouched processor) (
            queued_reply
              (enqueue_found outside.reply_call client reply found processor.hub)
              processor)
    by_found unknown = record {
      same_core = refl;
      same_user = refl;
      same_subscriptions = refl;
      same_channels = refl;
    }
    by_found expired = record {
      same_core = refl;
      same_user = refl;
      same_subscriptions = refl;
      same_channels = refl;
    }
    by_found (alive handle session) =
        by_result handle (enqueue outside.reply_call (serialize_response reply) session)

refuse_client-Untouched :
    (outside : Outside) (client : ℕ) (processor : Processor)
    → Leaves (Untouched processor) (refuse_client outside client processor)
refuse_client-Untouched outside client processor =
    by_subscriptions (has_subscriptions client processor)
  where
    by_subscriptions :
        (b : Bool)
        → Leaves (Untouched processor) (
            if b
            then reply_queued outside client no_authentication processor
            else done no_authentication processor)
    by_subscriptions true = reply_queued-Untouched outside client no_authentication processor
    by_subscriptions false = record {
      same_core = refl;
      same_user = refl;
      same_subscriptions = refl;
      same_channels = refl;
    }

process_task-Untouched :
    (F : Doubles) (outside : Outside) (task : Task) (processor : Processor)
    → task.source ≡ client_source
    → is_named (codes "AUTH") task.command ≡ false
    → is_authenticated (find task.client processor.hub.clients) ≡ false
    → Leaves (Untouched processor) (process_task F outside task processor)
unfolding process_task
process_task-Untouched F outside task processor s n a =
    rw (s, n, a) (refuse_client-Untouched outside task.client processor)

-- What comes of a command that may not be run: it is refused and changes nothing, or it is the PSYNC that
-- no one checks.
abbrev pub Refuses : Command → Processor → Received → Type 0
Refuses command processor becomes_replica = starts_replication command ≡ true
Refuses command processor (submitted processed) =
    (starts_replication command ≡ false) × Leaves (Untouched processor) processed

-- A connection's client that is not authenticated, or not registered, has none of its commands run but
-- AUTH, save one: a PSYNC of three words, which the connection itself takes for the start of a replica,
-- with no check. Any other command is answered at once, and neither the keyspace, the log, the
-- transactions and the replication state nor the account and the subscriptions change.
pub received-Refuses :
    (F : Doubles) (outside : Outside) (client : ℕ) (command : Command) (processor : Processor)
    → is_named (codes "AUTH") command ≡ false
    → is_authenticated (find client processor.hub.clients) ≡ false
    → Refuses command processor (received F outside client command processor)
unfolding received
received-Refuses F outside client command processor n a =
    elim (Bool-cases (starts_replication command)) [
      | inl psync ↦ rw psync psync
      | inr other ↦ rw other (
        other,
        process_task-Untouched F outside
            (record {
              client = client;
              command = command;
              source = client_source;
              replication_bytes = 0;
            })
            processor refl n a,
      )
    ]

-- The keyspace, the log and what the replica has followed are the same.
pub record SameData (processor later : Processor) : Type 0 where
  pub same_database : later.core.database ≡ processor.core.database
  pub same_file : later.core.aof_file ≡ processor.core.aof_file
  pub same_offset : later.core.offset ≡ processor.core.offset
  pub same_backlog : later.core.backlog ≡ processor.core.backlog

same_of_core : (processor later : Processor) → Untouched processor later → SameData processor later
same_of_core processor later u = record {
  same_database = ap (λ (core : State). core.database) u.same_core;
  same_file = ap (λ (core : State). core.aof_file) u.same_core;
  same_offset = ap (λ (core : State). core.offset) u.same_core;
  same_backlog = ap (λ (core : State). core.backlog) u.same_core;
}

Leaves-weaken :
    (processor : Processor) (processed : Processed)
    → Leaves (Untouched processor) processed
    → Leaves (SameData processor) processed
Leaves-weaken processor (done reply later) h = same_of_core processor later h
Leaves-weaken processor no_meaning h = h
Leaves-weaken processor not_returned h = h
Leaves-weaken processor (handed_over command later) h = h

read_only-SameData :
    (client : ℕ) (found : Option TransactionState) (processor : Processor)
    → SameData processor (with_error client found processor)
read_only-SameData client none processor = record {
  same_database = refl;
  same_file = refl;
  same_offset = refl;
  same_backlog = refl;
}
read_only-SameData client (some transaction) processor = record {
  same_database = refl;
  same_file = refl;
  same_offset = refl;
  same_backlog = refl;
}

-- A replica runs no write command of a client, whatever the state of that client: it answers at once,
-- and the keyspace, the log and the replication state stay as they are.
pub process_task-SameData :
    (F : Doubles) (outside : Outside) (task : Task) (processor : Processor)
    → task.source ≡ client_source
    → processor.core.role ≡ replica
    → is_write_command F task.command ≡ true
    → Leaves (SameData processor) (process_task F outside task processor)
unfolding process_task
process_task-SameData F outside task processor s r w =
    rw (ap is_client s, ap is_master r, w)
      (by_guards
        (not (is_named (codes "AUTH") task.command)
          && not (is_authenticated (find task.client processor.hub.clients)))
        (has_subscriptions task.client processor
          && not (
              is_named (codes "SUBSCRIBE") task.command
              || (is_named (codes "UNSUBSCRIBE") task.command
                  || is_named (codes "PING") task.command))))
  where
    by_guards :
        (stranger listener : Bool)
        → Leaves (SameData processor) (
            if stranger
            then refuse_client outside task.client processor
            else if listener
            then reply_queued outside task.client (not_in_this_context task.command) processor
            else done read_only
                (with_error task.client (find task.client processor.core.transactions) processor))
    by_guards true listener =
        Leaves-weaken processor _ (refuse_client-Untouched outside task.client processor)
    by_guards false true =
        Leaves-weaken processor _ (reply_queued-Untouched outside task.client _ processor)
    by_guards false false = read_only-SameData task.client _ processor
