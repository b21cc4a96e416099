-- ===== src/Processor/Commands.antt =====
-- src/command_processor.cpp: `process_command`, which sends a command to its handler.
use codecrafters_redis_cpp.Prelude.{
  ℕ, ◌&&◌, not, Option, none, some, [], ◌∷◌, ◌++◌, ltb, ◌==◌, if◌then◌else◌, Bytes, codes, str_eq,
  length,
}
use codecrafters_redis_cpp.Prelude.Map.{bytes_eq, nat_eq, find, insert}
use codecrafters_redis_cpp.Prelude.Expected.{Expected}
use codecrafters_redis_cpp.Numeric.{to_string}
use codecrafters_redis_cpp.Resp.{Command}
use codecrafters_redis_cpp.Resp.Reply.{
  Response, simple_string, simple_error, bulk_string, empty_array, array,
}
use codecrafters_redis_cpp.Handlers.{word, Outcome, replied, undefined}
use codecrafters_redis_cpp.Handlers.Time.{Doubles}
use codecrafters_redis_cpp.ServerConfig.{RdbConfig, AofConfig}
use codecrafters_redis_cpp.Pubsub.{Call}
use codecrafters_redis_cpp.Processor.Table.{dispatch}
use codecrafters_redis_cpp.Processor.Transactions.{
  ReplicationRole, master, replica, CommandSource, TransactionState, State, System, Step, answered,
  undefined_step, writing, contains, watch, unwatch, multi, discard,
}
use codecrafters_redis_cpp.Processor.Transactions.Exec.{execute_transaction}
use codecrafters_redis_cpp.Processor.Subscriptions.{Hub, subscribe, unsubscribe, publish}
use codecrafters_redis_cpp.Processor.Access.{User, process_acl_command, authenticate}

-- The members of `CommandProcessor`, in their groups.
pub record Processor : Type 0 where
  pub core : State
  pub hub : Hub
  pub default_user : User
  pub rdb_config : RdbConfig
  pub aof_config : AofConfig
  pub replication_id : Bytes

-- What is outside: the hash of passwords, what the calls on descriptors and on the log return, and
-- what the clocks read. `own_call` is for an acknowledgement, `reply_call` for a reply that is queued.
pub record Outside : Type 0 where
  pub system : System
  pub sha256 : Bytes → Expected Bytes
  pub own_call : Call
  pub reply_call : Call
  pub calls : ℕ → Call

-- A reply with the state that is left; undefined behaviour; a call that has not returned; or a command
-- that may wait, which is handed to `process_blpop`, `process_xread` or `process_wait`.
pub data Processed : Type 0 where
  done : Response → Processor → Processed
  no_meaning : Processed
  not_returned : Processed
  handed_over : Command → Processor → Processed

abbrev pub of_hub : Processor → Response × Hub → Processed
of_hub processor (reply, hub) = done reply (record processor { hub = hub })

abbrev pub of_user : Processor → Response × User → Processed
of_user processor (reply, user) = done reply (record processor { default_user = user })

abbrev pub of_step : Processor → Step → Processed
of_step processor (answered reply core) = done reply (record processor { core = core })
of_step processor undefined_step = no_meaning
of_step processor writing = not_returned

abbrev pub of_outcome : Processor → Outcome → Processed
of_outcome processor (replied reply db) =
    done reply (record processor { core = record processor.core { database = db } })
of_outcome processor undefined = no_meaning

abbrev pub get_replication_role : ReplicationRole → Bytes
get_replication_role master = codes "master"
get_replication_role replica = codes "slave"

-- PING of a client with subscriptions.
abbrev pub subscribed_ping : Command → Response
subscribed_ping command =
    if ltb 2 (length command)
    then simple_error (codes "ERR wrong number of arguments for 'ping' command")
    else array (codes "pong" ∷ (if length command == 2 then word command 1 else []) ∷ [])

abbrev pub info : Processor → Response
info processor = bulk_string (
    codes "# Replication\r\nrole:"
    ++ (get_replication_role processor.core.role
        ++ (codes "\r\nmaster_replid:"
            ++ (processor.replication_id
                ++ (codes "\r\nmaster_repl_offset:"
                    ++ (to_string processor.core.offset ++ codes "\r\n"))))))

abbrev pub setting : Bytes → RdbConfig → AofConfig → Response
setting name rdb aof =
    if str_eq name (codes "dir")
    then array (codes "dir" ∷ rdb.dir ∷ [])
    else if str_eq name (codes "dbfilename")
    then array (codes "dbfilename" ∷ rdb.db_filename ∷ [])
    else if str_eq name (codes "appendonly")
    then array (codes "appendonly" ∷ (if aof.enabled then codes "yes" else codes "no") ∷ [])
    else if str_eq name (codes "appenddirname")
    then array (codes "appenddirname" ∷ aof.append_dirname ∷ [])
    else if str_eq name (codes "appendfilename")
    then array (codes "appendfilename" ∷ aof.append_filename ∷ [])
    else if str_eq name (codes "appendfsync")
    then array (codes "appendfsync" ∷ aof.append_fsync ∷ [])
    else empty_array

abbrev pub config_get : Command → Processor → Response
config_get command processor =
    if not (length command == 3)
    then simple_error (codes "ERR syntax error")
    else if not (str_eq (word command 1) (codes "GET"))
    then simple_error (codes "ERR syntax error")
    else setting (word command 2) processor.rdb_config processor.aof_config

abbrev pub replconf : Command → Response
replconf command =
    if not (length command == 3)
    then simple_error (codes "ERR wrong number of arguments for 'replconf' command")
    else simple_string (codes "OK")

abbrev pub psync : Command → Processor → Response
psync command processor =
    if not (length command == 3)
    then simple_error (codes "ERR wrong number of arguments for 'psync' command")
    else simple_string (
        codes "FULLRESYNC "
        ++ (processor.replication_id ++ (codes " " ++ to_string processor.core.offset)))

module _ (F : Doubles) (outside : Outside) (client : ℕ) (source : CommandSource) where
  -- A command that no other part takes: it is queued if the client has a transaction, else run.
  abbrev pub queue_or_run : Command → Option TransactionState → Processor → Processed
  queue_or_run command (some transaction) processor =
      done (simple_string (codes "QUEUED")) (record processor {
        core = record processor.core {
          transactions =
              insert client (record transaction { commands = transaction.commands ++ command ∷ [] })
                processor.core.transactions;
        };
      })
  queue_or_run command none processor =
      of_outcome processor (dispatch F (outside.system.clocks 0) command processor.core.database)

  abbrev pub transaction_command : Bytes → Command → Processor → Processed
  transaction_command name command processor =
      if str_eq name (codes "WATCH")
      then of_step processor (watch outside.system client command processor.core)
      else if str_eq name (codes "UNWATCH")
      then of_step processor (unwatch client command processor.core)
      else if str_eq name (codes "MULTI")
      then of_step processor (multi client processor.core)
      else if str_eq name (codes "EXEC")
      then of_step processor (execute_transaction F outside.system client source processor.core)
      else if str_eq name (codes "DISCARD")
      then of_step processor (discard client processor.core)
      else queue_or_run command (find client processor.core.transactions) processor

  abbrev pub server_command : Bytes → Command → Processor → Processed
  server_command name command processor =
      if str_eq name (codes "INFO")
      then done (info processor) processor
      else if str_eq name (codes "CONFIG")
      then done (config_get command processor) processor
      else if str_eq name (codes "REPLCONF")
      then done (replconf command) processor
      else if str_eq name (codes "PSYNC")
      then done (psync command processor) processor
      else transaction_command name command processor

  abbrev pub named_command : Bytes → Command → Processor → Processed
  named_command name command processor =
      if str_eq name (codes "SUBSCRIBE")
      then of_hub processor (subscribe outside.own_call client command processor.hub)
      else if str_eq name (codes "UNSUBSCRIBE")
      then of_hub processor (unsubscribe outside.own_call client command processor.hub)
      else if contains (find client processor.hub.client_subscriptions)
          && str_eq name (codes "PING")
      then done (subscribed_ping command) processor
      else if str_eq name (codes "PUBLISH")
      then of_hub processor (publish outside.calls command processor.hub)
      else if str_eq name (codes "AUTH")
      then of_hub processor
          (authenticate outside.sha256 client command processor.default_user processor.hub)
      else if str_eq name (codes "ACL")
      then of_user processor
          (process_acl_command outside.sha256 client command processor.hub processor.default_user)
      else server_command name command processor

  unfoldable pub process_command : Command → Processor → Processed
  process_command [] processor = done (simple_error (codes "ERR empty command")) processor
  process_command (name ∷ arguments) processor = named_command name (name ∷ arguments) processor
