-- ===== src/Processor/Tasks/Tests.antt =====
-- Tasks of a stranger, and of a client of a replica.
use codecrafters_redis_cpp.Prelude.{
  ◌≡◌, refl, false, none, [], ◌∷◌, codes, str_eq, ◌==◌, ◌||◌, ◌&&◌,
}
use codecrafters_redis_cpp.Prelude.Map.{bytes_eq, nat_eq, find}
use codecrafters_redis_cpp.Prelude.Expected.{expected}
use codecrafters_redis_cpp.ServerConfig.{default_config}
use codecrafters_redis_cpp.Database.{empty}
use codecrafters_redis_cpp.Pubsub.{succeeded, Call}
use codecrafters_redis_cpp.Processor.Tests.{whole_seconds, now}
use codecrafters_redis_cpp.Processor.Table.{
  find_definition, find_command_definition, is_write_command,
}
use codecrafters_redis_cpp.Processor.Transactions.{replica, client_source}
use codecrafters_redis_cpp.Processor.Subscriptions.Reachable.{empty_hub}
use codecrafters_redis_cpp.Processor.Access.{is_authenticated, make_default_acl_user}
use codecrafters_redis_cpp.Processor.Access.Grant.{
  auth_command, is_registered, names_default, opens, authenticate-grants,
}
use codecrafters_redis_cpp.Processor.Access.{authenticate}
use codecrafters_redis_cpp.Processor.Commands.{Processor, Outside}
use codecrafters_redis_cpp.Processor.Tasks.{Task, process_task, becomes_replica, received}
use codecrafters_redis_cpp.Processor.Tasks.Guards.{
  Leaves, Refuses, SameData, received-Refuses, process_task-SameData,
}

abbrev call : Call
call = record { interruptions = 0; end = succeeded }

abbrev outside : Outside
outside = record {
  system = record {
    times = λ n. 5;
    clocks = λ n. now;
    writes = [];
    fsync = none;
    write_time = 5;
    sync_time = 5;
  };
  sha256 = λ password. expected password;
  own_call = call;
  reply_call = call;
  calls = λ client. call;
}

abbrev replica_processor : Processor
replica_processor = record {
  core = record {
    database = empty;
    aof_file = none;
    role = replica;
    offset = 0;
    backlog = [];
    client_write_offsets = [];
    transactions = [];
    watched_keys = [];
  };
  hub = record empty_hub {
    clients = (7, record { authenticated = false; pubsub_session = 70 }) ∷ [];
  };
  default_user = make_default_acl_user none;
  rdb_config = default_config.rdb_config;
  aof_config = default_config.aof_config;
  replication_id = codes "id";
}

abbrev set_task : Task
set_task = record {
  client = 7;
  command = codes "SET" ∷ codes "a" ∷ codes "1" ∷ [];
  source = client_source;
  replication_bytes = 0;
}

received-Refuses_example :
    Refuses set_task.command replica_processor
      (received whole_seconds outside 7 set_task.command replica_processor)
received-Refuses_example =
    received-Refuses whole_seconds outside 7 set_task.command replica_processor
      (unfold str_eq in refl) (unfold find in refl)

-- A stranger's PSYNC is not refused.
stranger_becomes_replica :
    received whole_seconds outside 7 (codes "PSYNC" ∷ codes "?" ∷ codes "-1" ∷ []) replica_processor
    ≡ becomes_replica
stranger_becomes_replica = unfold received str_eq in refl

process_task-SameData_example :
    Leaves
      (SameData replica_processor)
      (process_task whole_seconds outside set_task replica_processor)
process_task-SameData_example =
    process_task-SameData whole_seconds outside set_task replica_processor refl refl
      (unfold is_write_command find_command_definition find_definition str_eq in refl)

authenticate-grants_example :
    let (reply, hub') =
      authenticate outside.sha256 7
        (auth_command none (codes "p"))
        (make_default_acl_user none)
        replica_processor.hub in
    is_authenticated (find 7 hub'.clients) ≡ (
      is_authenticated (find 7 replica_processor.hub.clients)
      || ((7 == 7)
          && (is_registered (find 7 replica_processor.hub.clients)
              && (names_default none
                  && opens outside.sha256 (codes "p") (make_default_acl_user none)))))
authenticate-grants_example =
    authenticate-grants outside.sha256 7 7 none (codes "p") (make_default_acl_user none)
      replica_processor.hub
