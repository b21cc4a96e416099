-- ===== src/Processor/Departure/Tests.antt =====
-- A client with a subscription leaves while it waits, and another waits on.
use codecrafters_redis_cpp.Prelude.{◌≡◌, refl, true, false, none, some, [], ◌∷◌, codes}
use codecrafters_redis_cpp.Prelude.Int.{pos}
use codecrafters_redis_cpp.Prelude.Map.{bytes_eq, nat_eq, find}
use codecrafters_redis_cpp.ServerConfig.{default_config}
use codecrafters_redis_cpp.Database.{empty}
use codecrafters_redis_cpp.Pubsub.{succeeded, Call}
use codecrafters_redis_cpp.Resp.Reply.{no_response}
use codecrafters_redis_cpp.Processor.Transactions.{master}
use codecrafters_redis_cpp.Processor.Subscriptions.{Hub, subscribe}
use codecrafters_redis_cpp.Processor.Subscriptions.Sets.{member, set_of}
use codecrafters_redis_cpp.Processor.Subscriptions.Consistent.{IsConsistent, subscribe-IsConsistent}
use codecrafters_redis_cpp.Processor.Access.{make_default_acl_user}
use codecrafters_redis_cpp.Processor.Departure.{
  Worker, cancel, cancel_pending_commands, process_client_unregistration,
}
use codecrafters_redis_cpp.Processor.Departure.Gone.{
  Gone, CancelsAll, process_client_unregistration-Gone,
}

abbrev call : Call
call = record { interruptions = 0; end = succeeded }

abbrev registered : Hub
registered = record {
  clients = (7, record { authenticated = true; pubsub_session = 70 }) ∷ [];
  client_subscriptions = [];
  channel_subscribers = [];
  sessions = (70, record { pending_frames = []; readable = false }) ∷ [];
}

abbrev subscribed : Hub
subscribed = (subscribe call 7 (codes "SUBSCRIBE" ∷ codes "c" ∷ []) registered).1

subscribed-IsConsistent : IsConsistent subscribed
subscribed-IsConsistent =
    subscribe-IsConsistent call 7 (codes "SUBSCRIBE" ∷ codes "c" ∷ []) registered
      (λ client channel. unfold member set_of find in refl)

abbrev worker : Worker
worker = record {
  processor = record {
    core = record {
      database = empty;
      aof_file = none;
      role = master;
      offset = 0;
      backlog = [];
      client_write_offsets = (7, 30) ∷ [];
      transactions = [];
      watched_keys = [];
    };
    hub = subscribed;
    default_user = make_default_acl_user none;
    rdb_config = default_config.rdb_config;
    aof_config = default_config.aof_config;
    replication_id = codes "id";
  };
  queues = record {
    list_pops =
        record { client = 7; key = codes "a"; deadline = none }
        ∷ record { client = 8; key = codes "a"; deadline = some (pos 5) }
        ∷ [];
    stream_reads = [];
    waits = [];
  };
  replica_acknowledged_offsets = [];
}

process_client_unregistration-Gone_example :
    let (answers, worker') = process_client_unregistration 7 worker in
    Gone 7 worker worker' × CancelsAll 7 worker.queues answers worker'.queues
process_client_unregistration-Gone_example =
    process_client_unregistration-Gone 7 worker subscribed-IsConsistent

one_answer : (process_client_unregistration 7 worker).0 ≡ (7, no_response) ∷ []
unfolding process_client_unregistration cancel_pending_commands cancel
one_answer = refl
