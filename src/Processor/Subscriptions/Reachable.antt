-- ===== src/Processor/Subscriptions/Reachable.antt =====
-- The states of the subscriptions that src/command_processor.cpp can reach.
use codecrafters_redis_cpp.Prelude.{ℕ, refl, Bool, []}
use codecrafters_redis_cpp.Prelude.Map.{Map, bytes_eq, nat_eq, find}
use codecrafters_redis_cpp.Resp.{Command}
use codecrafters_redis_cpp.Pubsub.{PubSubSession, Call}
use codecrafters_redis_cpp.Processor.Subscriptions.{
  Hub, subscribe, unsubscribe, publish, register_client, unregister_client,
}
use codecrafters_redis_cpp.Processor.Subscriptions.Sets.{member, set_of}
use codecrafters_redis_cpp.Processor.Subscriptions.Consistent.{
  IsConsistent, subscribe-IsConsistent, unsubscribe-IsConsistent, register_client-IsConsistent,
  unregister_client-IsConsistent,
}
use codecrafters_redis_cpp.Processor.Subscriptions.Published.{publish-IsConsistent}

abbrev pub empty_hub : Hub
empty_hub = record {
  clients = [];
  client_subscriptions = [];
  channel_subscribers = [];
  sessions = [];
}

-- A command or a task of the worker; or the connections, which make sessions, take frames from them
-- and drop them at any time.
pub data HubStep : Hub → Hub → Type 0 where
  subscribes :
      (hub : Hub) (call : Call) (client : ℕ) (command : Command)
      → HubStep hub (subscribe call client command hub).1
  unsubscribes :
      (hub : Hub) (call : Call) (client : ℕ) (command : Command)
      → HubStep hub (unsubscribe call client command hub).1
  publishes :
      (hub : Hub) (calls : ℕ → Call) (command : Command) → HubStep hub (publish calls command hub).1
  registers :
      (hub : Hub) (no_password : Bool) (client handle : ℕ)
      → HubStep hub (register_client no_password client handle hub)
  unregisters : (hub : Hub) (client : ℕ) → HubStep hub (unregister_client client hub)
  connections :
      (hub : Hub) (sessions : Map ℕ PubSubSession)
      → HubStep hub (record hub { sessions = sessions })

pub data Reachable : Hub → Type 0 where
  start : Reachable empty_hub
  step : (hub later : Hub) → Reachable hub → HubStep hub later → Reachable later

step-IsConsistent : (hub later : Hub) → HubStep hub later → IsConsistent hub → IsConsistent later
step-IsConsistent _ later (subscribes hub call client command) h =
    subscribe-IsConsistent call client command hub h
step-IsConsistent _ later (unsubscribes hub call client command) h =
    unsubscribe-IsConsistent call client command hub h
step-IsConsistent _ later (publishes hub calls command) h = publish-IsConsistent calls command hub h
step-IsConsistent _ later (registers hub no_password client handle) h =
    register_client-IsConsistent no_password client handle hub h
step-IsConsistent _ later (unregisters hub client) h = unregister_client-IsConsistent client hub h
step-IsConsistent _ later (connections hub sessions) h = h

-- In every state that commands and connections can reach, the two maps of subscriptions agree: a client
-- counts a channel among its subscriptions exactly if the channel counts the client among its
-- subscribers.
pub Reachable-IsConsistent : (hub : Hub) → Reachable hub → IsConsistent hub
unfolding member set_of find
Reachable-IsConsistent _ start = λ client channel. refl
Reachable-IsConsistent _ (step hub later r s) =
    step-IsConsistent hub later s (Reachable-IsConsistent hub r)
