-- ===== src/Processor/Subscriptions.antt =====
-- src/command_processor.cpp: SUBSCRIBE, UNSUBSCRIBE and PUBLISH, and the clients that come and go. A
-- `std::weak_ptr` to a session is the number of the session; it is expired when no session that is alive
-- has that number.
pub mod Sets
pub mod Consistent
pub mod Published
pub mod Reachable
pub mod Delivery
mod Tests
use codecrafters_redis_cpp.Prelude.{
  ℕ, zero, suc, ◌+◌, Bool, true, false, ◌&&◌, ◌||◌, not, Option, none, some, List, [], ◌∷◌, ◌++◌,
  ltb, ◌==◌, if◌then◌else◌, Bytes, codes, length, drop,
}
use codecrafters_redis_cpp.Prelude.Int.{ℤ, pos}
use codecrafters_redis_cpp.Prelude.Map.{Map, Eq, bytes_eq, nat_eq, find, insert, erase}
use codecrafters_redis_cpp.Prelude.Expected.{Expected, expected, unexpected}
use codecrafters_redis_cpp.Resp.{Command}
use codecrafters_redis_cpp.Resp.Reply.{
  Response, nil, cons, simple_error, integer, bulk_string, null_bulk_string, no_response, array,
  response_array, serialize_response,
}
use codecrafters_redis_cpp.Handlers.{word}
use codecrafters_redis_cpp.Pubsub.{PubSubSession, Call, enqueue}
use codecrafters_redis_cpp.Processor.Subscriptions.Sets.{member, add, remove, set_of, put_or_erase}

pub record ClientState : Type 0 where
  pub authenticated : Bool
  pub pubsub_session : ℕ

-- The members of `CommandProcessor` that are about clients and channels, and the sessions alive.
pub record Hub : Type 0 where
  pub clients : Map ℕ ClientState
  pub client_subscriptions : Map ℕ (List Bytes)
  pub channel_subscribers : Map Bytes (List ℕ)
  pub sessions : Map ℕ PubSubSession

-- A client, its session if that is alive, or why there is none.
pub data Found : Type 0 where
  unknown : Found
  expired : Found
  alive : ℕ → PubSubSession → Found

abbrev pub lock : ℕ → Option PubSubSession → Found
lock handle none = expired
lock handle (some session) = alive handle session

abbrev pub session_of : Option ClientState → Map ℕ PubSubSession → Found
session_of none sessions = unknown
session_of (some state) sessions = lock state.pubsub_session (find state.pubsub_session sessions)

unfoldable pub find_session : ℕ → Hub → Found
find_session client hub = session_of (find client hub.clients) hub.sessions

-- The three values of an acknowledgement.
abbrev pub acknowledgement : Bytes → Response → ℕ → Bytes
acknowledgement verb channel count =
    serialize_response
      (response_array (cons (bulk_string verb) (cons channel (cons (integer (pos count)) nil))))

-- A channel of SUBSCRIBE.
unfoldable pub subscribe_one : ℕ → Bytes → Hub → Hub
subscribe_one client channel hub = record hub {
  client_subscriptions =
      insert client (add channel (set_of client hub.client_subscriptions)) hub.client_subscriptions;
  channel_subscribers =
      insert channel (add client (set_of channel hub.channel_subscribers)) hub.channel_subscribers;
}

unfoldable pub subscribe_all : ℕ → List Bytes → Bytes → Hub → Bytes × Hub
subscribe_all client [] payload hub = (payload, hub)
subscribe_all client (channel ∷ channels) payload hub =
    let hub' = subscribe_one client channel hub in
    subscribe_all client channels
      (payload
        ++ acknowledgement (codes "subscribe") (bulk_string channel)
            (length (set_of client hub'.client_subscriptions)))
      hub'

-- How a command ends whose acknowledgement is queued at the session.
abbrev pub acknowledged : ℕ → Expected Unit × PubSubSession → Hub → Response × Hub
acknowledged handle (expected done, session) hub =
    (no_response, record hub { sessions = insert handle session hub.sessions })
acknowledged handle (unexpected reason, session) hub = (
  simple_error (codes "ERR failed to queue Pub/Sub acknowledgement: " ++ reason),
  record hub { sessions = insert handle session hub.sessions },
)

abbrev pub not_registered : Response
not_registered = simple_error (codes "ERR Pub/Sub session is not registered")

abbrev pub not_available : Response
not_available = simple_error (codes "ERR Pub/Sub session is no longer available")

abbrev pub subscribe_found : Call → ℕ → Command → Found → Hub → Response × Hub
subscribe_found call client command unknown hub = (not_registered, hub)
subscribe_found call client command expired hub =
    (not_available, record hub { clients = erase client hub.clients })
subscribe_found call client command (alive handle session) hub =
    let (payload, hub') = subscribe_all client (drop 1 command) [] hub in
    acknowledged handle (enqueue call payload session) hub'

unfoldable pub subscribe : Call → ℕ → Command → Hub → Response × Hub
subscribe call client command hub =
    if ltb (length command) 2
    then (simple_error (codes "ERR wrong number of arguments for 'subscribe' command"), hub)
    else subscribe_found call client command (find_session client hub) hub

-- The channel forgets the client, if the client had it.
abbrev pub leave_channel : Bool → ℕ → Bytes → Map Bytes (List ℕ) → Map Bytes (List ℕ)
leave_channel false client channel subscribers = subscribers
leave_channel true client channel subscribers =
    put_or_erase channel (remove client (set_of channel subscribers)) subscribers

abbrev pub remove_from : ℕ → Bytes → Option (List Bytes) → Hub → ℕ × Hub
remove_from client channel none hub = (0, hub)
remove_from client channel (some subscriptions) hub = (
  length (remove channel subscriptions),
  record hub {
    client_subscriptions =
        put_or_erase client (remove channel subscriptions) hub.client_subscriptions;
    channel_subscribers =
        leave_channel (member channel subscriptions) client channel hub.channel_subscribers;
  },
)

unfoldable pub remove_subscription : ℕ → Bytes → Hub → ℕ × Hub
remove_subscription client channel hub =
    remove_from client channel (find client hub.client_subscriptions) hub

unfoldable pub unsubscribe_all : ℕ → List Bytes → Bytes → Hub → Bytes × Hub
unsubscribe_all client [] payload hub = (payload, hub)
unsubscribe_all client (channel ∷ channels) payload hub =
    let (remaining, hub') = remove_subscription client channel hub in
    unsubscribe_all client channels
      (payload ++ acknowledgement (codes "unsubscribe") (bulk_string channel) remaining) hub'

-- UNSUBSCRIBE without channels is for all that the client has.
abbrev pub unsubscribe_each : ℕ → List Bytes → Hub → Bytes × Hub
unsubscribe_each client [] hub = (acknowledgement (codes "unsubscribe") null_bulk_string 0, hub)
unsubscribe_each client (channel ∷ channels) hub =
    unsubscribe_all client (channel ∷ channels) [] hub

abbrev pub unsubscribe_found : Call → ℕ → Command → Found → Hub → Response × Hub
unsubscribe_found call client command unknown hub = (not_registered, hub)
unsubscribe_found call client command expired hub =
    (not_available, record hub { clients = erase client hub.clients })
unsubscribe_found call client command (alive handle session) hub =
    let (payload, hub') =
      if length command == 1
      then unsubscribe_each client (set_of client hub.client_subscriptions) hub
      else unsubscribe_all client (drop 1 command) [] hub in
    acknowledged handle (enqueue call payload session) hub'

unfoldable pub unsubscribe : Call → ℕ → Command → Hub → Response × Hub
unsubscribe call client command hub =
    unsubscribe_found call client command (find_session client hub) hub

-- What the loop of PUBLISH makes of a subscriber: how many received the frame, whether the channel
-- keeps the subscriber, and the rest.
abbrev pub forget : ℕ → Bytes → Hub → Hub
forget client channel hub = record hub {
  clients = erase client hub.clients;
  client_subscriptions =
      put_or_erase client (remove channel (set_of client hub.client_subscriptions))
        hub.client_subscriptions;
}

abbrev pub delivered : ℕ → Expected Unit × PubSubSession → Hub → ℕ × Hub
delivered handle (expected done, session) hub =
    (1, record hub { sessions = insert handle session hub.sessions })
delivered handle (unexpected reason, session) hub =
    (0, record hub { sessions = insert handle session hub.sessions })

abbrev pub publish_found : Call → ℕ → Bytes → Bytes → Found → Hub → ℕ × List ℕ × Hub
publish_found call client channel frame unknown hub = (0, [], forget client channel hub)
publish_found call client channel frame expired hub = (0, [], forget client channel hub)
publish_found call client channel frame (alive handle session) hub =
    let (received, hub') = delivered handle (enqueue call frame session) hub in
    (received, client ∷ [], hub')

-- The loop, over the subscribers that are left; `calls client` is how the call for a client ends.
unfoldable pub publish_all : (ℕ → Call) → Bytes → Bytes → List ℕ → Hub → ℕ × List ℕ × Hub
publish_all calls channel frame [] hub = (0, [], hub)
publish_all calls channel frame (client ∷ subscribers) hub =
    let (received, kept, hub') =
      publish_found (calls client) client channel frame (find_session client hub) hub in
    let (recipients, others, hub'') = publish_all calls channel frame subscribers hub' in
    (received + recipients, kept ++ others, hub'')

abbrev pub publish_to : (ℕ → Call) → Bytes → Bytes → Option (List ℕ) → Hub → Response × Hub
publish_to calls channel message none hub = (integer (pos 0), hub)
publish_to calls channel message (some subscribers) hub =
    let frame = serialize_response (array (codes "message" ∷ channel ∷ message ∷ [])) in
    let (recipients, kept, hub') = publish_all calls channel frame subscribers hub in
    (
      integer (pos recipients),
      record hub' { channel_subscribers = put_or_erase channel kept hub'.channel_subscribers },
    )

unfoldable pub publish : (ℕ → Call) → Command → Hub → Response × Hub
publish calls command hub =
    if not (length command == 3)
    then (simple_error (codes "ERR wrong number of arguments for 'publish' command"), hub)
    else publish_to calls (word command 1) (word command 2)
        (find (word command 1) hub.channel_subscribers) hub

-- `process_client_registration`; `no_password` is that of the default user.
unfoldable pub register_client : Bool → ℕ → ℕ → Hub → Hub
register_client no_password client handle hub = record hub {
  clients =
      insert client (record { authenticated = no_password; pubsub_session = handle }) hub.clients;
}

-- The loop of `process_client_unregistration` over the channels of the client.
unfoldable pub leave_all : ℕ → List Bytes → Map Bytes (List ℕ) → Map Bytes (List ℕ)
leave_all client [] subscribers = subscribers
leave_all client (channel ∷ channels) subscribers =
    leave_all client channels
      (put_or_erase channel (remove client (set_of channel subscribers)) subscribers)

unfoldable pub unregister_client : ℕ → Hub → Hub
unregister_client client hub = record hub {
  clients = erase client hub.clients;
  client_subscriptions = erase client hub.client_subscriptions;
  channel_subscribers =
      leave_all client (set_of client hub.client_subscriptions) hub.channel_subscribers;
}
