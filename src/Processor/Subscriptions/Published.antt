-- ===== src/Processor/Subscriptions/Published.antt =====
-- What PUBLISH of src/command_processor.cpp leaves of the subscriptions, and whom it reaches.
use codecrafters_redis_cpp.Prelude.{
  ℕ, ◌+◌, ◌≡◌, refl, ap, Bool, true, false, ◌&&◌, not, Option, none, some, List, [], ◌∷◌, ◌++◌,
  arith, ◌==◌, ==_iff, if◌then◌else◌, Bytes, length, str_eq, str_eq_iff,
}
use codecrafters_redis_cpp.Prelude.Map.{bytes_eq, nat_eq, find, insert, find-insert, find-erase}
use codecrafters_redis_cpp.Prelude.Expected.{Expected, expected, unexpected}
use codecrafters_redis_cpp.Resp.{Command}
use codecrafters_redis_cpp.Resp.Reply.{Response}
use codecrafters_redis_cpp.Handlers.{word}
use codecrafters_redis_cpp.Pubsub.{PubSubSession, Call, enqueue}
use codecrafters_redis_cpp.Processor.Subscriptions.{
  ClientState, Hub, Found, unknown, expired, alive, lock, session_of, find_session, forget,
  delivered, publish_found, publish_all, publish_to, publish,
}
use codecrafters_redis_cpp.Processor.Subscriptions.Sets.{
  member, remove, set_of, put_or_erase, member-remove, set_of-put_or_erase,
}
use codecrafters_redis_cpp.Processor.Subscriptions.Consistent.{IsConsistent}

-- The number of the session of a client, if it is alive.
abbrev pub handle_of : Found → Option ℕ
handle_of unknown = none
handle_of expired = none
handle_of (alive handle session) = some handle

unfoldable pub handle_in : ℕ → Hub → Option ℕ
handle_in client hub = handle_of (find_session client hub)

abbrev is_some : Option ℕ → Bool
is_some none = false
is_some (some n) = true

pub handle_in-forget :
    (client other : ℕ) (channel : Bytes) (hub : Hub)
    → handle_in client hub ≡ none
    → handle_in other (forget client channel hub) ≡ handle_in other hub
unfolding handle_in find_session
handle_in-forget client other channel hub e =
    ground (arith, e, ==_iff client other, find-erase client other hub.clients)

pub handle_in-insert :
    (handle other : ℕ) (before after : PubSubSession) (hub : Hub)
    → find handle hub.sessions ≡ some before
    → handle_in other (record hub { sessions = insert handle after hub.sessions })
      ≡ handle_in other hub
unfolding handle_in find_session
handle_in-insert handle other before after hub e = by_client (find other hub.clients)
  where
    by_client :
        (state : Option ClientState)
        → handle_of (session_of state (insert handle after hub.sessions))
          ≡ handle_of (session_of state hub.sessions)
    by_client none = refl
    by_client (some state) = ground (
      arith,
      e,
      ==_iff handle state.pubsub_session,
      find-insert handle state.pubsub_session after hub.sessions,
    )

pub find_session-alive :
    (client handle : ℕ) (session : PubSubSession) (hub : Hub)
    → find_session client hub ≡ alive handle session
    → find handle hub.sessions ≡ some session
unfolding find_session
find_session-alive client handle session hub e = by_client (find client hub.clients) e
  where
    by_lock :
        (h : ℕ) (found : Option PubSubSession)
        → find h hub.sessions ≡ found
        → lock h found ≡ alive handle session
        → find handle hub.sessions ≡ some session
    by_lock h none p q = cc
    by_lock h (some s) p q = cc

    by_client :
        (state : Option ClientState)
        → session_of state hub.sessions ≡ alive handle session
        → find handle hub.sessions ≡ some session
    by_client none q = cc
    by_client (some state) q = by_lock state.pubsub_session _ refl q

-- What the loop leaves: of the subscribers those whose session is alive, and no subscription of the
-- others to the channel.
record Left (channel : Bytes) (subscribers : List ℕ) (hub : Hub) (kept : List ℕ) (hub' : Hub)
    : Type 0 where
  pub kept_alive :
      (client : ℕ)
      → member client kept ≡ (member client subscribers && is_some (handle_in client hub))
  pub subscriptions :
      (client : ℕ) (name : Bytes)
      → member name (set_of client hub'.client_subscriptions) ≡ (
          member name (set_of client hub.client_subscriptions)
          && not (
              str_eq channel name
              && (member client subscribers && not (is_some (handle_in client hub)))))
  pub same_channels : hub'.channel_subscribers ≡ hub.channel_subscribers

Left-nothing : (channel : Bytes) (hub : Hub) → Left channel [] hub [] hub
unfolding member
Left-nothing channel hub = record {
  kept_alive = λ client. refl;
  subscriptions = λ client name. ground arith;
  same_channels = refl;
}

-- A subscriber whose session is gone, in front of the others.
Left-forget :
    (channel : Bytes) (client : ℕ) (subscribers kept : List ℕ) (hub hub' : Hub)
    → handle_in client hub ≡ none
    → Left channel subscribers (forget client channel hub) kept hub'
    → Left channel (client ∷ subscribers) hub kept hub'
unfolding member
Left-forget channel client subscribers kept hub hub' e l = record {
  kept_alive = λ other. ground (
    arith,
    e,
    ==_iff client other,
    l.kept_alive other,
    handle_in-forget client other channel hub e,
  );
  subscriptions = λ other name. ground (
    arith,
    e,
    ==_iff client other,
    str_eq_iff channel name,
    l.subscriptions other name,
    handle_in-forget client other channel hub e,
    set_of-put_or_erase client other (remove channel (set_of client hub.client_subscriptions))
        hub.client_subscriptions,
    member-remove name channel (set_of client hub.client_subscriptions),
  );
  same_channels = l.same_channels;
}

-- One whose session is alive; the session is replaced.
Left-insert :
    (channel : Bytes) (client handle : ℕ) (subscribers kept : List ℕ) (hub hub' : Hub)
    (before after : PubSubSession)
    → find_session client hub ≡ alive handle before
    → Left channel subscribers
        (record hub { sessions = insert handle after hub.sessions })
        kept
        hub'
    → Left channel (client ∷ subscribers) hub (client ∷ kept) hub'
unfolding member
Left-insert channel client handle subscribers kept hub hub' before after e l = record {
  kept_alive = λ other. ground (arith, there, ==_iff client other, l.kept_alive other, same other);
  subscriptions = λ other name.
      ground (arith, there, ==_iff client other, l.subscriptions other name, same other);
  same_channels = l.same_channels;
}
  where
    there : handle_in client hub ≡ some handle
    there = unfold handle_in in rw e refl

    same :
        (other : ℕ)
        → handle_in other (record hub { sessions = insert handle after hub.sessions })
          ≡ handle_in other hub
    same other =
        handle_in-insert handle other before after hub
          (find_session-alive client handle before hub e)

abbrev LeftBy : Bytes → List ℕ → Hub → ℕ × List ℕ × Hub → Type 0
LeftBy channel subscribers hub (recipients, kept, hub') = Left channel subscribers hub kept hub'

publish_all-Left :
    (calls : ℕ → Call) (channel frame : Bytes) (subscribers : List ℕ) (hub : Hub)
    → LeftBy channel subscribers hub (publish_all calls channel frame subscribers hub)
unfolding publish_all
publish_all-Left calls channel frame [] hub = Left-nothing channel hub
publish_all-Left calls channel frame (client ∷ subscribers) hub =
    by_found (find_session client hub) refl (publish_all-Left calls channel frame subscribers)
  where
    gone :
        (found : Found)
        → find_session client hub ≡ found
        → handle_of found ≡ none
        → handle_in client hub ≡ none
    gone found e p = unfold handle_in in rw e p

    by_queued :
        (handle : ℕ) (before : PubSubSession) (queued : Expected Unit × PubSubSession)
        → find_session client hub ≡ alive handle before
        → ((h : Hub) → LeftBy channel subscribers h (publish_all calls channel frame subscribers h))
        → Left channel
            (client ∷ subscribers)
            hub
            (client
              ∷ (publish_all calls channel frame subscribers (delivered handle queued hub).1).1)
            (publish_all calls channel frame subscribers (delivered handle queued hub).1).2
    by_queued handle before (expected done, after) e later =
        Left-insert channel client handle subscribers _ hub _ before after e (later _)
    by_queued handle before (unexpected reason, after) e later =
        Left-insert channel client handle subscribers _ hub _ before after e (later _)

    by_found :
        (found : Found)
        → find_session client hub ≡ found
        → ((h : Hub) → LeftBy channel subscribers h (publish_all calls channel frame subscribers h))
        → LeftBy channel (client ∷ subscribers) hub (
            let (received, kept, hub') =
              publish_found (calls client) client channel frame found hub in
            let (recipients, others, hub'') = publish_all calls channel frame subscribers hub' in
            (received + recipients, kept ++ others, hub''))
    by_found unknown e later =
        Left-forget channel client subscribers _ hub _ (gone unknown e refl) (later _)
    by_found expired e later =
        Left-forget channel client subscribers _ hub _ (gone expired e refl) (later _)
    by_found (alive handle before) e later =
        by_queued handle before (enqueue (calls client) frame before) e later

published-IsConsistent :
    (channel : Bytes) (subscribers kept : List ℕ) (hub hub' : Hub)
    → set_of channel hub.channel_subscribers ≡ subscribers
    → Left channel subscribers hub kept hub'
    → IsConsistent hub
    → IsConsistent
        (record hub' { channel_subscribers = put_or_erase channel kept hub'.channel_subscribers })
published-IsConsistent channel subscribers kept hub hub' e l h client name = ground (
  arith,
  ap (member client) e,
  str_eq_iff channel name,
  h client name,
  l.kept_alive client,
  l.subscriptions client name,
  ap (λ m. member client (set_of name m)) l.same_channels,
  set_of-put_or_erase channel name kept hub'.channel_subscribers,
)

publish_to-IsConsistent :
    (calls : ℕ → Call) (channel message : Bytes) (hub : Hub)
    → IsConsistent hub
    → IsConsistent (publish_to calls channel message (find channel hub.channel_subscribers) hub).1
publish_to-IsConsistent calls channel message hub h =
    by_found (find channel hub.channel_subscribers) refl
  where
    by_found :
        (found : Option (List ℕ))
        → find channel hub.channel_subscribers ≡ found
        → IsConsistent (publish_to calls channel message found hub).1
    by_found none e = h
    by_found (some subscribers) e =
        published-IsConsistent channel subscribers _ hub _ (unfold set_of in rw e refl)
          (publish_all-Left calls channel _ subscribers hub) h

pub publish-IsConsistent :
    (calls : ℕ → Call) (command : Command) (hub : Hub)
    → IsConsistent hub
    → IsConsistent (publish calls command hub).1
unfolding publish
publish-IsConsistent calls command hub h = by_length (not (length command == 3)) _
  where
    by_length :
        (wrong : Bool) (error : Response)
        → IsConsistent
            (if wrong
              then (error, hub)
              else publish_to calls
                  (word command 1)
                  (word command 2)
                  (find (word command 1) hub.channel_subscribers)
                  hub).1
    by_length true error = h
    by_length false error = publish_to-IsConsistent calls (word command 1) (word command 2) hub h
