-- ===== src/Processor/Subscriptions/Consistent.antt =====
-- The two maps of subscriptions in src/command_processor.cpp say the same.
use codecrafters_redis_cpp.Prelude.{
  ℕ, ◌≡◌, refl, ap, sym, subst, ◌∙◌, Bool, true, false, ◌&&◌, not, Option, none, some, List, [],
  ◌∷◌, arith, ltb, ◌==◌, ==_iff, if◌then◌else◌, Bytes, length, drop, str_eq, str_eq_iff,
}
use codecrafters_redis_cpp.Prelude.Map.{Map, bytes_eq, nat_eq, find}
use codecrafters_redis_cpp.Prelude.Expected.{Expected, expected, unexpected}
use codecrafters_redis_cpp.Resp.{Command}
use codecrafters_redis_cpp.Resp.Reply.{Response}
use codecrafters_redis_cpp.Pubsub.{PubSubSession, Call}
use codecrafters_redis_cpp.Processor.Subscriptions.{
  Hub, Found, unknown, expired, alive, find_session, subscribe_one, subscribe_all, acknowledged,
  subscribe_found, subscribe, leave_channel, remove_from, remove_subscription, unsubscribe_all,
  unsubscribe_each, unsubscribe_found, unsubscribe, register_client, leave_all, unregister_client,
}
use codecrafters_redis_cpp.Processor.Subscriptions.Sets.{
  member, add, remove, set_of, put_or_erase, member-add, member-remove, set_of-insert, set_of-erase,
  set_of-put_or_erase,
}

-- A client has a channel exactly if the channel has the client.
abbrev pub AreConsistent : Map ℕ (List Bytes) → Map Bytes (List ℕ) → Type 0
AreConsistent subscriptions subscribers =
    (client : ℕ) (channel : Bytes)
    → member channel (set_of client subscriptions) ≡ member client (set_of channel subscribers)

abbrev pub IsConsistent : Hub → Type 0
IsConsistent hub = AreConsistent hub.client_subscriptions hub.channel_subscribers

subscribe_one-IsConsistent :
    (client : ℕ) (channel : Bytes) (hub : Hub)
    → IsConsistent hub
    → IsConsistent (subscribe_one client channel hub)
unfolding subscribe_one
subscribe_one-IsConsistent client channel hub h other name = ground (
  arith,
  ==_iff client other,
  str_eq_iff channel name,
  set_of-insert client other (add channel (set_of client hub.client_subscriptions))
      hub.client_subscriptions,
  set_of-insert channel name (add client (set_of channel hub.channel_subscribers))
      hub.channel_subscribers,
  member-add name channel (set_of client hub.client_subscriptions),
  member-add other client (set_of channel hub.channel_subscribers),
  h other name,
  h client name,
  h other channel,
)

subscribe_all-IsConsistent :
    (client : ℕ) (channels : List Bytes) (payload : Bytes) (hub : Hub)
    → IsConsistent hub
    → IsConsistent (subscribe_all client channels payload hub).1
unfolding subscribe_all
subscribe_all-IsConsistent client [] payload hub h = h
subscribe_all-IsConsistent client (channel ∷ channels) payload hub h =
    subscribe_all-IsConsistent client channels _ (subscribe_one client channel hub)
      (subscribe_one-IsConsistent client channel hub h)

-- Both maps after the pair of a client and a channel is taken out.
left_channel :
    (client other : ℕ) (channel name : Bytes) (subscribers : Map Bytes (List ℕ))
    → member other (
        set_of name
          (leave_channel (member client (set_of channel subscribers)) client channel subscribers))
      ≡ (member other (set_of name subscribers) && not (str_eq channel name && (client == other)))
left_channel client other channel name subscribers =
    by_member (member client (set_of channel subscribers)) refl
  where
    by_member :
        (b : Bool)
        → member client (set_of channel subscribers) ≡ b
        → member other (set_of name (leave_channel b client channel subscribers)) ≡ (
            member other (set_of name subscribers)
            && not (str_eq channel name && (client == other)))
    by_member true e = ground (
      arith,
      str_eq_iff channel name,
      set_of-put_or_erase channel name (remove client (set_of channel subscribers)) subscribers,
      member-remove other client (set_of channel subscribers),
    )
    by_member false e = ground (arith, e, str_eq_iff channel name, ==_iff client other)

left_client :
    (client other : ℕ) (channel name : Bytes) (subscriptions : Map ℕ (List Bytes))
    → member name (
        set_of other
          (put_or_erase client (remove channel (set_of client subscriptions)) subscriptions))
      ≡ (member name (set_of other subscriptions) && not (str_eq channel name && (client == other)))
left_client client other channel name subscriptions = ground (
  arith,
  ==_iff client other,
  set_of-put_or_erase client other (remove channel (set_of client subscriptions)) subscriptions,
  member-remove name channel (set_of client subscriptions),
)

removed-AreConsistent :
    (client : ℕ) (channel : Bytes) (subscriptions : Map ℕ (List Bytes))
    (subscribers : Map Bytes (List ℕ))
    → AreConsistent subscriptions subscribers
    → AreConsistent
        (put_or_erase client (remove channel (set_of client subscriptions)) subscriptions)
        (leave_channel (member channel (set_of client subscriptions)) client channel subscribers)
removed-AreConsistent client channel subscriptions subscribers h other name =
    left_client client other channel name subscriptions
    ∙ ap (λ b. b && not (str_eq channel name && (client == other))) (h other name)
    ∙ sym (left_channel client other channel name subscribers)
    ∙ ap (λ b. member other (set_of name (leave_channel b client channel subscribers)))
        (sym (h client channel))

set_of-found :
    {V : Type 0} (client : ℕ) (m : Map ℕ (List V)) {set : List V}
    → find client m ≡ some set
    → set_of client m ≡ set
unfolding set_of
set_of-found client m e = rw e refl

remove_subscription-IsConsistent :
    (client : ℕ) (channel : Bytes) (hub : Hub)
    → IsConsistent hub
    → IsConsistent (remove_subscription client channel hub).1
unfolding remove_subscription
remove_subscription-IsConsistent client channel hub h =
    by_found (find client hub.client_subscriptions) refl
  where
    by_found :
        (found : Option (List Bytes))
        → find client hub.client_subscriptions ≡ found
        → IsConsistent (remove_from client channel found hub).1
    by_found none e = h
    by_found (some subscriptions) e =
        subst
          (λ set.
            AreConsistent (put_or_erase client (remove channel set) hub.client_subscriptions)
              (leave_channel (member channel set) client channel hub.channel_subscribers))
          (set_of-found client hub.client_subscriptions e)
          (removed-AreConsistent client channel hub.client_subscriptions hub.channel_subscribers h)

unsubscribe_all-IsConsistent :
    (client : ℕ) (channels : List Bytes) (payload : Bytes) (hub : Hub)
    → IsConsistent hub
    → IsConsistent (unsubscribe_all client channels payload hub).1
unfolding unsubscribe_all
unsubscribe_all-IsConsistent client [] payload hub h = h
unsubscribe_all-IsConsistent client (channel ∷ channels) payload hub h =
    unsubscribe_all-IsConsistent client channels _ (remove_subscription client channel hub).1
      (remove_subscription-IsConsistent client channel hub h)

acknowledged-IsConsistent :
    (handle : ℕ) (queued : Expected Unit × PubSubSession) (hub : Hub)
    → IsConsistent hub
    → IsConsistent (acknowledged handle queued hub).1
acknowledged-IsConsistent handle (expected done, session) hub h = h
acknowledged-IsConsistent handle (unexpected reason, session) hub h = h

subscribe_found-IsConsistent :
    (call : Call) (client : ℕ) (command : Command) (found : Found) (hub : Hub)
    → IsConsistent hub
    → IsConsistent (subscribe_found call client command found hub).1
subscribe_found-IsConsistent call client command unknown hub h = h
subscribe_found-IsConsistent call client command expired hub h = h
subscribe_found-IsConsistent call client command (alive handle session) hub h =
    acknowledged-IsConsistent handle _ _
      (subscribe_all-IsConsistent client (drop 1 command) [] hub h)

pub subscribe-IsConsistent :
    (call : Call) (client : ℕ) (command : Command) (hub : Hub)
    → IsConsistent hub
    → IsConsistent (subscribe call client command hub).1
unfolding subscribe
subscribe-IsConsistent call client command hub h = by_length (ltb (length command) 2) _
  where
    by_length :
        (short : Bool) (error : Response)
        → IsConsistent
            (if short
              then (error, hub)
              else subscribe_found call client command (find_session client hub) hub).1
    by_length true error = h
    by_length false error =
        subscribe_found-IsConsistent call client command (find_session client hub) hub h

unsubscribe_each-IsConsistent :
    (client : ℕ) (channels : List Bytes) (hub : Hub)
    → IsConsistent hub
    → IsConsistent (unsubscribe_each client channels hub).1
unsubscribe_each-IsConsistent client [] hub h = h
unsubscribe_each-IsConsistent client (channel ∷ channels) hub h =
    unsubscribe_all-IsConsistent client (channel ∷ channels) [] hub h

unsubscribe_found-IsConsistent :
    (call : Call) (client : ℕ) (command : Command) (found : Found) (hub : Hub)
    → IsConsistent hub
    → IsConsistent (unsubscribe_found call client command found hub).1
unsubscribe_found-IsConsistent call client command unknown hub h = h
unsubscribe_found-IsConsistent call client command expired hub h = h
unsubscribe_found-IsConsistent call client command (alive handle session) hub h =
    acknowledged-IsConsistent handle _ _ (by_length (length command == 1))
  where
    by_length :
        (bare : Bool)
        → IsConsistent
            (if bare
              then unsubscribe_each client (set_of client hub.client_subscriptions) hub
              else unsubscribe_all client (drop 1 command) [] hub).1
    by_length true = unsubscribe_each-IsConsistent client _ hub h
    by_length false = unsubscribe_all-IsConsistent client (drop 1 command) [] hub h

pub unsubscribe-IsConsistent :
    (call : Call) (client : ℕ) (command : Command) (hub : Hub)
    → IsConsistent hub
    → IsConsistent (unsubscribe call client command hub).1
unfolding unsubscribe
unsubscribe-IsConsistent call client command hub h =
    unsubscribe_found-IsConsistent call client command (find_session client hub) hub h

pub leave_all-member :
    (client other : ℕ) (channels : List Bytes) (name : Bytes) (subscribers : Map Bytes (List ℕ))
    → member other (set_of name (leave_all client channels subscribers))
      ≡ (member other (set_of name subscribers) && not ((client == other) && member name channels))
unfolding leave_all member
leave_all-member client other [] name subscribers = ground arith
leave_all-member client other (channel ∷ channels) name subscribers = ground (
  arith,
  str_eq_iff channel name,
  leave_all-member client other channels name
      (put_or_erase channel (remove client (set_of channel subscribers)) subscribers),
  set_of-put_or_erase channel name (remove client (set_of channel subscribers)) subscribers,
  member-remove other client (set_of channel subscribers),
)

pub unregister_client-IsConsistent :
    (client : ℕ) (hub : Hub) → IsConsistent hub → IsConsistent (unregister_client client hub)
unfolding unregister_client
unregister_client-IsConsistent client hub h other name = ground (
  arith,
  no_member name,
  ==_iff client other,
  h other name,
  leave_all-member client other (set_of client hub.client_subscriptions) name
      hub.channel_subscribers,
  set_of-erase client other hub.client_subscriptions,
)
  where
    no_member : (name : Bytes) → member name [] ≡ false
    no_member name = unfold member in refl

pub register_client-IsConsistent :
    (no_password : Bool) (client handle : ℕ) (hub : Hub)
    → IsConsistent hub
    → IsConsistent (register_client no_password client handle hub)
unfolding register_client
register_client-IsConsistent no_password client handle hub h = h
