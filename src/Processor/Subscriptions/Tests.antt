-- ===== src/Processor/Subscriptions/Tests.antt =====
-- Two clients, one of them gone, on one channel.
use codecrafters_redis_cpp.Prelude.{
  ℕ, ◌≡◌, refl, true, false, [], ◌∷◌, ◌++◌, codes, replicate, str_eq,
}
use codecrafters_redis_cpp.Prelude.Int.{pos}
use codecrafters_redis_cpp.Prelude.Map.{bytes_eq, nat_eq, find, insert}
use codecrafters_redis_cpp.Resp.Reply.{integer, array, serialize_response}
use codecrafters_redis_cpp.Pubsub.{succeeded, Call}
use codecrafters_redis_cpp.Processor.Subscriptions.{
  Hub, find_session, subscribe, register_client, publish,
}
use codecrafters_redis_cpp.Processor.Subscriptions.Consistent.{IsConsistent}
use codecrafters_redis_cpp.Processor.Subscriptions.Published.{handle_in}
use codecrafters_redis_cpp.Processor.Subscriptions.Reachable.{
  empty_hub, registers, connections, subscribes, Reachable, start, step, Reachable-IsConsistent,
}
use codecrafters_redis_cpp.Processor.Subscriptions.Delivery.{
  frames_at, copies, reached, publish-delivers,
}

abbrev call : Call
call = record { interruptions = 0; end = succeeded }

abbrev registered : Hub
registered = record empty_hub {
  clients = (7, record { authenticated = true; pubsub_session = 70 }) ∷ [];
  sessions = (70, record { pending_frames = []; readable = false }) ∷ [];
}

registered-Reachable : Reachable registered
registered-Reachable =
    step (record registered { sessions = [] }) registered
      (step empty_hub (record registered { sessions = [] }) start
        (unfold register_client insert in registers empty_hub true 7 70))
      (connections (record registered { sessions = [] }) registered.sessions)

Reachable-IsConsistent_example :
    IsConsistent (subscribe call 7 (codes "SUBSCRIBE" ∷ codes "c" ∷ []) registered).1
Reachable-IsConsistent_example =
    Reachable-IsConsistent (subscribe call 7 (codes "SUBSCRIBE" ∷ codes "c" ∷ []) registered).1 (
      step registered _ registered-Reachable
        (subscribes registered call 7 (codes "SUBSCRIBE" ∷ codes "c" ∷ [])))

abbrev subscribed : Hub
subscribed = record registered {
  client_subscriptions = (7, codes "c" ∷ []) ∷ (8, codes "c" ∷ []) ∷ [];
  channel_subscribers = (codes "c", 8 ∷ 7 ∷ []) ∷ [];
}

publish-delivers_example :
    let (reply, hub') =
      publish (λ client. call) (codes "PUBLISH" ∷ codes "c" ∷ codes "m" ∷ []) subscribed in
    (reply ≡ integer (pos (reached (8 ∷ 7 ∷ []) subscribed)))
    × ((handle : ℕ)
        → frames_at handle hub'
          ≡ frames_at handle subscribed
            ++ replicate
                (copies handle (8 ∷ 7 ∷ []) subscribed)
                (serialize_response (array (codes "message" ∷ codes "c" ∷ codes "m" ∷ []))))
publish-delivers_example =
    publish-delivers (λ client. call) (codes "c") (codes "m") (8 ∷ 7 ∷ []) subscribed (λ client. tt)
      (unfold find str_eq in refl)

-- One of the two has a session.
reached_one : reached (8 ∷ 7 ∷ []) subscribed ≡ 1
unfolding handle_in find_session find
reached_one = refl
