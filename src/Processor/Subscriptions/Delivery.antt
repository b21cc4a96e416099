-- ===== src/Processor/Subscriptions/Delivery.antt =====
-- Whom a message of PUBLISH in src/command_processor.cpp reaches.
use codecrafters_redis_cpp.Prelude.{
  ℕ, zero, suc, ◌+◌, ◌≡◌, refl, ap, ap₂, sym, ◌∙◌, true, false, Option, none, some, List, [], ◌∷◌,
  ◌++◌, append_assoc, append-nil, arith, ◌==◌, ==_iff, if◌then◌else◌, Bytes, codes, replicate,
  Bool-cases, ◌⊎◌, inl, inr,
}
use codecrafters_redis_cpp.Prelude.Int.{pos}
use codecrafters_redis_cpp.Prelude.Map.{bytes_eq, nat_eq, find, insert, find-insert}
use codecrafters_redis_cpp.Prelude.Expected.{Expected, expected, unexpected}
use codecrafters_redis_cpp.Resp.Reply.{integer, array, serialize_response}
use codecrafters_redis_cpp.Pubsub.{
  PubSubSession, CallEnd, failed, succeeded, would_block, Call, notify, enqueue_behind, enqueue,
}
use codecrafters_redis_cpp.Processor.Subscriptions.{
  Hub, Found, unknown, expired, alive, find_session, forget, delivered, publish_found, publish_all,
  publish,
}
use codecrafters_redis_cpp.Processor.Subscriptions.Published.{
  handle_of, handle_in, handle_in-forget, handle_in-insert, find_session-alive,
}

-- No call on a descriptor fails.
abbrev pub Succeeds : CallEnd → Type 0
Succeeds succeeded = Unit
Succeeds would_block = Unit
Succeeds (failed reason) = ⊥

abbrev QueuedBehind : Bytes → PubSubSession → Expected Unit × PubSubSession → Type 0
QueuedBehind frame session (expected done, after) =
    after.pending_frames ≡ session.pending_frames ++ frame ∷ []
QueuedBehind frame session (unexpected reason, after) = ⊥

notify-QueuedBehind :
    (n : ℕ) (end : CallEnd) (frame : Bytes) (session : PubSubSession)
    → Succeeds end
    → QueuedBehind frame session (notify n end frame session)
unfolding notify
notify-QueuedBehind zero succeeded frame session h = refl
notify-QueuedBehind zero would_block frame session h = refl
notify-QueuedBehind zero (failed reason) frame session h = h
notify-QueuedBehind (suc n) end frame session h = notify-QueuedBehind n end frame session h

enqueue-QueuedBehind :
    (call : Call) (frame : Bytes) (session : PubSubSession)
    → Succeeds call.end
    → QueuedBehind frame session (enqueue call frame session)
unfolding enqueue
enqueue-QueuedBehind call frame session h = by_frames session.pending_frames refl
  where
    by_frames :
        (frames : List Bytes)
        → session.pending_frames ≡ frames
        → QueuedBehind frame session (enqueue_behind frames call frame session)
    by_frames [] e = notify-QueuedBehind call.interruptions call.end frame session h
    by_frames (first ∷ frames) e = ap (λ (fs : List Bytes). fs ++ frame ∷ []) (sym e)

-- The frames that wait at a session; none at one that is gone.
abbrev pub frames_of : Option PubSubSession → List Bytes
frames_of none = []
frames_of (some session) = session.pending_frames

abbrev pub frames_at : ℕ → Hub → List Bytes
frames_at handle hub = frames_of (find handle hub.sessions)

abbrev is_at : ℕ → Option ℕ → ℕ
is_at handle none = 0
is_at handle (some other) = if other == handle then 1 else 0

abbrev is_there : Option ℕ → ℕ
is_there none = 0
is_there (some handle) = 1

-- How many of the clients have the session, and how many have one that is alive.
abbrev pub copies : ℕ → List ℕ → Hub → ℕ
copies handle [] hub = 0
copies handle (client ∷ clients) hub =
    is_at handle (handle_in client hub) + copies handle clients hub

abbrev pub reached : List ℕ → Hub → ℕ
reached [] hub = 0
reached (client ∷ clients) hub = is_there (handle_in client hub) + reached clients hub

copies_same :
    (handle : ℕ) (clients : List ℕ) (hub hub' : Hub)
    → ((client : ℕ) → handle_in client hub' ≡ handle_in client hub)
    → copies handle clients hub' ≡ copies handle clients hub
copies_same handle [] hub hub' h = refl
copies_same handle (client ∷ clients) hub hub' h =
    ap₂ (λ o n. is_at handle o + n) (h client) (copies_same handle clients hub hub' h)

reached_same :
    (clients : List ℕ) (hub hub' : Hub)
    → ((client : ℕ) → handle_in client hub' ≡ handle_in client hub)
    → reached clients hub' ≡ reached clients hub
reached_same [] hub hub' h = refl
reached_same (client ∷ clients) hub hub' h =
    ap₂ (λ o n. is_there o + n) (h client) (reached_same clients hub hub' h)

-- What the loop has done for some subscribers.
pub record Delivers (frame : Bytes) (subscribers : List ℕ) (hub : Hub) (recipients : ℕ) (hub' : Hub)
    : Type 0 where
  pub counted : recipients ≡ reached subscribers hub
  pub queued :
      (handle : ℕ)
      → frames_at handle hub'
        ≡ frames_at handle hub ++ replicate (copies handle subscribers hub) frame

Delivers-forget :
    (frame channel : Bytes) (client : ℕ) (subscribers : List ℕ) (hub : Hub) (recipients : ℕ)
    (hub' : Hub)
    → handle_in client hub ≡ none
    → Delivers frame subscribers (forget client channel hub) recipients hub'
    → Delivers frame (client ∷ subscribers) hub (0 + recipients) hub'
Delivers-forget frame channel client subscribers hub recipients hub' e d =
    let same = λ (other : ℕ). handle_in-forget client other channel hub e in
    record {
      counted = omega (
        arith,
        d.counted,
        reached_same subscribers hub (forget client channel hub) same,
        ap is_there e,
      );
      queued = λ handle.
          d.queued handle
          ∙ ap (λ (n : ℕ). frames_at handle hub ++ replicate n frame)
              (omega (
                arith,
                copies_same handle subscribers hub (forget client channel hub) same,
                ap (is_at handle) e,
              ));
    }

Delivers-insert :
    (frame : Bytes) (client handle : ℕ) (subscribers : List ℕ) (hub : Hub) (recipients : ℕ)
    (hub' : Hub) (before after : PubSubSession)
    → find_session client hub ≡ alive handle before
    → after.pending_frames ≡ before.pending_frames ++ frame ∷ []
    → Delivers frame subscribers
        (record hub { sessions = insert handle after hub.sessions })
        recipients
        hub'
    → Delivers frame (client ∷ subscribers) hub (1 + recipients) hub'
Delivers-insert frame client handle subscribers hub recipients hub' before after e q d = record {
  counted = omega (arith, d.counted, reached_same subscribers hub new same, ap is_there there);
  queued = λ other.
      d.queued other
      ∙ ap (λ (n : ℕ). frames_at other new ++ replicate n frame)
          (copies_same other subscribers hub new same)
      ∙ by_handle other (Bool-cases (handle == other));
}
  where
    new : Hub
    new = record hub { sessions = insert handle after hub.sessions }

    there : handle_in client hub ≡ some handle
    there = unfold handle_in in rw e refl

    found : find handle hub.sessions ≡ some before
    found = find_session-alive client handle before hub e

    same : (other : ℕ) → handle_in other new ≡ handle_in other hub
    same other = handle_in-insert handle other before after hub found

    by_handle :
        (other : ℕ)
        → ((handle == other) ≡ true) ⊎ ((handle == other) ≡ false)
        → frames_at other new ++ replicate (copies other subscribers hub) frame
          ≡ frames_at other hub ++ replicate (copies other (client ∷ subscribers) hub) frame
    by_handle other (inl b) =
        let n = copies other subscribers hub in
        let here : frames_at other new ≡ after.pending_frames =
          ap frames_of (find-insert handle other after hub.sessions) ∙ rw b refl in
        let was : frames_at other hub ≡ before.pending_frames =
          ap (λ h. frames_at h hub) (sym ((==_iff handle other).0 b)) ∙ ap frames_of found in
        let one : is_at other (handle_in client hub) ≡ 1 = ap (is_at other) there ∙ rw b refl in
        let sum : suc n ≡ is_at other (handle_in client hub) + n = omega (arith, one) in
        ap (λ (fs : List Bytes). fs ++ replicate n frame) (here ∙ q)
        ∙ append_assoc before.pending_frames (frame ∷ []) (replicate n frame)
        ∙ ap₂ (λ (fs : List Bytes) (m : ℕ). fs ++ replicate m frame) (sym was) sum
    by_handle other (inr b) =
        let n = copies other subscribers hub in
        let none_here : is_at other (handle_in client hub) ≡ 0 =
          ap (is_at other) there ∙ rw b refl in
        let sum : n ≡ is_at other (handle_in client hub) + n = omega (arith, none_here) in
        let here : frames_at other new ≡ frames_at other hub =
          ap frames_of (find-insert handle other after hub.sessions) ∙ rw b refl in
        ap₂ (λ (fs : List Bytes) (m : ℕ). fs ++ replicate m frame) here sum

abbrev DeliversBy : Bytes → List ℕ → Hub → ℕ × List ℕ × Hub → Type 0
DeliversBy frame subscribers hub (recipients, kept, hub') =
    Delivers frame subscribers hub recipients hub'

publish_all-Delivers :
    (calls : ℕ → Call) (channel frame : Bytes) (subscribers : List ℕ) (hub : Hub)
    → ((client : ℕ) → Succeeds (calls client).end)
    → DeliversBy frame subscribers hub (publish_all calls channel frame subscribers hub)
unfolding publish_all
publish_all-Delivers calls channel frame [] hub h = record {
  counted = refl;
  queued = λ handle. sym (append-nil (frames_at handle hub));
}
publish_all-Delivers calls channel frame (client ∷ subscribers) hub h =
    by_found (find_session client hub) refl
      (λ hub'. publish_all-Delivers calls channel frame subscribers hub' h)
  where
    Later : Type 0
    Later =
        (hub' : Hub)
        → DeliversBy frame subscribers hub' (publish_all calls channel frame subscribers hub')

    gone :
        (found : Found)
        → find_session client hub ≡ found
        → handle_of found ≡ none
        → handle_in client hub ≡ none
    gone found e p = unfold handle_in in rw e p

    by_queued :
        (handle : ℕ) (before : PubSubSession) (queued : Expected Unit × PubSubSession)
        → find_session client hub ≡ alive handle before
        → QueuedBehind frame before queued
        → Later
        → Delivers frame
            (client ∷ subscribers)
            hub
            ((delivered handle queued hub).0
              + (publish_all calls channel frame subscribers (delivered handle queued hub).1).0)
            (publish_all calls channel frame subscribers (delivered handle queued hub).1).2
    by_queued handle before (expected done, after) e q later =
        Delivers-insert frame client handle subscribers hub _ _ before after e q (later _)
    by_queued handle before (unexpected reason, after) e q later = absurd q

    by_found :
        (found : Found)
        → find_session client hub ≡ found
        → Later
        → DeliversBy frame (client ∷ subscribers) hub (
            let (received, kept, hub') =
              publish_found (calls client) client channel frame found hub in
            let (recipients, others, hub'') = publish_all calls channel frame subscribers hub' in
            (received + recipients, kept ++ others, hub''))
    by_found unknown e later =
        Delivers-forget frame channel client subscribers hub _ _ (gone unknown e refl) (later _)
    by_found expired e later =
        Delivers-forget frame channel client subscribers hub _ _ (gone expired e refl) (later _)
    by_found (alive handle before) e later =
        by_queued handle before (enqueue (calls client) frame before) e
          (enqueue-QueuedBehind (calls client) frame before (h client)) later

-- PUBLISH replies how many subscribers of the channel have a session that is alive, and queues the
-- message at each of their sessions behind the frames that wait there, once for each such subscriber;
-- no other session changes its frames. No call on a descriptor fails.
pub publish-delivers :
    (calls : ℕ → Call) (channel message : Bytes) (subscribers : List ℕ) (hub : Hub)
    → ((client : ℕ) → Succeeds (calls client).end)
    → find channel hub.channel_subscribers ≡ some subscribers
    → let (reply, hub') = publish calls (codes "PUBLISH" ∷ channel ∷ message ∷ []) hub in
      (reply ≡ integer (pos (reached subscribers hub)))
      × ((handle : ℕ)
          → frames_at handle hub'
            ≡ frames_at handle hub
              ++ replicate
                  (copies handle subscribers hub)
                  (serialize_response (array (codes "message" ∷ channel ∷ message ∷ []))))
unfolding publish
publish-delivers calls channel message subscribers hub h e =
    let d =
      publish_all-Delivers calls channel
        (serialize_response (array (codes "message" ∷ channel ∷ message ∷ []))) subscribers hub h in
    rw e (ap (λ n. integer (pos n)) d.counted, d.queued)
