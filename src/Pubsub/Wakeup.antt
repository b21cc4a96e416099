-- ===== src/Pubsub/Wakeup.antt =====
-- The worker that queues frames (src/command_processor.cpp) and the thread of a connection that sends
-- them (`send_pending_pubsub_frames` in src/server.cpp) take turns in any order; each call of
-- src/pubsub.cpp holds the lock.
use codecrafters_redis_cpp.Prelude.{
  ℕ, zero, suc, ◌≡◌, ◌≢◌, refl, ap, sym, subst, ◌∙◌, true, false, Option, none, some, List, [], ◌∷◌,
  ◌++◌, append_assoc, Bytes,
}
use codecrafters_redis_cpp.Prelude.Expected.{Expected, expected, unexpected}
use codecrafters_redis_cpp.Pubsub.{
  PubSubSession, CallEnd, succeeded, would_block, failed, Call, notify_once, notify, enqueue_behind,
  enqueue, pop_first, pop_frame, clear, clear_notification,
}

-- The connection waits in poll(2), or it takes frames until there is none.
pub data Phase : Type 0 where
  polling draining : Phase

-- A session with its connection; what was queued and what was sent so far.
pub record Connection : Type 0 where
  pub session : PubSubSession
  pub phase : Phase
  pub queued : List Bytes
  pub sent : List Bytes

abbrev pub opened : Connection
opened = record {
  session = record { pending_frames = []; readable = false };
  phase = polling;
  queued = [];
  sent = [];
}

-- write(2) on the descriptor would block only when its counter is full, so not zero.
abbrev pub Documented : Call → PubSubSession → Type 0
Documented call session = call.end ≡ would_block → session.readable ≡ true

-- A step of one of the two threads.
pub data StepTo : Connection → Connection → Type 0 where
  queue :
      (c : Connection) (call : Call) (frame : Bytes) (after : PubSubSession)
      → Documented call c.session
      → enqueue call frame c.session ≡ (expected tt, after)
      → StepTo c (record c { session = after; queued = c.queued ++ frame ∷ [] })
  refuse :
      (c : Connection) (call : Call) (frame reason : Bytes) (after : PubSubSession)
      → enqueue call frame c.session ≡ (unexpected reason, after)
      → StepTo c (record c { session = after })
  -- poll(2) has found the descriptor readable, or a command was answered with what is queued.
  wake :
      (c : Connection) (call : Call) (after : PubSubSession)
      → c.phase ≡ polling
      → clear_notification call c.session ≡ (expected tt, after)
      → StepTo c (record c { session = after; phase = draining })
  send :
      (c : Connection) (frame : Bytes) (after : PubSubSession)
      → c.phase ≡ draining
      → pop_frame c.session ≡ (some frame, after)
      → StepTo c (record c { session = after; sent = c.sent ++ frame ∷ [] })
  rest :
      (c : Connection) (after : PubSubSession)
      → c.phase ≡ draining
      → pop_frame c.session ≡ (none, after)
      → StepTo c (record c { session = after; phase = polling })

pub data Reachable : Connection → Type 0 where
  start : Reachable opened
  step : (c d : Connection) → Reachable c → StepTo c d → Reachable d

-- While the connection waits, frames that wait are notified; and frames are sent in the order in
-- which they were queued, none twice and none left out.
pub record Awake (c : Connection) : Type 0 where
  pub notified : c.phase ≡ polling → c.session.pending_frames ≢ [] → c.session.readable ≡ true
  pub in_order : c.sent ++ c.session.pending_frames ≡ c.queued

-- What `enqueue` does, by its result.
abbrev Queued : Call → Bytes → PubSubSession → Expected Unit × PubSubSession → Type 0
Queued call frame session (expected done, after) =
    (after.pending_frames ≡ session.pending_frames ++ frame ∷ [])
    × (Documented call session
        → (session.pending_frames ≢ [] → session.readable ≡ true)
        → after.readable ≡ true)
Queued call frame session (unexpected reason, after) = after ≡ session

notify-Queued :
    (n : ℕ) (call : Call) (frame : Bytes) (session : PubSubSession)
    → Queued call frame session (notify n call.end frame session)
unfolding notify
notify-Queued zero call frame session = by_end call.end refl
  where
    by_end :
        (end : CallEnd) → call.end ≡ end → Queued call frame session (notify_once end frame session)
    by_end succeeded e = (refl, λ d h. refl)
    by_end would_block e = (refl, λ d h. d e)
    by_end (failed reason) e = refl
notify-Queued (suc n) call frame session = notify-Queued n call frame session

enqueue-Queued :
    (call : Call) (frame : Bytes) (session : PubSubSession)
    → Queued call frame session (enqueue call frame session)
unfolding enqueue
enqueue-Queued call frame session = by_frames session.pending_frames refl
  where
    by_frames :
        (frames : List Bytes)
        → session.pending_frames ≡ frames
        → Queued call frame session (enqueue_behind frames call frame session)
    by_frames [] e = notify-Queued call.interruptions call frame session
    by_frames (first ∷ frames) e =
        (ap (λ (fs : List Bytes). fs ++ frame ∷ []) (sym e), λ d h. h (λ p. cc))

-- What `pop_frame` does, by its result.
abbrev Popped : PubSubSession → Option Bytes × PubSubSession → Type 0
Popped session (some frame, after) = frame ∷ after.pending_frames ≡ session.pending_frames
Popped session (none, after) = (session.pending_frames ≡ []) × (after.pending_frames ≡ [])

pop_frame-Popped : (session : PubSubSession) → Popped session (pop_frame session)
unfolding pop_frame
pop_frame-Popped session = by_frames session.pending_frames refl
  where
    by_frames :
        (frames : List Bytes)
        → session.pending_frames ≡ frames
        → Popped session (pop_first frames session)
    by_frames [] e = (e, e)
    by_frames (frame ∷ frames) e = sym e

-- Clearing the notification leaves the frames.
clear_keeps :
    (n : ℕ) (end : CallEnd) (session : PubSubSession)
    → (clear n end session).1.pending_frames ≡ session.pending_frames
unfolding clear
clear_keeps zero succeeded session = refl
clear_keeps zero would_block session = refl
clear_keeps zero (failed reason) session = refl
clear_keeps (suc n) end session = clear_keeps n end session

no_poll : draining ≢ polling
no_poll e = cc

step-Awake : (c d : Connection) → StepTo c d → Awake c → Awake d
unfolding clear_notification
step-Awake _ d (queue c call frame after documented e) h =
    let (frames, told) =
      subst (Queued call frame c.session) e (enqueue-Queued call frame c.session) in
    record {
      notified = λ p n. told documented (h.notified p);
      in_order =
          ap (λ (fs : List Bytes). c.sent ++ fs) frames
          ∙ sym (append_assoc c.sent c.session.pending_frames (frame ∷ []))
          ∙ ap (λ (fs : List Bytes). fs ++ frame ∷ []) h.in_order;
    }
step-Awake _ d (refuse c call frame reason after e) h =
    let same = subst (Queued call frame c.session) e (enqueue-Queued call frame c.session) in
    rw same (record { notified = h.notified; in_order = h.in_order })
step-Awake _ d (wake c call after p e) h = record {
  notified = λ q n. absurd (no_poll q);
  in_order =
      ap (λ (fs : List Bytes). c.sent ++ fs)
        (sym (ap (λ x. x.1.pending_frames) e) ∙ clear_keeps call.interruptions call.end c.session)
      ∙ h.in_order;
}
step-Awake _ d (send c frame after p e) h =
    let frames = subst (Popped c.session) e (pop_frame-Popped c.session) in
    record {
      notified = λ q n. absurd (no_poll (sym p ∙ q));
      in_order =
          append_assoc c.sent (frame ∷ []) after.pending_frames
          ∙ ap (λ (fs : List Bytes). c.sent ++ fs) frames
          ∙ h.in_order;
    }
step-Awake _ d (rest c after p e) h =
    let (before, none_left) = subst (Popped c.session) e (pop_frame-Popped c.session) in
    record {
      notified = λ q n. absurd (n none_left);
      in_order = ap (λ (fs : List Bytes). c.sent ++ fs) (none_left ∙ sym before) ∙ h.in_order;
    }

-- No wake-up is lost, and no frame: in every state that the worker and the thread of the connection can
-- reach by their steps in any order, while the thread waits in poll(2) and frames wait for it, the
-- descriptor is readable; and what was sent, with what waits behind it, is what was queued, in order.
-- write(2) is taken to block only on a counter that is not zero.
pub Reachable-Awake : (c : Connection) → Reachable c → Awake c
Reachable-Awake _ start = record { notified = λ p n. absurd (n refl); in_order = refl }
Reachable-Awake _ (step b c r s) = step-Awake b c s (Reachable-Awake b r)
