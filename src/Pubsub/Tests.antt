-- ===== src/Pubsub/Tests.antt =====
-- A frame that is queued while its connection waits.
use codecrafters_redis_cpp.Prelude.{refl, true, [], ◌∷◌, codes}
use codecrafters_redis_cpp.Pubsub.{succeeded, Call, notify, enqueue}
use codecrafters_redis_cpp.Pubsub.Wakeup.{
  Connection, opened, queue, Reachable, start, step, Awake, Reachable-Awake,
}

abbrev call : Call
call = record { interruptions = 1; end = succeeded }

abbrev notified : Connection
notified = record opened {
  session = record { pending_frames = codes "f" ∷ []; readable = true };
  queued = codes "f" ∷ [];
}

notified-Reachable : Reachable notified
notified-Reachable =
    step opened notified start
      (queue opened call (codes "f") notified.session (λ e. cc) (unfold enqueue notify in refl))

Reachable-Awake_example : Awake notified
Reachable-Awake_example = Reachable-Awake notified notified-Reachable
