-- ===== src/Pubsub.antt =====
-- src/pubsub.hpp and src/pubsub.cpp: the frames that wait for a connection, and the descriptor by which
-- it is told. What write(2) and read(2) return is an argument.
pub mod Wakeup
mod Tests
use codecrafters_redis_cpp.Prelude.{
  ℕ, zero, suc, Bool, true, false, Option, none, some, List, [], ◌∷◌, ◌++◌, Bytes, codes,
}
use codecrafters_redis_cpp.Prelude.Expected.{Expected, expected, unexpected}

-- `_pending_frames`, by the payloads, and whether the counter of `_notification_fd` is above zero, so
-- that poll(2) reports it readable.
pub record PubSubSession : Type 0 where
  pub pending_frames : List Bytes
  pub readable : Bool

-- How a call on the descriptor ends, once it is no longer interrupted: it succeeds; it would block,
-- where write(2) finds the counter full and read(2) finds it at zero; or it fails, with a text.
pub data CallEnd : Type 0 where
  succeeded : CallEnd
  would_block : CallEnd
  failed : Bytes → CallEnd

-- A call that is interrupted a number of times, and then ends.
pub record Call : Type 0 where
  pub interruptions : ℕ
  pub end : CallEnd

abbrev pub notify_once : CallEnd → Bytes → PubSubSession → Expected Unit × PubSubSession
notify_once succeeded frame session = (
  expected tt,
  record session { pending_frames = session.pending_frames ++ frame ∷ []; readable = true },
)
notify_once would_block frame session =
    (expected tt, record session { pending_frames = session.pending_frames ++ frame ∷ [] })
notify_once (failed reason) frame session =
    (unexpected (codes "Failed to notify Pub/Sub connection: " ++ reason), session)

-- The loop of `enqueue`; a failure takes the frame back.
unfoldable pub notify : ℕ → CallEnd → Bytes → PubSubSession → Expected Unit × PubSubSession
notify zero end frame session = notify_once end frame session
notify (suc interruptions) end frame session = notify interruptions end frame session

abbrev pub enqueue_behind :
    List Bytes → Call → Bytes → PubSubSession → Expected Unit × PubSubSession
enqueue_behind [] call frame session = notify call.interruptions call.end frame session
enqueue_behind (first ∷ frames) call frame session =
    (expected tt, record session { pending_frames = (first ∷ frames) ++ frame ∷ [] })

-- Only the first frame that waits is notified.
unfoldable pub enqueue : Call → Bytes → PubSubSession → Expected Unit × PubSubSession
enqueue call frame session = enqueue_behind session.pending_frames call frame session

abbrev pub pop_first : List Bytes → PubSubSession → Option Bytes × PubSubSession
pop_first [] session = (none, session)
pop_first (frame ∷ frames) session = (some frame, record session { pending_frames = frames })

unfoldable pub pop_frame : PubSubSession → Option Bytes × PubSubSession
pop_frame session = pop_first session.pending_frames session

abbrev pub clear_once : CallEnd → PubSubSession → Expected Unit × PubSubSession
clear_once succeeded session = (expected tt, record session { readable = false })
clear_once would_block session = (expected tt, session)
clear_once (failed reason) session =
    (unexpected (codes "Failed to clear Pub/Sub notification: " ++ reason), session)

-- The loop of `clear_notification`
unfoldable pub clear : ℕ → CallEnd → PubSubSession → Expected Unit × PubSubSession
clear zero end session = clear_once end session
clear (suc interruptions) end session = clear interruptions end session

unfoldable pub clear_notification : Call → PubSubSession → Expected Unit × PubSubSession
clear_notification call session = clear call.interruptions call.end session
