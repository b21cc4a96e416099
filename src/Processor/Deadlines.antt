-- ===== src/Processor/Deadlines.antt =====
-- src/command_processor.cpp: the deadlines of the clients that wait in BLPOP, XREAD and WAIT.
pub mod Sleep
mod Tests
use codecrafters_redis_cpp.Prelude.{
  ℕ, Bool, true, false, not, Option, none, some, List, [], ◌∷◌, if◌then◌else◌, Bytes,
}
use codecrafters_redis_cpp.Prelude.Int.{ℤ, ltb_ℤ, to_int64}
use codecrafters_redis_cpp.Streams.{ReadRequest}
use codecrafters_redis_cpp.Resp.Reply.{Response, null_array, integer}
use codecrafters_redis_cpp.Database.{has_expired}

-- Each stands in the queue with the client of its task, which is the one that is answered.
pub record PendingListPop : Type 0 where
  pub client : ℕ
  pub key : Bytes
  pub deadline : Option ℤ

pub record PendingStreamRead : Type 0 where
  pub client : ℕ
  pub requests : List ReadRequest
  pub deadline : Option ℤ

pub record PendingWait : Type 0 where
  pub client : ℕ
  pub required_replicas : ℕ
  pub target_offset : ℕ
  pub deadline : Option ℤ

pub record Queues : Type 0 where
  pub list_pops : List PendingListPop
  pub stream_reads : List PendingStreamRead
  pub waits : List PendingWait

-- The answers, in the order in which they are given.
abbrev pub Answers : Type 0
Answers = List (ℕ × Response)

abbrev pub answer_if : {A : Type 0} → Bool → ℕ × Response → A → Answers × List A → Answers × List A
answer_if true answer pending (answers, kept) = (answer ∷ answers, kept)
answer_if false answer pending (answers, kept) = (answers, pending ∷ kept)

-- `!deadline || now < *deadline` keeps a client waiting, and `has_expired` is its negation.
unfoldable pub expire_pending_list_pops : ℕ → List PendingListPop → Answers × List PendingListPop
expire_pending_list_pops now [] = ([], [])
expire_pending_list_pops now (pending ∷ queue) =
    answer_if (has_expired now pending.deadline) (pending.client, null_array) pending
      (expire_pending_list_pops now queue)

unfoldable pub expire_pending_stream_reads :
    ℕ → List PendingStreamRead → Answers × List PendingStreamRead
expire_pending_stream_reads now [] = ([], [])
expire_pending_stream_reads now (pending ∷ queue) =
    answer_if (has_expired now pending.deadline) (pending.client, null_array) pending
      (expire_pending_stream_reads now queue)

-- `acknowledged` is `count_acknowledged_replicas`.
unfoldable pub expire_pending_waits : (ℕ → ℕ) → ℕ → List PendingWait → Answers × List PendingWait
expire_pending_waits acknowledged now [] = ([], [])
expire_pending_waits acknowledged now (pending ∷ queue) =
    answer_if (has_expired now pending.deadline)
      (pending.client, integer (to_int64 (acknowledged pending.target_offset))) pending
      (expire_pending_waits acknowledged now queue)

-- One round of each loop of `next_pending_deadline`.
abbrev pub sooner : Option ℤ → Option ℤ → Option ℤ
sooner next none = next
sooner none (some deadline) = some deadline
sooner (some next) (some deadline) = if ltb_ℤ deadline next then some deadline else some next

abbrev pub next_list_pop : Option ℤ → List PendingListPop → Option ℤ
next_list_pop next [] = next
next_list_pop next (pending ∷ queue) = next_list_pop (sooner next pending.deadline) queue

abbrev pub next_stream_read : Option ℤ → List PendingStreamRead → Option ℤ
next_stream_read next [] = next
next_stream_read next (pending ∷ queue) = next_stream_read (sooner next pending.deadline) queue

abbrev pub next_wait : Option ℤ → List PendingWait → Option ℤ
next_wait next [] = next
next_wait next (pending ∷ queue) = next_wait (sooner next pending.deadline) queue

unfoldable pub next_pending_deadline : Queues → Option ℤ
next_pending_deadline queues =
    next_wait (next_stream_read (next_list_pop none queues.list_pops) queues.stream_reads)
      queues.waits
