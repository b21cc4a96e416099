-- ===== src/Processor/Departure.antt =====
-- src/command_processor.cpp: `process_client_unregistration`, by which the worker forgets a client.
pub mod Gone
mod Tests
use codecrafters_redis_cpp.Prelude.{ℕ, List, [], ◌∷◌, ◌++◌, ◌==◌}
use codecrafters_redis_cpp.Prelude.Map.{Map, nat_eq, erase}
use codecrafters_redis_cpp.Resp.Reply.{no_response}
use codecrafters_redis_cpp.Processor.Deadlines.{
  PendingListPop, PendingStreamRead, PendingWait, Queues, Answers, answer_if,
}
use codecrafters_redis_cpp.Processor.Subscriptions.{unregister_client}
use codecrafters_redis_cpp.Processor.Commands.{Processor}

-- The worker with its queues of clients that wait and the offsets that replicas acknowledged.
pub record Worker : Type 0 where
  pub processor : Processor
  pub queues : Queues
  pub replica_acknowledged_offsets : Map ℕ ℕ

-- The lambda `cancel`; `client_of` is `pending->task.client_id`.
unfoldable pub cancel : {A : Type 0} → (A → ℕ) → ℕ → List A → Answers × List A
cancel client_of client [] = ([], [])
cancel client_of client (pending ∷ queue) =
    answer_if (client_of pending == client) (client_of pending, no_response) pending
      (cancel client_of client queue)

unfoldable pub cancel_pending_commands : ℕ → Queues → Answers × Queues
cancel_pending_commands client queues =
    let (list_pops, list_pops') =
      cancel (λ (p : PendingListPop). p.client) client queues.list_pops in
    let (reads, reads') = cancel (λ (p : PendingStreamRead). p.client) client queues.stream_reads in
    let (waits, waits') = cancel (λ (p : PendingWait). p.client) client queues.waits in
    (
      list_pops ++ reads ++ waits,
      record { list_pops = list_pops'; stream_reads = reads'; waits = waits' },
    )

-- The worker that is left, with the answers that the waiting commands got.
unfoldable pub process_client_unregistration : ℕ → Worker → Answers × Worker
process_client_unregistration client worker =
    let (answers, queues') = cancel_pending_commands client worker.queues in
    (
      answers,
      record {
        processor = record worker.processor {
          hub = unregister_client client worker.processor.hub;
          core = record worker.processor.core {
            transactions = erase client worker.processor.core.transactions;
            watched_keys = erase client worker.processor.core.watched_keys;
            client_write_offsets = erase client worker.processor.core.client_write_offsets;
          };
        };
        queues = queues';
        replica_acknowledged_offsets = erase client worker.replica_acknowledged_offsets;
      },
    )
