-- ===== src/Processor/Deadlines/Sleep.antt =====
-- How long the worker of src/command_processor.cpp may sleep.
use codecrafters_redis_cpp.Prelude.{ℕ, ◌≡◌, refl, false, Option, none, some, List, [], ◌∷◌, arith}
use codecrafters_redis_cpp.Prelude.Int.{ℤ, pos, negsuc}
use codecrafters_redis_cpp.Database.{has_expired}
use codecrafters_redis_cpp.Processor.Deadlines.{
  PendingListPop, PendingStreamRead, PendingWait, Queues, expire_pending_list_pops,
  expire_pending_stream_reads, expire_pending_waits, sooner, next_list_pop, next_stream_read,
  next_wait, next_pending_deadline,
}

-- When the sooner of two deadlines has not passed, neither has.
sooner_lem :
    (now : ℕ) (next deadline : Option ℤ)
    → has_expired now (sooner next deadline) ≡ false
    → (has_expired now next ≡ false) × (has_expired now deadline ≡ false)
sooner_lem now next none h = (h, refl)
sooner_lem now none (some deadline) h = (refl, h)
sooner_lem now (some (pos a)) (some (pos b)) h = ground arith
sooner_lem now (some (pos a)) (some (negsuc b)) h = ground arith
sooner_lem now (some (negsuc a)) (some (pos b)) h = ground arith
sooner_lem now (some (negsuc a)) (some (negsuc b)) h = ground arith

next_list_pop_lem :
    (now : ℕ) (next : Option ℤ) (queue : List PendingListPop)
    → has_expired now (next_list_pop next queue) ≡ false
    → (has_expired now next ≡ false) × (expire_pending_list_pops now queue ≡ ([], queue))
unfolding expire_pending_list_pops
next_list_pop_lem now next [] h = (h, refl)
next_list_pop_lem now next (pending ∷ queue) h =
    let (first, rest) = next_list_pop_lem now (sooner next pending.deadline) queue h in
    let (before, waits) = sooner_lem now next pending.deadline first in
    (before, rw (waits, rest) refl)

next_stream_read_lem :
    (now : ℕ) (next : Option ℤ) (queue : List PendingStreamRead)
    → has_expired now (next_stream_read next queue) ≡ false
    → (has_expired now next ≡ false) × (expire_pending_stream_reads now queue ≡ ([], queue))
unfolding expire_pending_stream_reads
next_stream_read_lem now next [] h = (h, refl)
next_stream_read_lem now next (pending ∷ queue) h =
    let (first, rest) = next_stream_read_lem now (sooner next pending.deadline) queue h in
    let (before, waits) = sooner_lem now next pending.deadline first in
    (before, rw (waits, rest) refl)

next_wait_lem :
    (now : ℕ) (next : Option ℤ) (queue : List PendingWait)
    → has_expired now (next_wait next queue) ≡ false
    → (has_expired now next ≡ false)
      × ((acknowledged : ℕ → ℕ) → expire_pending_waits acknowledged now queue ≡ ([], queue))
unfolding expire_pending_waits
next_wait_lem now next [] h = (h, λ acknowledged. refl)
next_wait_lem now next (pending ∷ queue) h =
    let (first, rest) = next_wait_lem now (sooner next pending.deadline) queue h in
    let (before, waits) = sooner_lem now next pending.deadline first in
    (before, λ acknowledged. rw (waits, rest acknowledged) refl)

-- The worker may sleep until `next_pending_deadline`: while that has not passed, no client of the
-- three queues is due, and expiring them answers nobody and leaves every queue as it is.
pub next_pending_deadline_lem :
    (now : ℕ) (acknowledged : ℕ → ℕ) (queues : Queues)
    → has_expired now (next_pending_deadline queues) ≡ false
    → (expire_pending_list_pops now queues.list_pops ≡ ([], queues.list_pops))
      × (expire_pending_stream_reads now queues.stream_reads ≡ ([], queues.stream_reads))
      × (expire_pending_waits acknowledged now queues.waits ≡ ([], queues.waits))
unfolding next_pending_deadline
next_pending_deadline_lem now acknowledged queues h =
    let (h', waits) = next_wait_lem now _ queues.waits h in
    let (h'', reads) = next_stream_read_lem now _ queues.stream_reads h' in
    let (start, pops) = next_list_pop_lem now none queues.list_pops h'' in
    (pops, reads, waits acknowledged)

-- The end of a turn of the worker's loop. Each of the three functions reads the clock for itself.
abbrev pub expire_all : (ℕ → ℕ) → ℕ → ℕ → ℕ → Queues → Queues
expire_all acknowledged now now' now'' queues = record {
  list_pops = (expire_pending_list_pops now queues.list_pops).1;
  stream_reads = (expire_pending_stream_reads now' queues.stream_reads).1;
  waits = (expire_pending_waits acknowledged now'' queues.waits).1;
}
