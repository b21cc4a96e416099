-- ===== src/Processor/Deadlines/Tests.antt =====
-- Waiting clients at concrete times.
use codecrafters_redis_cpp.Prelude.{◌≡◌, refl, none, some, [], ◌∷◌, codes}
use codecrafters_redis_cpp.Prelude.Int.{pos}
use codecrafters_redis_cpp.Processor.Deadlines.{
  Queues, expire_pending_list_pops, expire_pending_stream_reads, expire_pending_waits,
  next_pending_deadline,
}
use codecrafters_redis_cpp.Processor.Deadlines.Sleep.{next_pending_deadline_lem}

abbrev queues : Queues
queues = record {
  list_pops =
      record { client = 1; key = codes "a"; deadline = some (pos 9) }
      ∷ record { client = 2; key = codes "a"; deadline = none }
      ∷ [];
  stream_reads = record { client = 3; requests = []; deadline = some (pos 8) } ∷ [];
  waits =
      record { client = 4; required_replicas = 2; target_offset = 7; deadline = some (pos 12) }
      ∷ [];
}

next_pending_deadline_lem_example :
    (expire_pending_list_pops 7 queues.list_pops ≡ ([], queues.list_pops))
    × (expire_pending_stream_reads 7 queues.stream_reads ≡ ([], queues.stream_reads))
    × (expire_pending_waits (λ offset. 1) 7 queues.waits ≡ ([], queues.waits))
unfolding next_pending_deadline
next_pending_deadline_lem_example = next_pending_deadline_lem 7 (λ offset. 1) queues refl
