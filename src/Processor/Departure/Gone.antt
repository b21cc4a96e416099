-- ===== src/Processor/Departure/Gone.antt =====
-- What `process_client_unregistration` of src/command_processor.cpp leaves of the client, and of the others.
use codecrafters_redis_cpp.Prelude.{
  ℕ, ◌≡◌, refl, ap, ap₂, Bool, Bool-cases, inl, inr, ◌&&◌, not, none, List, [], ◌∷◌, ◌++◌, arith,
  ◌==◌, ==_iff, if◌then◌else◌, Bytes, map,
}
use codecrafters_redis_cpp.Prelude.Map.{Map, bytes_eq, nat_eq, find, erase, find-erase}
use codecrafters_redis_cpp.Resp.Reply.{no_response}
use codecrafters_redis_cpp.Processor.Deadlines.{
  PendingListPop, PendingStreamRead, PendingWait, Queues, Answers,
}
use codecrafters_redis_cpp.Processor.Subscriptions.{Hub, unregister_client}
use codecrafters_redis_cpp.Processor.Subscriptions.Sets.{member, set_of}
use codecrafters_redis_cpp.Processor.Subscriptions.Consistent.{IsConsistent, leave_all-member}
use codecrafters_redis_cpp.Processor.Departure.{
  Worker, cancel, cancel_pending_commands, process_client_unregistration,
}

-- The client has no entry any more, and every other has its own.
abbrev pub Forgets : {V : Type 0} → ℕ → Map ℕ V → Map ℕ V → Type 0
Forgets client before after =
    (other : ℕ) → find other after ≡ (if client == other then none else find other before)

-- Those of a queue that pass the test, in their order.
unfoldable pub those : {A : Type 0} → (A → Bool) → List A → List A
those passes [] = []
those passes (pending ∷ queue) =
    let rest = those passes queue in if passes pending then pending ∷ rest else rest

abbrev nothing_for : {A : Type 0} → (A → ℕ) → ℕ → List A → Answers
nothing_for client_of client queue =
    map (λ pending. (client, no_response)) (those (λ pending. client_of pending == client) queue)

abbrev others_of : {A : Type 0} → (A → ℕ) → ℕ → List A → List A
others_of client_of client queue = those (λ pending. not (client_of pending == client)) queue

-- The commands of the client are answered with nothing, in their order, and the others wait on in
-- theirs.
abbrev pub Cancels : {A : Type 0} → (A → ℕ) → ℕ → List A → Answers × List A → Type 0
Cancels client_of client queue (answers, kept) =
    (answers ≡ nothing_for client_of client queue) × (kept ≡ others_of client_of client queue)

cancel-Cancels :
    {A : Type 0} (client_of : A → ℕ) (client : ℕ) (queue : List A)
    → Cancels client_of client queue (cancel client_of client queue)
unfolding cancel those
cancel-Cancels client_of client [] = (refl, refl)
cancel-Cancels client_of client (pending ∷ queue) =
    let (answers, kept) = cancel-Cancels client_of client queue in
    elim (Bool-cases (client_of pending == client)) [
      | inl own ↦ rw own (
        ap₂ (λ (c : ℕ) (rest : Answers). (c, no_response) ∷ rest)
            ((==_iff (client_of pending) client).0 own) answers,
        kept,
      )
      | inr other ↦ rw other (answers, ap (λ rest. pending ∷ rest) kept)
    ]

-- The commands of the client are answered with nothing, and the others wait on.
pub record CancelsAll (client : ℕ) (before : Queues) (answers : Answers) (after : Queues)
    : Type 0 where
  pub answered :
      answers
      ≡ nothing_for (λ (p : PendingListPop). p.client) client before.list_pops
        ++ nothing_for (λ (p : PendingStreamRead). p.client) client before.stream_reads
        ++ nothing_for (λ (p : PendingWait). p.client) client before.waits
  pub list_pops_wait :
      after.list_pops ≡ others_of (λ (p : PendingListPop). p.client) client before.list_pops
  pub stream_reads_wait :
      after.stream_reads
      ≡ others_of (λ (p : PendingStreamRead). p.client) client before.stream_reads
  pub waits_wait : after.waits ≡ others_of (λ (p : PendingWait). p.client) client before.waits

-- Nothing is left of the client, and all is left of the others.
pub record Gone (client : ℕ) (before after : Worker) : Type 0 where
  pub registered : Forgets client before.processor.hub.clients after.processor.hub.clients
  pub subscriptions :
      Forgets client before.processor.hub.client_subscriptions
        after.processor.hub.client_subscriptions
  pub subscribers :
      (other : ℕ) (channel : Bytes)
      → member other (set_of channel after.processor.hub.channel_subscribers) ≡ (
          member other (set_of channel before.processor.hub.channel_subscribers)
          && not (client == other))
  pub transactions :
      Forgets client before.processor.core.transactions after.processor.core.transactions
  pub watched_keys :
      Forgets client before.processor.core.watched_keys after.processor.core.watched_keys
  pub write_offsets :
      Forgets client before.processor.core.client_write_offsets
        after.processor.core.client_write_offsets
  pub acknowledged_offsets :
      Forgets client before.replica_acknowledged_offsets after.replica_acknowledged_offsets

erase-Forgets : {V : Type 0} (client : ℕ) (m : Map ℕ V) → Forgets client m (erase client m)
erase-Forgets client m other = find-erase client other m

leave_all-Gone :
    (client other : ℕ) (channel : Bytes) (hub : Hub)
    → IsConsistent hub
    → member other (set_of channel (unregister_client client hub).channel_subscribers)
      ≡ (member other (set_of channel hub.channel_subscribers) && not (client == other))
unfolding unregister_client
leave_all-Gone client other channel hub h = ground (
  arith,
  ==_iff client other,
  h client channel,
  leave_all-member client other (set_of client hub.client_subscriptions) channel
      hub.channel_subscribers,
)

unregistered-Gone :
    (client : ℕ) (worker : Worker)
    → IsConsistent worker.processor.hub
    → Gone client worker (process_client_unregistration client worker).1
unfolding process_client_unregistration unregister_client
unregistered-Gone client worker h = record {
  registered = erase-Forgets client _;
  subscriptions = erase-Forgets client _;
  subscribers = λ other channel. leave_all-Gone client other channel worker.processor.hub h;
  transactions = erase-Forgets client _;
  watched_keys = erase-Forgets client _;
  write_offsets = erase-Forgets client _;
  acknowledged_offsets = erase-Forgets client _;
}

-- Unregistering a client, where the two maps of subscriptions agree: every map that is kept by clients
-- forgets this one and keeps the entries of the others, no channel has the client among its subscribers
-- any more and each keeps its others; in the three queues the client's commands are answered with
-- nothing, once each and in their order, and the commands of the others wait on in theirs.
pub process_client_unregistration-Gone :
    (client : ℕ) (worker : Worker)
    → IsConsistent worker.processor.hub
    → let (answers, worker') = process_client_unregistration client worker in
      Gone client worker worker' × CancelsAll client worker.queues answers worker'.queues
unfolding process_client_unregistration cancel_pending_commands
process_client_unregistration-Gone client worker h =
    let queues = worker.queues in
    let list_pops = cancel-Cancels (λ (p : PendingListPop). p.client) client queues.list_pops in
    let reads = cancel-Cancels (λ (p : PendingStreamRead). p.client) client queues.stream_reads in
    let waits = cancel-Cancels (λ (p : PendingWait). p.client) client queues.waits in
    (
      unregistered-Gone client worker h,
      record {
        answered =
            ap₂ (λ (xs ys : Answers). xs ++ ys)
              (ap₂ (λ (xs ys : Answers). xs ++ ys) list_pops.0 reads.0) waits.0;
        list_pops_wait = list_pops.1;
        stream_reads_wait = reads.1;
        waits_wait = waits.1;
      },
    )
