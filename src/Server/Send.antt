-- ===== src/Server/Send.antt =====
-- server.c: `server_send`, which puts a metric in the queue of its server, or of a server that backs
-- it up, or refuses it for now. Queues are told apart by their addresses. The other threads that
-- work on the queues and the counters are left out: between two calls they may do anything that
-- keeps the queues valid.
pub mod Account
pub mod Stall
use carbon_c_relay.Prelude.{
  ℕ, ◌+◌, ◌*◌, ◌%◌, ◌^◌, Bool, true, false, not, ◌&&◌, ◌||◌, Option, List, [], ◌∷◌, if◌then◌else◌,
  ◌==◌, ltb, length,
}
use carbon_c_relay.Queue.{Queue, queue_enqueue, queue_free}

-- The loop of `server_failed` over the `failure` counts of the connections.
unfoldable pub failed_from : ℕ → List ℕ → ℕ
failed_from min_failure [] = min_failure
failed_from min_failure (failure ∷ failures) =
    let rest =
      failed_from (if (min_failure == 0) || ltb min_failure failure then failure else min_failure)
        failures in
    if failure == 0 then 0 else rest

unfoldable pub server_failed : List ℕ → Bool
unfolding failed_from
server_failed failures = not (failed_from 0 failures == 0)

-- What `server_send` reads of a secondary: the `failure` counts of its connections, and whether
-- `keep_running` is 1.
pub record Peer : Type 0 where
  pub id : ℕ
  pub failures : List ℕ
  pub keep_running : Bool
  pub queue : ℕ

-- What it reads and writes of the server. The counters are a `size_t`, and `stallseq` is a byte.
pub record Sender : Type 0 where
  pub id : ℕ
  pub failures : List ℕ
  pub queue : ℕ
  pub bsize : ℕ
  pub qfree_threshold : ℕ
  pub maxstalls : ℕ
  pub secondaries : List Peer
  pub stallseq : ℕ
  pub dropped : ℕ
  pub stalls : ℕ
  pub requeue : ℕ

abbrev pub incr : ℕ → ℕ
incr n = (n + 1) % 2 ^ 64

-- `!server_failed(s->secondaries[i])` for one of them
unfoldable pub any_alive : List Peer → Bool
unfolding server_failed
any_alive [] = false
any_alive (p ∷ ps) = not (server_failed p.failures) || any_alive ps

-- `failure`, `force`, or a server that has stalled long enough
unfoldable pub gives_up : Sender → Bool → Bool
unfolding any_alive server_failed
gives_up s force =
    (server_failed s.failures && not (not force && any_alive s.secondaries))
    || (force || (s.stallseq == s.maxstalls))

-- the server keeps the metric in its own queue
unfoldable pub is_stuck : Sender → Bool → ℕ → Bool
unfolding server_failed
is_stuck s force qfree =
    not force
    && (ltb 0 (length s.secondaries) && (server_failed s.failures || ltb qfree s.qfree_threshold))

-- the result of `server_send`, the server and the queues behind it, and the pointers freed
pub record Sent (A : Type 0) : Type 0 where
  pub accepted : Bool
  pub sender : Sender
  pub queues : ℕ → Queue A
  pub freed : List (Option A)

module _ {A : Type 0} where
  -- The loop over the secondaries: the queue with the most room, if it has more than `maxqfree`.
  unfoldable pub roomiest : (ℕ → Queue A) → Sender → List Peer → ℕ → ℕ → ℕ
  unfolding queue_free server_failed
  roomiest queues s [] squeue maxqfree = squeue
  roomiest queues s (p ∷ ps) squeue maxqfree =
      let sqfree = queue_free (queues p.queue) in
      let (squeue', maxqfree') =
        if (not (p.id == s.id) && (not (server_failed s.failures) && p.keep_running))
          && ltb maxqfree sqfree
        then (p.queue, sqfree)
        else (squeue, maxqfree) in
      roomiest queues s ps squeue' maxqfree'

  abbrev pub update : (ℕ → Queue A) → ℕ → Queue A → ℕ → Queue A
  update queues k q = λ j. if j == k then q else queues j

  -- `queue_enqueue`, and a result of 1
  unfoldable pub enqueue_at : (ℕ → Queue A) → ℕ → Option A → Sender → Sent A
  unfolding queue_enqueue
  enqueue_at queues k d s =
      let (q, freed) = queue_enqueue (queues k) d in
      record { accepted = true; sender = s; queues = update queues k q; freed = freed }

  -- The part behind the choice of a secondary.
  unfoldable pub send_own : (ℕ → Queue A) → Sender → Option A → Bool → Sent A
  unfolding enqueue_at gives_up queue_free
  send_own queues s d force =
      if queue_free (queues s.queue) == 0
      then if gives_up s force
        then enqueue_at queues s.queue d (record s { dropped = incr s.dropped })
        else record {
          accepted = false;
          sender = record s { stallseq = (s.stallseq + 1) % 2 ^ 8; stalls = incr s.stalls };
          queues = queues;
          freed = [];
        }
      else enqueue_at queues s.queue d (record s { stallseq = 0 })

  -- the queue that takes the metric, as far as the first part of the code decides it
  unfoldable pub chosen_queue : (ℕ → Queue A) → Sender → Bool → ℕ
  unfolding roomiest is_stuck queue_free
  chosen_queue queues s force =
      let qfree = queue_free (queues s.queue) in
      if is_stuck s force qfree
      then roomiest queues s s.secondaries s.queue ((qfree + 4 * s.bsize) % 2 ^ 64)
      else s.queue

  unfoldable pub server_send : (ℕ → Queue A) → Sender → Option A → Bool → Sent A
  unfolding chosen_queue send_own enqueue_at server_failed
  server_send queues s d force =
      let squeue = chosen_queue queues s force in
      if not (squeue == s.queue)
      then enqueue_at queues squeue d
          (if server_failed s.failures then s else record s { requeue = incr s.requeue })
      else send_own queues s d force
