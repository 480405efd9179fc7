-- ===== src/Server/Send/Account.antt =====
-- What `server_send` does to the queues, and that it counts what it drops.
use carbon_c_relay.Prelude.{
  ℕ, ◌+◌, ◌*◌, ◌<◌, ◌≡◌, ◌≢◌, refl, Bool, true, not, ◌&&◌, Option, List, [], ◌∷◌, length, arith,
  if◌then◌else◌, ◌==◌, ltb, ◌%◌, ◌^◌, Bool-cases, ==_iff, ltb→lt, inl, inr, ◌⊎◌,
}
use carbon_c_relay.Queue.{Queue, queue_free, queue_enqueue}
use carbon_c_relay.Queue.Fifo
use carbon_c_relay.Queue.Inv.{IsValid, contents, queue_enqueue-IsValid, freed-queue_enqueue}
use carbon_c_relay.Queue.Refine.{queue_enqueue_refines}
use carbon_c_relay.Server.Send.{
  Peer, Sender, Sent, gives_up, enqueue_at, send_own, roomiest, chosen_queue, is_stuck, server_send,
  server_failed, incr,
}
use carbon_c_relay.Server.Send.Stall.{Refused, refused_lem}

and_right : (a : Bool) {b : Bool} → a && b ≡ true → b ≡ true
and_right a h = ground arith

module _ {A : Type 0} where
  -- An accepted call, which returns 1: one queue gets the metric at its end, giving up its oldest entry if it is
  -- full; the other queues are as before, all stay valid, and what is given up is counted.
  pub record Accepted (queues : ℕ → Queue A) (s : Sender) (d : Option A) (r : Sent A) : Type 0 where
    pub result : r.accepted ≡ true
    pub at : ℕ
    pub taken :
        (contents (r.queues at), r.freed) ≡ Fifo.enqueue (queues at).end (contents (queues at)) d
    pub others : (j : ℕ) → j ≢ at → r.queues j ≡ queues j
    pub counted : r.sender.dropped ≡ (s.dropped + length r.freed) % 2 ^ 64
    pub valid : (j : ℕ) → IsValid (r.queues j)

  counted_lem :
      (queues : ℕ → Queue A) (k : ℕ) (d : Option A) (s s' : Sender)
      → IsValid (queues k)
      → s.dropped < 2 ^ 64
      → s'.dropped ≡ (if queue_free (queues k) == 0 then incr s.dropped else s.dropped)
      → s'.dropped ≡ (s.dropped + length (queue_enqueue (queues k) d).1) % 2 ^ 64
  counted_lem queues k d s s' v small h = ground (arith, freed-queue_enqueue d v)

  enqueue_at-Accepted :
      (queues : ℕ → Queue A) (k : ℕ) (d : Option A) (s s' : Sender)
      → ((j : ℕ) → IsValid (queues j))
      → s.dropped < 2 ^ 64
      → s'.dropped ≡ (if queue_free (queues k) == 0 then incr s.dropped else s.dropped)
      → Accepted queues s d (enqueue_at queues k d s')
  unfolding enqueue_at
  enqueue_at-Accepted queues k d s s' v small h = record {
    result = refl;
    counted = counted_lem queues k d s s' (v k) small h;
    at = k;
    taken = rw ((==_iff k k).1 refl) (queue_enqueue_refines d (v k));
    others = λ j h. elim (Bool-cases (j == k)) [
      | inl same ↦ absurd (h ((==_iff j k).0 same))
      | inr other ↦ rw other refl
    ];
    valid = λ j. elim (Bool-cases (j == k)) [
      | inl same ↦ rw same (queue_enqueue-IsValid (queues k) d (v k))
      | inr other ↦ rw other (v j)
    ];
  }

  -- The queue that the loop over the secondaries chooses is the server's own, or it has room.
  roomiest_lem :
      (queues : ℕ → Queue A) (s : Sender) (ps : List Peer) (squeue maxqfree : ℕ)
      → (squeue ≡ s.queue) ⊎ (0 < queue_free (queues squeue))
      → let k = roomiest queues s ps squeue maxqfree in (k ≡ s.queue) ⊎ (0 < queue_free (queues k))
  unfolding roomiest
  roomiest_lem queues s [] squeue maxqfree h = h
  roomiest_lem queues s (p ∷ ps) squeue maxqfree h =
      elim (Bool-cases (
        (not (p.id == s.id) && (not (server_failed s.failures) && p.keep_running))
        && ltb maxqfree (queue_free (queues p.queue)))) [
          | inl better ↦ rw better (
              roomiest_lem queues s ps p.queue (queue_free (queues p.queue)) (
                inr (
                  omega
                    (arith, ltb→lt maxqfree (queue_free (queues p.queue)) (and_right _ better)))))
          | inr worse ↦ rw worse (roomiest_lem queues s ps squeue maxqfree h)
        ]

  -- A secondary takes the metric only where its queue has room.
  chosen_queue_lem :
      (queues : ℕ → Queue A) (s : Sender) (force : Bool)
      → let k = chosen_queue queues s force in (k ≡ s.queue) ⊎ (0 < queue_free (queues k))
  unfolding chosen_queue
  chosen_queue_lem queues s force =
      elim (Bool-cases (is_stuck s force (queue_free (queues s.queue)))) [
        | inl stuck ↦ rw stuck (
            roomiest_lem queues s s.secondaries s.queue
              ((queue_free (queues s.queue) + 4 * s.bsize) % 2 ^ 64) (inl refl))
        | inr fine ↦ rw fine (inl refl)
      ]

  send_own-accounts :
      (queues : ℕ → Queue A) (s : Sender) (d : Option A) (force : Bool)
      → ((j : ℕ) → IsValid (queues j))
      → s.dropped < 2 ^ 64
      → Accepted queues s d (send_own queues s d force)
        ⊎ Refused queues s force (send_own queues s d force)
  unfolding send_own
  send_own-accounts queues s d force v small =
      elim (Bool-cases (queue_free (queues s.queue) == 0)) [
        | inr room ↦ rw room (
            inl (
              enqueue_at-Accepted queues s.queue d s (record s { stallseq = 0 }) v small
                (rw room refl)))
        | inl no_room ↦ elim (Bool-cases (gives_up s force)) [
          | inl drop ↦
              rw (no_room, drop)
                (inl (
                  enqueue_at-Accepted queues s.queue d s (record s { dropped = incr s.dropped }) v
                    small (rw no_room refl)))
          | inr stay ↦ rw (no_room, stay) (inr (refused_lem queues s force stay))
        ]
      ]

  redirected :
      (queues : ℕ → Queue A) (s : Sender) (force : Bool)
      → not (chosen_queue queues s force == s.queue) ≡ true
      → (if server_failed s.failures then s else record s { requeue = incr s.requeue }).dropped ≡ (
          if queue_free (queues (chosen_queue queues s force)) == 0
          then incr s.dropped
          else s.dropped)
  redirected queues s force other = elim (chosen_queue_lem queues s force) [
    | inl own ↦ absurd (ground (arith, other, own))
    | inr room ↦ ground (arith, room)
  ]

  -- With valid queues and a count of drops below 2^64, a call is accepted, and then one queue has the
  -- metric at its end, the other queues are as before, and the count of drops has grown by the entries
  -- given up, modulo 2^64; or it is refused, and all queues are as before.
  pub server_send-accounts :
      (queues : ℕ → Queue A) (s : Sender) (d : Option A) (force : Bool)
      → ((j : ℕ) → IsValid (queues j))
      → s.dropped < 2 ^ 64
      → Accepted queues s d (server_send queues s d force)
        ⊎ Refused queues s force (server_send queues s d force)
  unfolding server_send
  server_send-accounts queues s d force v small =
      elim (Bool-cases (not (chosen_queue queues s force == s.queue))) [
        | inl other ↦ rw other (
            inl (
              enqueue_at-Accepted queues (chosen_queue queues s force) d s
                (if server_failed s.failures then s else record s { requeue = incr s.requeue }) v
                small (redirected queues s force other)))
        | inr own ↦ rw own (send_own-accounts queues s d force v small)
      ]
