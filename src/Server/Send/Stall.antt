-- ===== src/Server/Send/Stall.antt =====
-- How long `server_send` may refuse a metric.
use carbon_c_relay.Prelude.{
  ℕ, zero, suc, ◌+◌, ◌<◌, ◌≡◌, refl, Bool, true, false, not, ◌||◌, Option, [], arith, if◌then◌else◌,
  ◌==◌, ◌%◌, ◌^◌, Bool-cases, inl, inr, ◌⊎◌,
}
use carbon_c_relay.Queue.{Queue, queue_free}
use carbon_c_relay.Server.Send.{
  Sender, Sent, gives_up, enqueue_at, send_own, chosen_queue, server_send, server_failed, incr,
}

stays :
    (s : Sender) (force : Bool)
    → gives_up s force ≡ false
    → (force ≡ false) × ((s.stallseq == s.maxstalls) ≡ false)
unfolding gives_up
stays s force h = ground arith

module _ {A : Type 0} where
  -- The call is refused: nothing changes but the counters of stalls, and the server had not stalled
  -- as often in a row as it may.
  pub record Refused (queues : ℕ → Queue A) (s : Sender) (force : Bool) (r : Sent A) : Type 0 where
    pub refused : r.accepted ≡ false
    pub not_forced : force ≡ false
    pub may_stall : (s.stallseq == s.maxstalls) ≡ false
    pub next : r.sender ≡ record s { stallseq = (s.stallseq + 1) % 2 ^ 8; stalls = incr s.stalls }
    pub same : r.queues ≡ queues
    pub none_freed : r.freed ≡ []

  accepted-enqueue_at :
      (queues : ℕ → Queue A) (k : ℕ) (d : Option A) (s : Sender)
      → (enqueue_at queues k d s).accepted ≡ true
  unfolding enqueue_at
  accepted-enqueue_at queues k d s = refl

  pub refused_lem :
      (queues : ℕ → Queue A) (s : Sender) (force : Bool)
      → gives_up s force ≡ false
      → Refused queues s force (record {
        accepted = false;
        sender = record s { stallseq = (s.stallseq + 1) % 2 ^ 8; stalls = incr s.stalls };
        queues = queues;
        freed = [];
      })
  refused_lem queues s force stay = record {
    refused = refl;
    not_forced = (stays s force stay).0;
    may_stall = (stays s force stay).1;
    next = refl;
    same = refl;
    none_freed = refl;
  }

  send_own_lem :
      (queues : ℕ → Queue A) (s : Sender) (d : Option A) (force : Bool)
      → ((send_own queues s d force).accepted ≡ true)
        ⊎ Refused queues s force (send_own queues s d force)
  unfolding send_own
  send_own_lem queues s d force = elim (Bool-cases (queue_free (queues s.queue) == 0)) [
    | inr room ↦ rw room (inl (accepted-enqueue_at queues s.queue d (record s { stallseq = 0 })))
    | inl no_room ↦ elim (Bool-cases (gives_up s force)) [
      | inl drop ↦
          rw (no_room, drop)
            (inl (accepted-enqueue_at queues s.queue d (record s { dropped = incr s.dropped })))
      | inr stay ↦ rw (no_room, stay) (inr (refused_lem queues s force stay))
    ]
  ]

  -- A call is accepted, or it is refused and changes nothing but the counters of stalls. It is never
  -- refused when it is forced, nor when the server has stalled `maxstalls` times in a row.
  pub server_send-Refused :
      (queues : ℕ → Queue A) (s : Sender) (d : Option A) (force : Bool)
      → ((server_send queues s d force).accepted ≡ true)
        ⊎ Refused queues s force (server_send queues s d force)
  unfolding server_send
  server_send-Refused queues s d force =
      elim (Bool-cases (not (chosen_queue queues s force == s.queue))) [
        | inl other ↦ rw other (
            inl (
              accepted-enqueue_at queues (chosen_queue queues s force) d
                (if server_failed s.failures then s else record s { requeue = incr s.requeue })))
        | inr own ↦ rw own (send_own_lem queues s d force)
      ]

  -- `server_send` called again and again with what it left, as long as it refuses, at most `n` times.
  unfoldable pub insist : ℕ → (ℕ → Queue A) → Sender → Option A → Bool
  insist zero queues s d = false
  insist (suc n) queues s d =
      let r = server_send queues s d false in r.accepted || insist n r.queues r.sender d

  -- A metric that is offered again and again, unforced, to a server that nothing drains is accepted
  -- after at most `maxstalls` refusals, less those that the server has had in a row, if `maxstalls`
  -- is below 16.
  pub insist-accepted :
      (n : ℕ) (queues : ℕ → Queue A) (s : Sender) (d : Option A)
      → s.maxstalls ≡ s.stallseq + n
      → s.maxstalls < 16
      → insist (suc n) queues s d ≡ true
  unfolding insist
  insist-accepted zero queues s d h few = elim (server_send-Refused queues s d false) [
    | inl taken ↦ rw (insist, taken) refl
    | inr refusal ↦ absurd (ground (arith, refusal.may_stall, h))
  ]
  insist-accepted (suc n) queues s d h few = elim (server_send-Refused queues s d false) [
    | inl taken ↦ rw (insist, taken) refl
    | inr refusal ↦
        rw (insist, refusal.refused)
          (insist-accepted n (server_send queues s d false).queues
            (server_send queues s d false).sender d (rw refusal.next (omega arith))
            (rw refusal.next few))
  ]
