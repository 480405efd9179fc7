-- ===== src/Dispatcher/Dests.antt =====
-- dispatcher.c: `dispatch_process_dests`, which offers the metrics of a connection to their servers.
-- Points in time are microseconds, and `random` is the next result of `rand2`.
use mathlib.Core.Path.{subst}
use carbon_c_relay.Prelude.{
  ℕ, ◌+◌, ◌-◌, ◌*◌, ◌/◌, ◌%◌, ◌^◌, ◌≡◌, refl, sym, ◌∙◌, ap, Bool, true, false, ◌||◌, Option, List,
  [], ◌∷◌, if◌then◌else◌, ◌==◌, ltb, Bool-cases, inl, inr,
}
use carbon_c_relay.Queue.{Queue}
use carbon_c_relay.Server.Send.{Sender, Sent, server_send}
use carbon_c_relay.Server.Send.Stall.{server_send-Refused}

-- the servers and the queues, by their addresses
pub record Net (A : Type 0) : Type 0 where
  pub servers : ℕ → Sender
  pub queues : ℕ → Queue A

-- What the function uses of `struct _connection`; a destination is a server and a metric.
pub record Connection (A : Type 0) : Type 0 where
  pub dests : List (ℕ × Option A)
  pub maxsenddelay : ℕ
  pub lastwork : ℕ
  pub isaggr : Bool

-- `timediff` of collector.h. A difference below 0 is 0 here; the code only asks whether it is above
-- a delay.
unfoldable pub timediff : ℕ → ℕ → ℕ
timediff x y = if ltb (x / 10 ^ 6) (y / 10 ^ 6) then y - x else y % 10 ^ 6 - x % 10 ^ 6

module _ {A : Type 0} where
  -- what a call of `server_send` leaves
  abbrev pub after : Net A → ℕ → Sent A → Net A
  after net k r = record {
    servers = λ j. if j == k then r.sender else net.servers j;
    queues = r.queues;
  }

  -- The loop over the destinations: those that are left when a server refuses.
  unfoldable pub send_dests : Bool → Net A → List (ℕ × Option A) → Net A × List (ℕ × Option A)
  unfolding server_send
  send_dests force net [] = (net, [])
  send_dests force net ((k, d) ∷ dests) =
      let r = server_send net.queues (net.servers k) d force in
      let rest = send_dests force (after net k r) dests in
      elim r.accepted [ true ↦ rest | false ↦ (after net k r, (k, d) ∷ dests) ]

  abbrev pub is_done : List (ℕ × Option A) → Bool
  is_done [] = true
  is_done (d ∷ dests) = false

  -- the delay that is drawn for a metric
  abbrev pub delay : Connection A → ℕ → ℕ
  delay c random = if c.maxsenddelay == 0 then (random % 750 + 250) * 1000 else c.maxsenddelay

  -- an aggregator's metric, or one that has waited long enough, is forced on its servers
  unfoldable pub is_forced : Connection A → ℕ → ℕ → Bool
  unfolding timediff
  is_forced c random now = c.isaggr || ltb (delay c random) (timediff c.lastwork now)

  unfoldable pub dispatch_process_dests :
      Net A → Connection A → ℕ → ℕ → Bool × (Net A × Connection A)
  unfolding send_dests is_forced
  dispatch_process_dests net c random now =
      if is_done c.dests
      then (true, (net, c))
      else (let (net', left) = send_dests (is_forced c random now) net c.dests in
          if is_done left
          then (
            true,
            (net', record c { dests = []; maxsenddelay = delay c random; lastwork = now }),
          )
          else (false, (net', record c { dests = left; maxsenddelay = delay c random })))

  -- How the destinations are offered, from a state of the servers to the one they are left in: those
  -- in front are accepted, one after the other, and the first that is left was refused.
  pub data Offered (force : Bool)
      : Net A → List (ℕ × Option A) → Net A → List (ℕ × Option A) → Type 0 where
    all_taken : (net : Net A) → Offered force net [] net []
    refused :
        (net : Net A) (k : ℕ) (d : Option A) (dests : List (ℕ × Option A))
        → (server_send net.queues (net.servers k) d force).accepted ≡ false
        → Offered force net
            ((k, d) ∷ dests)
            (after net k (server_send net.queues (net.servers k) d force))
            ((k, d) ∷ dests)
    taken :
        (net : Net A) (k : ℕ) (d : Option A) (dests : List (ℕ × Option A)) (net' : Net A)
        (left : List (ℕ × Option A))
        → (server_send net.queues (net.servers k) d force).accepted ≡ true
        → Offered force
            (after net k (server_send net.queues (net.servers k) d force))
            dests
            net'
            left
        → Offered force net ((k, d) ∷ dests) net' left

  send_dests-Offered :
      (force : Bool) (net : Net A) (dests : List (ℕ × Option A))
      → Offered force net dests (send_dests force net dests).0 (send_dests force net dests).1
  unfolding send_dests
  send_dests-Offered force net [] = all_taken net
  send_dests-Offered force net ((k, d) ∷ dests) =
      let r = server_send net.queues (net.servers k) d force in
      elim (Bool-cases r.accepted) [
        | inl yes_taken ↦
            rw (send_dests, yes_taken)
              (taken net k d dests (send_dests force (after net k r) dests).0
                (send_dests force (after net k r) dests).1 yes_taken
                (send_dests-Offered force (after net k r) dests))
        | inr no_room ↦ rw (send_dests, no_room) (refused net k d dests no_room)
      ]

  -- Nothing is left of destinations that are forced on their servers.
  send_dests-forced :
      (net : Net A) (dests : List (ℕ × Option A)) → (send_dests true net dests).1 ≡ []
  unfolding send_dests
  send_dests-forced net [] = refl
  send_dests-forced net ((k, d) ∷ dests) =
      elim (server_send-Refused net.queues (net.servers k) d true) [
        | inl yes_taken ↦
            rw (send_dests, yes_taken)
              (send_dests-forced (after net k (server_send net.queues (net.servers k) d true))
                dests)
        | inr refusal ↦ absurd (cc (refusal.not_forced))
      ]

  is_done-[] : (dests : List (ℕ × Option A)) → is_done dests ≡ true → dests ≡ []
  is_done-[] [] h = refl
  is_done-[] (d ∷ dests) h = cc

  -- What a connection keeps of its destinations, and what the servers are left in.
  pub record Progress (net : Net A) (c : Connection A) (forced : Bool)
      (result : Bool × (Net A × Connection A)) : Type 0 where
    pub offered : Offered forced net c.dests result.1.0 result.1.1.dests
    pub done : result.0 ≡ is_done result.1.1.dests
    pub all_forced : forced ≡ true → result.1.1.dests ≡ []

  -- The destinations are offered to their servers in order, each to the servers as the ones before it
  -- left them: those that are dropped from the connection were all accepted, and the first of those
  -- that are kept, in order, was refused. The call returns 1 exactly if none is left, and none is left
  -- of metrics of an aggregator, nor of metrics that have waited longer than the delay.
  pub dispatch_process_dests-Progress :
      (net : Net A) (c : Connection A) (random now : ℕ)
      → Progress net c (is_forced c random now) (dispatch_process_dests net c random now)
  unfolding dispatch_process_dests
  dispatch_process_dests-Progress net c random now = elim (Bool-cases (is_done c.dests)) [
    | inl none_left ↦ rw none_left (record {
      offered =
          subst (λ (l : List (ℕ × Option A)). Offered (is_forced c random now) net l net l)
            (sym (is_done-[] c.dests none_left)) (all_taken net);
      done = sym none_left;
      all_forced = λ f. is_done-[] c.dests none_left;
    })
    | inr some_left ↦
        (let force = is_forced c random now in
          let offered = send_dests-Offered force net c.dests in
          let all_sent : (force ≡ true → (send_dests force net c.dests).1 ≡ []) = λ f.
            ap (λ (b : Bool). (send_dests b net c.dests).1) f ∙ send_dests-forced net c.dests in
          elim (Bool-cases (is_done (send_dests force net c.dests).1)) [
            | inl all ↦
                rw (some_left, all)
                  (record {
                    offered =
                        subst
                          (λ (l : List (ℕ × Option A)).
                            Offered force net c.dests (send_dests force net c.dests).0 l)
                          (is_done-[] _ all) offered;
                    done = refl;
                    all_forced = λ f. refl;
                  })
            | inr kept ↦
                rw (some_left, kept)
                  (record { offered = offered; done = sym kept; all_forced = all_sent })
          ])
  ]
