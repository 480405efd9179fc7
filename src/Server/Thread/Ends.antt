-- ===== src/Server/Thread/Ends.antt =====
-- A thread that is to stop ends.
use carbon_c_relay.Prelude.{
  ℕ, zero, suc, ◌+◌, ◌-◌, ◌≤◌, ◌<◌, ◌≡◌, refl, ◌∙◌, ap, Bool, true, false, not, some, if◌then◌else◌,
  arith, Bool-cases, inl, inr, leb, ◌==◌, ==_iff,
}
use carbon_c_relay.Server.Conn.{Socket, Conn}
use carbon_c_relay.Server.Thread.{
  Running, stop, Thread, same_running, work, run_round, end_round, leaves, leave_loop,
  server_queuereader,
}

-- the time from which a round counts
abbrev pub counts_from : ℕ → Thread → ℕ
counts_from now t = if same_running t.shutdown_init stop then t.started else now

leaves_late :
    (shutdown_timeout : ℕ) (t : Thread) (now : ℕ)
    → t.started + shutdown_timeout ≤ now
    → leaves shutdown_timeout now t ≡ true
unfolding leaves
leaves_late shutdown_timeout t now l =
    let late : leb shutdown_timeout (now - t.started) ≡ true = ground (arith, l) in rw late refl

module _ (socket : Socket) (connect : Conn → Bool × Conn) (shutdown_timeout : ℕ) where
  -- what a round works with
  worked : ℕ → Thread → Thread
  worked now t =
      work socket connect stop (record t { shutdown_init = stop; started = counts_from now t })

  round_stop :
      (now : ℕ) (t : Thread)
      → run_round socket connect shutdown_timeout stop now t
        ≡ (not (leaves shutdown_timeout now (worked now t)), worked now t)
  unfolding run_round end_round worked
  round_stop now t = refl

  started-worked : (now : ℕ) (t : Thread) → (worked now t).started ≡ counts_from now t
  unfolding work worked
  started-worked now t = refl

  counts_from-worked :
      (now now' : ℕ) (t : Thread) → counts_from now' (worked now t) ≡ counts_from now t
  unfolding work worked
  counts_from-worked now now' t = refl

  module _ (running : ℕ → Running) (clock : ℕ → ℕ) where
    one_round :
        (fuel n : ℕ) (t : Thread) (go_on : Bool) (t' : Thread)
        → run_round socket connect shutdown_timeout (running n) (clock n) t ≡ (go_on, t')
        → server_queuereader socket connect shutdown_timeout running clock (suc fuel) n t ≡ (
            if go_on
            then server_queuereader socket connect shutdown_timeout running clock fuel (suc n) t'
            else some (leave_loop socket t'))
    unfolding server_queuereader
    one_round fuel n t go_on t' h =
        ap
          (λ (r : Bool × Thread).
            if r.0
            then server_queuereader socket connect shutdown_timeout running clock fuel (suc n) r.1
            else some (leave_loop socket r.1))
          h

    not_last :
        (last n : ℕ) (t : Thread)
        → counts_from (clock n) t + shutdown_timeout ≤ clock last
        → n ≤ last
        → leaves shutdown_timeout (clock n) (worked (clock n) t) ≡ false
        → suc n ≤ last
    not_last last n t l le stays = elim (Bool-cases (n == last)) [
      | inr other ↦ ground (arith, other)
      | inl same ↦
          (let now : clock n ≡ clock last = ap clock ((==_iff n last).0 same) in
            let left =
              leaves_late shutdown_timeout (worked (clock n) t) (clock n)
                (omega (arith, l, now, started-worked (clock n) t)) in
            cc)
    ]

    ends_by :
        (last fuel n : ℕ) (t : Thread)
        → ((k : ℕ) → running k ≡ stop)
        → counts_from (clock n) t + shutdown_timeout ≤ clock last
        → n ≤ last
        → last < n + fuel
        → (t' : Thread) × (server_queuereader socket connect shutdown_timeout running clock fuel n t
            ≡ some t')
    ends_by last zero n t st l le h = absurd (omega arith)
    ends_by last (suc fuel) n t st l le h =
        let w = worked (clock n) t in
        let eq =
          ap (λ r. run_round socket connect shutdown_timeout r (clock n) t) (st n)
          ∙ round_stop (clock n) t in
        let this = one_round fuel n t (not (leaves shutdown_timeout (clock n) w)) w eq in
        let turn = λ (b : Bool).
          if not b
          then server_queuereader socket connect shutdown_timeout running clock fuel (suc n) w
          else some (leave_loop socket w) in
        elim (Bool-cases (leaves shutdown_timeout (clock n) w)) [
          | inl left ↦ (leave_loop socket w, this ∙ ap turn left)
          | inr stays ↦
              (let rest =
                  ends_by last fuel (suc n) w st
                    (omega (arith, l, counts_from-worked (clock n) (clock (suc n)) t))
                    (not_last last n t l le stays) (omega arith) in
                (rest.0, this ∙ ap turn stays ∙ rest.1))
        ]

    -- For any timeout: a thread that is to stop from round 0 on leaves its loop, by the round `last`, if
    -- then the timeout has passed since it was told, whatever its socket and its queues do.
    pub server_queuereader-ends :
        (last : ℕ) (t : Thread)
        → ((k : ℕ) → running k ≡ stop)
        → counts_from (clock 0) t + shutdown_timeout ≤ clock last
        → (t' : Thread) × (server_queuereader socket connect shutdown_timeout running clock
              (suc last)
              0
              t
            ≡ some t')
    server_queuereader-ends last t st l =
        ends_by last (suc last) 0 t st l (omega arith) (omega arith)
