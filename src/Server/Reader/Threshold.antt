-- ===== src/Server/Reader/Threshold.antt =====
-- The threshold by which a server and those it backs up share their load.
use carbon_c_relay.Prelude.{
  ℕ, ◌≤◌, ◌<◌, ◌≡◌, refl, ◌∙◌, Bool, false, not, ◌&&◌, ◌||◌, List, if◌then◌else◌, ◌==◌, ltb, length,
  arith, Bool-cases, Option-cases, inl, inr, ◌⊎◌, lt→ltb,
}
use carbon_c_relay.Queue.{Queue, queue_free, queue_size}
use carbon_c_relay.Server.Send.{update}
use carbon_c_relay.Server.Conn.{Socket, Conn, Drained, server_queuesend}
use carbon_c_relay.Server.Reader.{
  Reader, Store, has_secondaries, throttle, stands_by, close_idle, read_secondaries, read_own,
  connect_read, read_idle, server_queueread, is_connected, disconnect_wait_time, has_busy,
}
use carbon_c_relay.Server.Reader.Valid.{
  AllValid, update-AllValid, server_queuesend-IsValid, help-AllValid,
}

-- What the parts of a call keep.
pub record Keeps (s s' : Store) : Type 0 where
  pub same_threshold : s'.self.qfree_threshold ≡ s.self.qfree_threshold
  pub valid : AllValid s.queues → AllValid s'.queues

only_self :
    (s : Store) (r : Reader) (idle : ℕ)
    → r.qfree_threshold ≡ s.self.qfree_threshold
    → Keeps s (record s { self = r; idle = idle })
only_self s r idle h = record { same_threshold = h; valid = λ v. v }

Keeps-trans : (s s' s'' : Store) → Keeps s s' → Keeps s' s'' → Keeps s s''
Keeps-trans s s' s'' a b = record {
  same_threshold = b.same_threshold ∙ a.same_threshold;
  valid = λ v. b.valid (a.valid v);
}

close_idle-threshold :
    (idle : ℕ) (r : Reader) → (close_idle idle r).1.qfree_threshold ≡ r.qfree_threshold
unfolding close_idle
close_idle-threshold idle r = elim (Bool-cases (r.is_tcp && is_connected r.conn)) [
  | inr no_test ↦ rw (close_idle, no_test) refl
  | inl test ↦ elim (Bool-cases (ltb disconnect_wait_time idle)) [
    | inl long ↦ rw (close_idle, test, long) refl
    | inr short ↦ rw (close_idle, test, short) refl
  ]
]

module _ (socket : Socket) where
  read_secondaries-Keeps :
      (moved : Bool) (qfree len : ℕ) (s : Store)
      → Keeps s (read_secondaries socket moved qfree len s).1
  unfolding read_secondaries
  read_secondaries-Keeps moved qfree len s =
      elim (Bool-cases (not s.self.shared_queue && has_secondaries s.self)) [
        | inr own ↦ rw (read_secondaries, own) (record { same_threshold = refl; valid = λ v. v })
        | inl others ↦
            rw (read_secondaries, others)
              (record {
                same_threshold = refl;
                valid = λ v.
                    help-AllValid socket s.self.bsize s.self.id qfree s.queues s.self.conn len
                      s.self.secondaries v;
              })
      ]

  read_own-Keeps :
      (moved : Bool) (qfree : ℕ) (s : Store) → Keeps s (read_own socket moved qfree s).1
  unfolding read_own
  read_own-Keeps moved qfree s = elim (Bool-cases (ltb qfree (queue_size q))) [
    | inr empty ↦ rw (read_own, empty) (read_secondaries-Keeps moved qfree 0 s)
    | inl full ↦ elim (Option-cases d.result) [
      | inl failed ↦ rw (read_own, full, failed) sent
      | inr (len, ok) ↦
          rw (read_own, full, ok)
            (Keeps-trans s _ _ sent (read_secondaries-Keeps moved qfree len _))
    ]
  ]
    where
      q : Queue (List ℕ)
      q = s.queues s.self.queue

      d : Drained
      d = server_queuesend socket s.self.bsize s.self.conn q s.self.dropped

      sent : Keeps s (record s {
        queues = update s.queues s.self.queue d.kept.queue;
        self = record s.self { conn = d.conn; dropped = d.kept.dropped };
      })
      sent = record {
        same_threshold = refl;
        valid = λ v. update-AllValid s.queues s.self.queue d.kept.queue v (
            server_queuesend-IsValid socket s.self.bsize s.self.conn q s.self.dropped
              (v s.self.queue));
      }

module _ (socket : Socket) (connect : Conn → Bool × Conn) where
  connect_read-Keeps :
      (moved : Bool) (qfree : ℕ) (s : Store) → Keeps s (connect_read socket connect moved qfree s).1
  unfolding connect_read
  connect_read-Keeps moved qfree s = elim (Bool-cases (is_connected s.self.conn)) [
    | inl opened ↦ rw (connect_read, opened) (read_own-Keeps socket moved qfree s)
    | inr closed ↦ elim (Bool-cases (connect s.self.conn).0) [
      | inl done ↦
          rw (connect_read, closed, done)
            (Keeps-trans s _ _
              (only_self s (record s.self { conn = (connect s.self.conn).1 }) s.idle refl)
              (read_own-Keeps socket moved qfree _))
      | inr failed ↦
          rw (connect_read, closed, failed)
            (only_self s (record s.self { conn = (connect s.self.conn).1 }) s.idle refl)
    ]
  ]

  read_idle-Keeps :
      (shutdown : Bool) (qfree : ℕ) (s : Store)
      → Keeps s (read_idle socket connect shutdown qfree s).1
  unfolding read_idle
  read_idle-Keeps shutdown qfree s =
      elim (Bool-cases (qfree == queue_size (s.queues s.self.queue))) [
        | inr full ↦ rw (read_idle, full) (connect_read-Keeps false qfree s)
        | inl empty ↦
            elim (Bool-cases (
              not (has_secondaries s.self)
              || (shutdown && not (has_busy s.queues s.self.id s.self.secondaries)))) [
                | inl nothing ↦ rw (read_idle, empty, nothing) checked
                | inr more ↦
                    rw (read_idle, empty, more)
                      (Keeps-trans s _ _ checked
                        (connect_read-Keeps (close_idle s.idle s.self).0 qfree _))
              ]
      ]
    where
      checked : Keeps s (record s { self = (close_idle s.idle s.self).1 })
      checked = only_self s (close_idle s.idle s.self).1 s.idle (close_idle-threshold s.idle s.self)

  -- a call behind the first test
  queueread-Keeps :
      (shutdown : Bool) (s : Store)
      → let (need_backup, r) = throttle (queue_free (s.queues s.self.queue)) s.self in
        Keeps (record s { self = r }) (server_queueread socket connect shutdown s).1
  unfolding server_queueread
  queueread-Keeps shutdown s =
      let qfree = queue_free (s.queues s.self.queue) in
      let r = (throttle qfree s.self).1 in
      elim (Bool-cases (
        has_secondaries r
        && (r.failover && (not (throttle qfree s.self).0 && stands_by r.id r.secondaries)))) [
          | inl idle ↦
              rw (server_queueread, idle)
                (only_self (record s { self = r }) (close_idle s.idle r).1 s.idle
                  (close_idle-threshold s.idle r))
          | inr active ↦
              rw (server_queueread, active) (read_idle-Keeps shutdown qfree (record s { self = r }))
        ]

  -- If the queues are valid, they are valid behind a call.
  pub server_queueread-AllValid :
      (shutdown : Bool) (s : Store)
      → AllValid s.queues
      → AllValid (server_queueread socket connect shutdown s).1.queues
  server_queueread-AllValid shutdown s v = (queueread-Keeps shutdown s).valid v

-- The threshold that a server with so much room is to have, if it has `now`.
abbrev pub hysteresis : ℕ → ℕ → ℕ → ℕ → ℕ
hysteresis qfree low high now = if ltb qfree low then high else if ltb qfree high then now else low

throttle-hysteresis :
    (qfree : ℕ) (r : Reader)
    → 0 < length r.secondaries
    → r.threshold_start ≤ r.threshold_end
    → (r.qfree_threshold ≡ r.threshold_start) ⊎ (r.qfree_threshold ≡ r.threshold_end)
    → (throttle qfree r).1.qfree_threshold
      ≡ hysteresis qfree r.threshold_start r.threshold_end r.qfree_threshold
unfolding throttle
throttle-hysteresis qfree r p le h = elim (Bool-cases (ltb qfree r.qfree_threshold)) [
  | inl few ↦ rw (throttle, lt→ltb 0 (length r.secondaries) p, few) (ground (arith, few))
  | inr much ↦ rw (throttle, lt→ltb 0 (length r.secondaries) p, much) (ground (arith, much))
]

-- For a server with secondaries whose threshold is its start or its end, the start not above the end: a
-- call sets the threshold to the end when the queue has less room than the start, to the start when it
-- has the room of the end, and leaves it in between.
pub server_queueread-hysteresis :
    (socket : Socket) (connect : Conn → Bool × Conn) (shutdown : Bool) (s : Store)
    → 0 < length s.self.secondaries
    → s.self.threshold_start ≤ s.self.threshold_end
    → (s.self.qfree_threshold ≡ s.self.threshold_start)
      ⊎ (s.self.qfree_threshold ≡ s.self.threshold_end)
    → (server_queueread socket connect shutdown s).1.self.qfree_threshold
      ≡ hysteresis
          (queue_free (s.queues s.self.queue))
          s.self.threshold_start
          s.self.threshold_end
          s.self.qfree_threshold
server_queueread-hysteresis socket connect shutdown s p le h =
    (queueread-Keeps socket connect shutdown s).same_threshold
    ∙ throttle-hysteresis (queue_free (s.queues s.self.queue)) s.self p le h
