-- ===== src/Server/Reader/Spared.antt =====
-- The queues that a call of `server_queueread` leaves alone: those of servers that need no help.
use carbon_c_relay.Prelude.{
  ℕ, ◌≤◌, ◌≡◌, refl, sym, ◌∙◌, ap, Bool, true, false, not, ◌&&◌, ◌||◌, List, [], ◌∷◌, ◌==◌, ltb,
  Bool-cases, Option-cases, inl, inr, ◌⊎◌, arith, ==_iff,
}
use carbon_c_relay.Queue.{Queue, queue_free, queue_size}
use carbon_c_relay.Server.Send.{failed_from, update}
use carbon_c_relay.Server.Conn.{Socket, Conn, Drained, server_queuesend}
use carbon_c_relay.Server.Reader.{
  Secondary, Reader, Store, is_busy, help, has_secondaries, throttle, stands_by, close_idle,
  read_secondaries, read_own, connect_read, read_idle, server_queueread, is_connected,
  disconnect_wait_time, has_busy,
}
use carbon_c_relay.Server.Reader.Valid.{AllValid}
use carbon_c_relay.Server.Reader.Threshold.{server_queueread-AllValid}

-- A queue `j` with `room`, seen by a server `id` whose queue has room for `qfree`. None of the
-- secondaries that own it needs help: each is the server itself, or its queue has as much room as the
-- server's own, or it works and its queue has the room of its threshold.
abbrev pub AllAtEase : ℕ → ℕ → ℕ → ℕ → List Secondary → Type 0
AllAtEase qfree id room j [] = Unit
AllAtEase qfree id room j (p ∷ ps) =
    (p.queue ≡ j
      → (p.id ≡ id)
        ⊎ ((qfree ≤ room) ⊎ ((p.qfree_threshold ≤ room) × (failed_from 0 p.failures ≡ 0))))
    × AllAtEase qfree id room j ps

-- The queue `j` is not the server's, and the server shares its queue or the owners of `j` need no help.
abbrev pub Spared : ℕ → Reader → ℕ → ℕ → Type 0
Spared qfree r room j =
    ((j == r.queue) ≡ false) × ((r.shared_queue ≡ true) ⊎ AllAtEase qfree r.id room j r.secondaries)

update-other :
    (queues : ℕ → Queue (List ℕ)) (k : ℕ) (q : Queue (List ℕ)) (j : ℕ)
    → (j == k) ≡ false
    → update queues k q j ≡ queues j
update-other queues k q j e = rw e refl

-- An owner that needs no help is not busy.
at_ease-is_busy :
    (qfree id room : ℕ) (p : Secondary)
    → (p.id ≡ id) ⊎ ((qfree ≤ room) ⊎ ((p.qfree_threshold ≤ room) × (failed_from 0 p.failures ≡ 0)))
    → is_busy id qfree room p ≡ false
unfolding is_busy
at_ease-is_busy qfree id room p (inl e) = ground (arith, e)
at_ease-is_busy qfree id room p (inr (inl e)) = ground (arith, e)
at_ease-is_busy qfree id room p (inr (inr e)) = rw e.1 (ground (arith, e.0))

module _ (socket : Socket) (bsize id qfree room j : ℕ) where
  help-AllAtEase :
      (queues : ℕ → Queue (List ℕ)) (c : Conn) (len : ℕ) (ps : List Secondary)
      → queue_free (queues j) ≡ room
      → AllAtEase qfree id room j ps
      → (help socket bsize id qfree queues c len ps).queues j ≡ queues j
  unfolding help
  help-AllAtEase queues c len [] f h = refl
  help-AllAtEase queues c len (p ∷ ps) f h =
      let d = server_queuesend socket bsize c (queues p.queue) p.dropped in
      elim (Bool-cases (is_busy id qfree (queue_free (queues p.queue)) p)) [
        | inr idle ↦ rw (help, idle) (help-AllAtEase queues c len ps f h.1)
        | inl busy ↦
            (let same = update-other queues p.queue d.kept.queue j (other busy) in
              elim (Option-cases d.result) [
                | inl failed ↦ rw (help, busy, failed) same
                | inr (k, sent) ↦
                    rw (help, busy, sent)
                      (help-AllAtEase (update queues p.queue d.kept.queue) d.conn _ ps
                          (ap (λ q. queue_free q) same ∙ f) h.1
                        ∙ same)
              ])
      ]
    where
      other : is_busy id qfree (queue_free (queues p.queue)) p ≡ true → (j == p.queue) ≡ false
      other busy = elim (Bool-cases (j == p.queue)) [
        | inr e ↦ e
        | inl e ↦
            (let own : p.queue ≡ j = sym ((==_iff j p.queue).0 e) in
              let here : queue_free (queues p.queue) ≡ room =
                ap (λ k. queue_free (queues k)) own ∙ f in
              let idle = at_ease-is_busy qfree id room p (h.0 own) in
              absurd (cc (ap (λ n. is_busy id qfree n p) here, idle, busy)))
      ]

module _ (qfree room j : ℕ) where
  close_idle-Spared :
      (idle : ℕ) (r : Reader) → Spared qfree r room j → Spared qfree (close_idle idle r).1 room j
  unfolding close_idle
  close_idle-Spared idle r h = elim (Bool-cases (r.is_tcp && is_connected r.conn)) [
    | inr no_test ↦ rw (close_idle, no_test) h
    | inl test ↦ elim (Bool-cases (ltb disconnect_wait_time idle)) [
      | inl long ↦ rw (close_idle, test, long) h
      | inr short ↦ rw (close_idle, test, short) h
    ]
  ]

  throttle-Spared :
      (n : ℕ) (r : Reader) → Spared qfree r room j → Spared qfree (throttle n r).1 room j
  unfolding throttle
  throttle-Spared n r h = elim (Bool-cases (has_secondaries r)) [
    | inr none_there ↦ rw (throttle, none_there) h
    | inl some_there ↦ elim (Bool-cases (ltb n r.qfree_threshold)) [
      | inl few ↦ rw (throttle, some_there, few) h
      | inr much ↦ rw (throttle, some_there, much) h
    ]
  ]

module _ (socket : Socket) (qfree room j : ℕ) where
  read_secondaries-Spared :
      (moved : Bool) (len : ℕ) (s : Store)
      → queue_free (s.queues j) ≡ room
      → Spared qfree s.self room j
      → (read_secondaries socket moved qfree len s).1.queues j ≡ s.queues j
  unfolding read_secondaries
  read_secondaries-Spared moved len s f h =
      elim (Bool-cases (not s.self.shared_queue && has_secondaries s.self)) [
        | inr own ↦ rw (read_secondaries, own) refl
        | inl others ↦ rw (read_secondaries, others) (by_share others h.1)
      ]
    where
      by_share :
          (not s.self.shared_queue && has_secondaries s.self) ≡ true
          → (s.self.shared_queue ≡ true) ⊎ AllAtEase qfree s.self.id room j s.self.secondaries
          → (let h' =
                help socket s.self.bsize s.self.id qfree s.queues s.self.conn len
                  s.self.secondaries in
              h'.queues j)
            ≡ s.queues j
      by_share others (inl shared) =
          absurd (cc (ap (λ t. not t && has_secondaries s.self) shared, others))
      by_share others (inr ease) =
          help-AllAtEase socket s.self.bsize s.self.id qfree room j s.queues s.self.conn len
            s.self.secondaries f ease

  read_own-Spared :
      (moved : Bool) (s : Store)
      → queue_free (s.queues j) ≡ room
      → Spared qfree s.self room j
      → (read_own socket moved qfree s).1.queues j ≡ s.queues j
  unfolding read_own
  read_own-Spared moved s f h = elim (Bool-cases (ltb qfree (queue_size q))) [
    | inr empty ↦ rw (read_own, empty) (read_secondaries-Spared moved 0 s f h)
    | inl full ↦ elim (Option-cases d.result) [
      | inl failed ↦ rw (read_own, full, failed) same
      | inr (len, ok) ↦
          rw (read_own, full, ok)
            (read_secondaries-Spared moved len _ (ap (λ k. queue_free k) same ∙ f) h ∙ same)
    ]
  ]
    where
      q : Queue (List ℕ)
      q = s.queues s.self.queue

      d : Drained
      d = server_queuesend socket s.self.bsize s.self.conn q s.self.dropped

      same : update s.queues s.self.queue d.kept.queue j ≡ s.queues j
      same = update-other s.queues s.self.queue d.kept.queue j h.0

module _ (socket : Socket) (connect : Conn → Bool × Conn) (qfree room j : ℕ) where
  connect_read-Spared :
      (moved : Bool) (s : Store)
      → queue_free (s.queues j) ≡ room
      → Spared qfree s.self room j
      → (connect_read socket connect moved qfree s).1.queues j ≡ s.queues j
  unfolding connect_read
  connect_read-Spared moved s f h = elim (Bool-cases (is_connected s.self.conn)) [
    | inl opened ↦ rw (connect_read, opened) (read_own-Spared socket qfree room j moved s f h)
    | inr closed ↦ elim (Bool-cases (connect s.self.conn).0) [
      | inl done ↦ rw (connect_read, closed, done) (read_own-Spared socket qfree room j moved _ f h)
      | inr failed ↦ rw (connect_read, closed, failed) refl
    ]
  ]

  read_idle-Spared :
      (shutdown : Bool) (s : Store)
      → queue_free (s.queues j) ≡ room
      → Spared qfree s.self room j
      → (read_idle socket connect shutdown qfree s).1.queues j ≡ s.queues j
  unfolding read_idle
  read_idle-Spared shutdown s f h =
      elim (Bool-cases (qfree == queue_size (s.queues s.self.queue))) [
        | inr full ↦ rw (read_idle, full) (connect_read-Spared false s f h)
        | inl empty ↦
            elim (Bool-cases (
              not (has_secondaries s.self)
              || (shutdown && not (has_busy s.queues s.self.id s.self.secondaries)))) [
                | inl nothing ↦ rw (read_idle, empty, nothing) refl
                | inr more ↦
                    rw (read_idle, empty, more)
                      (connect_read-Spared (close_idle s.idle s.self).0
                        (record s { self = (close_idle s.idle s.self).1 }) f
                        (close_idle-Spared qfree room j s.idle s.self h))
              ]
      ]

-- Where the queues are valid, a call leaves them valid, and does not touch a queue that is not the
-- server's own if the server shares its queue with its secondaries, or if every secondary that owns that
-- queue either is the server itself, or has as much room in it as the server had in its own, or works
-- and has the room of its threshold in it.
pub server_queueread-Spared :
    (socket : Socket) (connect : Conn → Bool × Conn) (shutdown : Bool) (s : Store) (j : ℕ)
    → AllValid s.queues
    → Spared (queue_free (s.queues s.self.queue)) s.self (queue_free (s.queues j)) j
    → AllValid (server_queueread socket connect shutdown s).1.queues
      × ((server_queueread socket connect shutdown s).1.queues j ≡ s.queues j)
unfolding server_queueread
server_queueread-Spared socket connect shutdown s j v h =
    let qfree = queue_free (s.queues s.self.queue) in
    let room = queue_free (s.queues j) in
    let r = (throttle qfree s.self).1 in
    (
      server_queueread-AllValid socket connect shutdown s v,
      elim (Bool-cases (
          has_secondaries r
          && (r.failover && (not (throttle qfree s.self).0 && stands_by r.id r.secondaries)))) [
            | inl idle ↦ rw (server_queueread, idle) refl
            | inr active ↦
                rw (server_queueread, active)
                  (read_idle-Spared socket connect qfree room j shutdown (record s { self = r })
                    refl (throttle-Spared qfree room j qfree s.self h))
          ],
    )
