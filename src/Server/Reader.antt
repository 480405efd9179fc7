-- ===== src/Server/Reader.antt =====
-- server.c: `server_queueread` and the loop of `server_queuereader`, the thread that drains a queue.
-- Queues are told apart by their addresses. `connect` is `server_connect` on a connection: whether it
-- succeeds, and what it leaves. The times of the ticks are left out.
pub mod Threshold
pub mod Spared
pub mod Valid
mod Tests
use carbon_c_relay.Prelude.{
  ℕ, ◌+◌, ◌-◌, ◌%◌, ◌^◌, Bool, true, false, not, ◌&&◌, ◌||◌, Option, none, some, List, [], ◌∷◌,
  if◌then◌else◌, ◌==◌, ltb, leb, length,
}
use carbon_c_relay.Queue.{Queue, queue_free, queue_len, queue_size}
use carbon_c_relay.Server.Send.{failed_from, update}
use carbon_c_relay.Server.Conn.{
  Socket, Conn, Kept, Drained, fail_wait_count, server_disconnect, server_queuesend,
}

-- What the function uses of a secondary: `failure` and `alive` of its connections, and counters.
pub record Secondary : Type 0 where
  pub id : ℕ
  pub failures : List ℕ
  pub alives : List Bool
  pub queue : ℕ
  pub qfree_threshold : ℕ
  pub dropped : ℕ
  pub requeue : ℕ

-- What it uses of the server itself, with the one connection that the thread works on.
pub record Reader : Type 0 where
  pub id : ℕ
  pub is_tcp : Bool
  pub shared_queue : Bool
  pub failover : Bool
  pub queue : ℕ
  pub bsize : ℕ
  pub ttl : ℕ
  pub qfree_threshold : ℕ
  pub threshold_start : ℕ
  pub threshold_end : ℕ
  pub secondaries : List Secondary
  pub dropped : ℕ
  pub conn : Conn

-- The state behind a call: the queues, the server, and the thread's own `idle`.
pub record Store : Type 0 where
  pub queues : ℕ → Queue (List ℕ)
  pub self : Reader
  pub idle : ℕ

abbrev pub disconnect_wait_time : ℕ
disconnect_wait_time = 12

abbrev pub has_secondaries : Reader → Bool
has_secondaries r = ltb 0 (length r.secondaries)

-- `__sync_bool_compare_and_swap(&qfree_threshold, old, new)`
abbrev pub swap_threshold : ℕ → ℕ → Reader → Reader
swap_threshold old new r = record r {
  qfree_threshold = if r.qfree_threshold == old then new else r.qfree_threshold;
}

-- the first test: `need_backup`, and the server
unfoldable pub throttle : ℕ → Reader → Bool × Reader
throttle qfree r =
    if has_secondaries r
    then if ltb qfree r.qfree_threshold
      then (true, swap_threshold r.threshold_start r.threshold_end r)
      else (false, swap_threshold r.threshold_end r.threshold_start r)
    else (false, r)

-- The loop for a failover: whether a secondary in front of the server works.
unfoldable pub stands_by : ℕ → List Secondary → Bool
unfolding failed_from
stands_by id [] = false
stands_by id (p ∷ ps) =
    not (p.id == id) && (ltb (failed_from 0 p.failures) fail_wait_count || stands_by id ps)

abbrev pub is_connected : Conn → Bool
is_connected c = elim c.fd [ none ↦ false | some fd ↦ true ]

-- `*idle++ > DISCONNECT_WAIT_TIME`, which moves the pointer: `true` for a pointer that has moved
unfoldable pub close_idle : ℕ → Reader → Bool × Reader
unfolding server_disconnect
close_idle idle r =
    if r.is_tcp && is_connected r.conn
    then (
      true,
      if ltb disconnect_wait_time idle then record r { conn = server_disconnect r.conn } else r,
    )
    else (false, r)

module _ (queues : ℕ → Queue (List ℕ)) where
  -- `noqueue`: some other secondary has much in its queue
  unfoldable pub has_busy : ℕ → List Secondary → Bool
  unfolding queue_free queue_len
  has_busy id [] = false
  has_busy id (p ∷ ps) =
      (not (p.id == id) && ltb (queue_free (queues p.queue)) (queue_len (queues p.queue)))
      || has_busy id ps

-- whether a secondary's queue is read
unfoldable pub is_busy : ℕ → ℕ → ℕ → Secondary → Bool
unfolding failed_from
is_busy id qfree sqfree p =
    not (p.id == id)
    && (ltb sqfree qfree && (ltb sqfree p.qfree_threshold || not (failed_from 0 p.failures == 0)))

-- The loop over the secondaries: the queues, the connection, the secondaries, `ret < 0`, and `len`.
pub record Helped : Type 0 where
  pub queues : ℕ → Queue (List ℕ)
  pub conn : Conn
  pub secondaries : List Secondary
  pub broken : Bool
  pub len : ℕ

module _ (socket : Socket) (bsize id qfree : ℕ) where
  unfoldable pub help : (ℕ → Queue (List ℕ)) → Conn → ℕ → List Secondary → Helped
  unfolding is_busy queue_free
  help queues c len [] = record {
    queues = queues;
    conn = c;
    secondaries = [];
    broken = false;
    len = len;
  }
  help queues c len (p ∷ ps) =
      let d = server_queuesend socket bsize c (queues p.queue) p.dropped in
      let queues' = update queues p.queue d.kept.queue in
      let n : ℕ = elim d.result [ none ↦ 0 | some k ↦ k ] in
      let skipped = help queues c len ps in
      let next = help queues' d.conn (len + n) ps in
      if is_busy id qfree (queue_free (queues p.queue)) p
      then (elim d.result [
        | none ↦ record {
          queues = queues';
          conn = d.conn;
          secondaries = record p { dropped = d.kept.dropped } ∷ ps;
          broken = true;
          len = len;
        }
        | some k ↦ record next {
          secondaries =
              record p { dropped = d.kept.dropped; requeue = (p.requeue + k) % 2 ^ 64 }
              ∷ next.secondaries;
        }
      ])
      else record skipped { secondaries = p ∷ skipped.secondaries }

module _ (socket : Socket) where
  -- The part behind the server's own queue; `moved` says whether the pointer to `idle` has moved.
  unfoldable pub read_secondaries : Bool → ℕ → ℕ → Store → Option ℕ × Store
  unfolding help
  read_secondaries moved qfree len s =
      let r = s.self in
      let h = help socket r.bsize r.id qfree s.queues r.conn len r.secondaries in
      let idle' = if moved then s.idle else 0 in
      if not r.shared_queue && has_secondaries r
      then (
        if h.broken then none else some h.len,
        record {
          queues = h.queues;
          self = record r { conn = h.conn; secondaries = h.secondaries };
          idle = idle';
        },
      )
      else (some len, record s { idle = idle' })

  -- the server's own queue
  unfoldable pub read_own : Bool → ℕ → Store → Option ℕ × Store
  unfolding queue_size
  read_own moved qfree s =
      let r = s.self in
      let q = s.queues r.queue in
      let d = server_queuesend socket r.bsize r.conn q r.dropped in
      let s' : Store = record s {
        queues = update s.queues r.queue d.kept.queue;
        self = record r { conn = d.conn; dropped = d.kept.dropped };
      } in
      if ltb qfree (queue_size q)
      then (elim d.result [ none ↦ (none, s') | some len ↦ read_secondaries moved qfree len s' ])
      else read_secondaries moved qfree 0 s

module _ (socket : Socket) (connect : Conn → Bool × Conn) where
  -- from the attempt to connect on
  unfoldable pub connect_read : Bool → ℕ → Store → Option ℕ × Store
  connect_read moved qfree s =
      let (done, c) = connect s.self.conn in
      let s' : Store = record s { self = record s.self { conn = c } } in
      if is_connected s.self.conn
      then read_own socket moved qfree s
      else if done
      then read_own socket moved qfree s'
      else (none, s')

  -- from the test for an empty queue on
  unfoldable pub read_idle : Bool → ℕ → Store → Option ℕ × Store
  unfolding queue_size has_busy
  read_idle shutdown qfree s =
      let (moved, r) = close_idle s.idle s.self in
      let s' : Store = record s { self = r } in
      if qfree == queue_size (s.queues s.self.queue)
      then if not (has_secondaries s.self)
          || (shutdown && not (has_busy s.queues s.self.id s.self.secondaries))
        then (some 0, s')
        else connect_read moved qfree s'
      else connect_read false qfree s

  -- `server_queueread`, with `none` for -1; `shutdown` says that the server is to stop.
  unfoldable pub server_queueread : Bool → Store → Option ℕ × Store
  unfolding stands_by queue_free
  server_queueread shutdown s =
      let qfree = queue_free (s.queues s.self.queue) in
      let (need_backup, r) = throttle qfree s.self in
      let s' : Store = record s { self = r } in
      if has_secondaries r && (r.failover && (not need_backup && stands_by r.id r.secondaries))
      then (some 0, record s' { self = (close_idle s.idle r).1 })
      else read_idle shutdown qfree s'
