-- ===== src/Server/Thread.antt =====
-- server.c: `server_queuereader`, the thread of a connection, and what starts its end: `server_shutdown`,
-- and the swaps of queues when a configuration is loaded. The n-th round of the loop reads `keep_running`
-- and the time as `running n` and `clock n`. `shutdown_timeout` is the variable that an option sets; a
-- negative one is left out.
pub mod Ends
mod Tests
use carbon_c_relay.Prelude.{
  ℕ, zero, suc, ◌-◌, Bool, true, false, not, ◌&&◌, ◌||◌, Option, none, some, List, [], ◌∷◌,
  if◌then◌else◌, ◌==◌, ltb, leb, length,
}
use carbon_c_relay.Queue.{Queue, queue_free, queue_len}
use carbon_c_relay.Server.Conn.{Socket, Conn, sockflush, server_disconnect}
use carbon_c_relay.Server.Reader.{
  Secondary, Reader, Store, has_secondaries, is_connected, server_queueread,
}

-- SERVER_KEEP_RUNNING, SERVER_STOP and SERVER_STOP_FORCE
pub data Running : Type 0 where
  keep_running stop stop_force : Running

unfoldable pub server_shutdown : Bool → Running → Running
server_shutdown swap keep_running = if swap then stop_force else stop
server_shutdown swap r = r

unfoldable pub server_alive : List Bool → Bool
server_alive [] = true
server_alive (a ∷ alives) = a && server_alive alives

-- `cluster_set_threshold`: the two thresholds, or `none` for -1; negative numbers are left out.
unfoldable pub cluster_set_threshold : ℕ → ℕ → Option (ℕ × ℕ)
cluster_set_threshold threshold_start threshold_end =
    if ltb 100 threshold_start || ltb 100 threshold_end
    then none
    else if ltb threshold_end threshold_start
    then none
    else some (threshold_start, threshold_end)

-- `server_set_shared_queue`: the old queue, if there is a new one, and the server's queue
unfoldable pub server_set_shared_queue : Bool → ℕ → ℕ → Option ℕ × ℕ
server_set_shared_queue shared old q =
    if shared && not (old == q) then (some old, q) else (none, old)

-- The local variables of the thread, and the state that it works on.
pub record Thread : Type 0 where
  pub store : Store
  pub shutdown_init : Running
  pub started : ℕ

abbrev pub same_running : Running → Running → Bool
same_running keep_running keep_running = true
same_running stop stop = true
same_running stop_force stop_force = true
same_running _ _ = false

abbrev pub is_zero : Option ℕ → Bool
is_zero none = false
is_zero (some n) = n == 0

abbrev pub with_conn : Thread → Conn → Thread
with_conn t c = record t { store = record t.store { self = record t.store.self { conn = c } } }

-- `empty`: no other secondary has work or is alive
unfoldable pub all_empty : (ℕ → Queue (List ℕ)) → ℕ → List Secondary → Bool
unfolding server_alive queue_free queue_len
all_empty queues id [] = true
all_empty queues id (p ∷ ps) =
    ((p.id == id)
      || not
          (ltb (queue_free (queues p.queue)) (queue_len (queues p.queue)) || server_alive p.alives))
    && all_empty queues id ps

-- whether a thread that is to stop leaves the loop
unfoldable pub leaves : ℕ → ℕ → Thread → Bool
unfolding all_empty
leaves shutdown_timeout now t =
    let r = t.store.self in
    leb shutdown_timeout (now - t.started)
    || (not (has_secondaries r) || all_empty t.store.queues r.id r.secondaries)

-- the test for the age of a connection
unfoldable pub check_ttl : ℕ → Thread → Thread
unfolding server_disconnect
check_ttl now t =
    if ltb 0 t.store.self.ttl && leb t.store.self.ttl (now - t.started)
    then record (with_conn t (server_disconnect t.store.self.conn)) { started = now }
    else t

-- the end of a round: whether the loop goes on
unfoldable pub end_round : ℕ → Running → ℕ → Thread → Bool × Thread
unfolding leaves check_ttl
end_round shutdown_timeout stop now t = (not (leaves shutdown_timeout now t), t)
end_round shutdown_timeout keep_running now t = (true, check_ttl now t)
end_round shutdown_timeout stop_force now t = (true, check_ttl now t)

-- behind the loop
unfoldable pub leave_loop : Socket → Thread → Thread
unfolding sockflush server_disconnect
leave_loop socket t =
    let c : Conn = record t.store.self.conn { alive = false } in
    with_conn t (if is_connected c then server_disconnect (sockflush socket c).1 else c)

module _ (socket : Socket) (connect : Conn → Bool × Conn) where
  -- `server_queueread`, and `alive` behind it
  unfoldable pub work : Running → Thread → Thread
  unfolding server_queueread
  work shutdown t =
      let (ret, s) =
        server_queueread socket connect (not (same_running shutdown keep_running)) t.store in
      let t' : Thread = record t { store = s } in
      with_conn t' (record s.self.conn { alive = not (is_zero ret) })

module _ (socket : Socket) (connect : Conn → Bool × Conn) (shutdown_timeout : ℕ) where
  unfoldable pub run_round : Running → ℕ → Thread → Bool × Thread
  unfolding work end_round
  run_round stop_force now t = (false, t)
  run_round shutdown now t =
      let started' = if same_running t.shutdown_init shutdown then t.started else now in
      end_round shutdown_timeout shutdown now
        (work socket connect shutdown (record t { shutdown_init = shutdown; started = started' }))

  -- The loop from round `n` on, on fuel.
  unfoldable pub server_queuereader : (ℕ → Running) → (ℕ → ℕ) → ℕ → ℕ → Thread → Option Thread
  server_queuereader running clock zero n t = none
  server_queuereader running clock (suc fuel) n t =
      let (go_on, t') = run_round (running n) (clock n) t in
      let rest = server_queuereader running clock fuel (suc n) t' in
      if go_on then rest else some (leave_loop socket t')
