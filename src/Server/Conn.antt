-- ===== src/Server/Conn.antt =====
-- server.c: a connection of a server, with a plain socket, and `server_queuesend`, which sends a batch
-- of metrics over it. What poll(2) and write(2) answer are functions of a clock that goes on with each
-- call. A metric is the bytes behind its length.
pub mod Stream
pub mod Rounds
pub mod Back
pub mod Last
pub mod Returns
pub mod Delivery
mod Tests
use carbon_c_relay.Prelude.{
  ℕ, zero, suc, ◌+◌, ◌-◌, ◌%◌, ◌^◌, Bool, true, false, Option, none, some, List, [], ◌∷◌, ◌++◌,
  if◌then◌else◌, ◌==◌, ltb, length, take, drop,
}
use carbon_c_relay.Queue.{Queue, queue_dequeue_vector, queue_putback}
use carbon_c_relay.Server.Send.{incr}

-- Whether a socket can be written to: an error, POLLOUT, POLLHUP, another event, or a timeout.
pub data Poll : Type 0 where
  failed writable hung_up other timed_out : Poll

-- The number of bytes that are taken, EINTR, or another error.
pub data Written : Type 0 where
  took : ℕ → Written
  interrupted broken : Written

pub record Socket : Type 0 where
  pub poll : ℕ → Poll
  pub write : ℕ → List ℕ → Written

-- `struct _servercon` with the buffer of its stream; `wire` is what the socket has taken.
pub record Conn : Type 0 where
  pub fd : Option ℕ
  pub failure : ℕ
  pub alive : Bool
  pub metrics : ℕ
  pub obuf : List ℕ
  pub wire : List ℕ
  pub clock : ℕ

abbrev pub fail_wait_count : ℕ
fail_wait_count = 6

abbrev pub server_max_send : ℕ
server_max_send = 10

abbrev pub obuf_size : ℕ
obuf_size = 32768

unfoldable pub server_add_failure : Conn → Conn
server_add_failure c =
    if ltb c.failure fail_wait_count then record c { failure = c.failure + 1 } else c

unfoldable pub server_disconnect : Conn → Conn
server_disconnect c = record c { fd = none }

-- a call of the system
abbrev pub tick : Conn → Conn
tick c = record c { clock = c.clock + 1 }

-- `sockwrite`, with `none` for ENOBUFS
unfoldable pub sockwrite : Conn → List ℕ → Option Conn
sockwrite c m =
    if ltb obuf_size (length c.obuf + length m)
    then none
    else some (record c { obuf = c.obuf ++ m })

-- the branches of `server_poll`
unfoldable pub polled : Poll → Conn → Bool × Conn
unfolding server_disconnect server_add_failure
polled failed c = (false, server_disconnect c)
polled writable c = (true, c)
polled hung_up c = (false, server_add_failure c)
polled other c = (false, server_add_failure c)
polled timed_out c = (false, server_disconnect c)

module _ (socket : Socket) where
  -- the loop of `sockflush`
  unfoldable pub flush_loop : ℕ → List ℕ → Conn → Bool × Conn
  flush_loop zero p c = (false, c)
  flush_loop (suc cnt) p c = elim (socket.write c.clock p) [
    | took slen ↦
        (let c' = record (tick c) { wire = c.wire ++ take slen p } in
          let rest = flush_loop cnt (drop slen p) (tick c') in
          if slen == length p then (true, record c' { obuf = [] }) else rest)
    | interrupted ↦ flush_loop cnt p (tick c)
    | broken ↦ (false, tick c)
  ]

  unfoldable pub sockflush : Conn → Bool × Conn
  sockflush c =
      let flushed = flush_loop server_max_send c.obuf c in
      if length c.obuf == 0 then (true, c) else flushed

  -- `server_poll`, with `true` for a result of 0
  unfoldable pub server_poll : Conn → Bool × Conn
  unfolding polled
  server_poll c = elim c.fd [
    | none ↦ (false, c)
    | some fd ↦ if fd == 0 then (false, c) else polled (socket.poll c.clock) (tick c)
  ]

-- The local variables of the loop.
pub record Sending : Type 0 where
  pub conn : Conn
  pub sended : ℕ
  pub total : ℕ
  pub flushed : ℕ

abbrev pub count_one : Sending → Conn → Sending
count_one st c = record st { conn = c; sended = st.sended + 1; total = st.total + 1 }

-- The loop's rounds: whether it goes on.
module _ (socket : Socket) where
  -- The part behind a flush that the metric did not fit before.
  unfoldable pub retry : List ℕ → Sending → Bool × Sending
  unfolding server_poll sockwrite server_disconnect server_add_failure
  retry m st =
      let (ready, c) = server_poll socket st.conn in
      if ready
      then (elim (sockwrite c m) [
        | some c' ↦ (true, count_one st c')
        | none ↦ (false, record st { conn = server_disconnect (server_add_failure c) })
      ])
      else (false, record st { conn = c })

  unfoldable pub send_metric : List ℕ → Sending → Bool × Sending
  unfolding sockwrite sockflush retry
  send_metric m st = elim (sockwrite st.conn m) [
    | some c ↦ (true, count_one st c)
    | none ↦
        (let (done, c) = sockflush socket st.conn in
          if done
          then retry m (record {
            conn = record c { metrics = (c.metrics + st.sended) % 2 ^ 64 };
            sended = 0;
            total = st.total;
            flushed = st.flushed + st.sended;
          })
          else (false, record st { conn = c }))
  ]

  unfoldable pub send_loop : List (List ℕ) → Sending → Sending
  unfolding send_metric
  send_loop [] st = st
  send_loop (m ∷ ms) st =
      let (go_on, st') = send_metric m st in
      let rest = send_loop ms st' in if go_on then rest else st'

  -- what is in the buffer behind the loop
  unfoldable pub last_flush : Sending → Conn
  unfolding server_poll sockflush server_disconnect server_add_failure
  last_flush st =
      let (ready, c) = server_poll socket st.conn in
      let (done, c') = sockflush socket c in
      if ltb st.flushed st.total
      then if ready then if done then c' else server_disconnect (server_add_failure c') else c
      else st.conn

-- the batch up to its first NULL
unfoldable pub until_null : List (Option (List ℕ)) → List (List ℕ)
until_null [] = []
until_null (none ∷ ps) = []
until_null (some m ∷ ps) = m ∷ until_null ps

-- The queue that metrics are put back to, the `dropped` of its server, and what is freed.
pub record Kept : Type 0 where
  pub queue : Queue (List ℕ)
  pub dropped : ℕ
  pub freed : List (List ℕ)

unfoldable pub put_back : List (List ℕ) → Kept → Kept
unfolding queue_putback
put_back [] k = k
put_back (m ∷ ms) k =
    let (stored, q) = queue_putback k.queue (some m) in
    put_back ms (
      if stored
      then record k { queue = q }
      else record { queue = q; dropped = incr k.dropped; freed = k.freed ++ (m ∷ []) })

-- What `server_queuesend` returns, `none` for -1, and leaves.
pub record Drained : Type 0 where
  pub result : Option ℕ
  pub conn : Conn
  pub kept : Kept

abbrev pub result_of : Conn → ℕ → Option ℕ
result_of c len = elim c.fd [ none ↦ none | some fd ↦ some len ]

-- the end of a batch, of which `flushed` metrics are known to be sent
unfoldable pub settle : List (List ℕ) → ℕ → ℕ → Queue (List ℕ) → ℕ → Conn → Drained
unfolding put_back
settle batch len flushed q dropped c = elim c.fd [
  | some fd ↦ record {
    result = some len;
    conn = record c { failure = if c.failure == 0 then 0 else c.failure - 1 };
    kept = record { queue = q; dropped = dropped; freed = batch };
  }
  | none ↦ record {
    result = none;
    conn = record c { obuf = [] };
    kept =
        put_back (drop flushed batch)
          (record { queue = q; dropped = dropped; freed = take flushed batch });
  }
]

-- A batch of one metric or more, until it is settled.
unfoldable pub send_batch : Socket → Conn → List (List ℕ) → ℕ → Queue (List ℕ) → ℕ → Drained
unfolding send_loop last_flush settle
send_batch socket c batch len squeue dropped =
    let st =
      send_loop socket batch
        (record { conn = record c { alive = true }; sended = 0; total = 0; flushed = 0 }) in
    settle batch len st.flushed squeue dropped (last_flush socket st)

-- the part behind `server_poll`, with what is taken from the queue
unfoldable pub send_dequeued : Socket → Conn → List (Option (List ℕ)) → Queue (List ℕ) → ℕ → Drained
unfolding until_null
send_dequeued socket c ret squeue dropped =
    if length ret == 0
    then record {
      result = result_of c 0;
      conn = c;
      kept = record { queue = squeue; dropped = dropped; freed = [] };
    }
    else send_batch socket c (until_null ret) (length ret) squeue dropped

unfoldable pub server_queuesend : Socket → ℕ → Conn → Queue (List ℕ) → ℕ → Drained
unfolding server_poll queue_dequeue_vector
server_queuesend socket bsize c squeue dropped =
    let (ready, c1) = server_poll socket c in
    let (ret, q) = queue_dequeue_vector squeue bsize in
    if ready then send_dequeued socket c1 ret q dropped else record {
      result = none;
      conn = c1;
      kept = record { queue = squeue; dropped = dropped; freed = [] };
    }
