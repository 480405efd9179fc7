-- ===== src/Server/Thread/Tests.antt =====
-- Runs of the thread of a connection, and each theorem at an input.
use carbon_c_relay.Prelude.{
  ℕ, ◌*◌, ◌≡◌, refl, Bool, true, false, some, List, [], ◌∷◌, arith, length,
}
use carbon_c_relay.Queue.{Queue}
use carbon_c_relay.Server.Conn.{Socket, Conn, writable, took}
use carbon_c_relay.Server.Reader.{Reader}
use carbon_c_relay.Server.Thread.{keep_running, stop, Thread, leaves, server_queuereader}
use carbon_c_relay.Server.Thread.Ends.{server_queuereader-ends}

abbrev queue : Queue (List ℕ)
queue = record {
  buf = some (b'a' ∷ []) ∷ some (b'b' ∷ []) ∷ [];
  end = 2;
  write = 2;
  read = 0;
  len = 2;
}

abbrev reader : Reader
reader = record {
  id = 1;
  is_tcp = true;
  shared_queue = false;
  failover = false;
  queue = 0;
  bsize = 1;
  ttl = 0;
  qfree_threshold = 1;
  threshold_start = 1;
  threshold_end = 2;
  secondaries = [];
  dropped = 0;
  conn = record {
    fd = some 7;
    failure = 0;
    alive = true;
    metrics = 0;
    obuf = [];
    wire = [];
    clock = 0;
  };
}

abbrev thread : Thread
thread = record {
  store = record { queues = λ k. queue; self = reader; idle = 0 };
  shutdown_init = keep_running;
  started = 0;
}

abbrev socket : Socket
socket = record { poll = λ t. writable; write = λ t l. took (length l) }

abbrev connect : Conn → Bool × Conn
connect c = (false, c)

-- A server with no secondaries leaves at once, with a full queue.
run_leaves : leaves 120 0 thread ≡ true
unfolding leaves
run_leaves = refl

server_queuereader-ends_example :
    (t' : Thread) × (server_queuereader socket connect 120 (λ n. stop) (λ n. n * 50) 4 0 thread
      ≡ some t')
server_queuereader-ends_example =
    server_queuereader-ends socket connect 120 (λ n. stop) (λ n. n * 50) 3 thread (λ k. refl)
      (omega arith)
