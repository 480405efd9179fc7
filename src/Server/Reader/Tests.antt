-- ===== src/Server/Reader/Tests.antt =====
-- Runs of `server_queueread`, and each theorem at an input.
use carbon_c_relay.Prelude.{
  ℕ, ◌≡◌, refl, Bool, true, false, none, some, List, [], ◌∷◌, arith, inl, inr, length,
}
use carbon_c_relay.Queue.{Queue, queue_free, queue_len}
use carbon_c_relay.Queue.Inv.{IsValid}
use carbon_c_relay.Server.Conn.{Socket, Conn, writable, took}
use carbon_c_relay.Server.Reader.{Secondary, Reader, Store, throttle, read_idle, server_queueread}
use carbon_c_relay.Server.Reader.Valid.{AllValid}
use carbon_c_relay.Server.Reader.Spared.{server_queueread-Spared}
use carbon_c_relay.Server.Reader.Threshold.{server_queueread-hysteresis}

abbrev empty : Queue (List ℕ)
empty = record { buf = none ∷ none ∷ []; end = 2; write = 0; read = 0; len = 0 }

abbrev full : Queue (List ℕ)
full = record {
  buf = some (b'a' ∷ []) ∷ some (b'b' ∷ []) ∷ [];
  end = 2;
  write = 2;
  read = 0;
  len = 2;
}

full-IsValid : IsValid full
full-IsValid = record {
  cells = refl;
  room = omega arith;
  read_in = omega arith;
  write_in = omega arith;
  len_in = omega arith;
  written = refl;
}

abbrev conn : Conn
conn = record {
  fd = some 7;
  failure = 0;
  alive = true;
  metrics = 0;
  obuf = [];
  wire = [];
  clock = 0;
}

abbrev secondary : Secondary
secondary = record {
  id = 2;
  failures = 0 ∷ [];
  alives = true ∷ [];
  queue = 1;
  qfree_threshold = 1;
  dropped = 0;
  requeue = 0;
}

abbrev reader : Reader
reader = record {
  id = 1;
  is_tcp = true;
  shared_queue = false;
  failover = false;
  queue = 0;
  bsize = 1;
  ttl = 0;
  qfree_threshold = 1;
  threshold_start = 1;
  threshold_end = 2;
  secondaries = secondary ∷ [];
  dropped = 0;
  conn = conn;
}

abbrev socket : Socket
socket = record { poll = λ t. writable; write = λ t l. took (length l) }

abbrev connect : Conn → Bool × Conn
connect c = (false, c)

abbrev busy : Store
busy = record { queues = λ k. full; self = reader; idle = 0 }

-- An idle connection: its counter stays 0, however often this is repeated.
run_idle :
    (server_queueread socket connect false
      (record { queues = λ k. empty; self = record reader { secondaries = [] }; idle = 0 })).1.idle
    ≡ 0
unfolding server_queueread throttle read_idle
run_idle = refl

-- a queue of another server, and that of the secondary, which has as much room as the server's own
server_queueread-Spared_example :
    AllValid (server_queueread socket connect false busy).1.queues
    × ((server_queueread socket connect false busy).1.queues 1 ≡ full)
unfolding queue_free queue_len
server_queueread-Spared_example =
    server_queueread-Spared socket connect false busy 1 (λ k. full-IsValid)
      (refl, inr (λ e. inr (inl (omega arith)), tt))

server_queueread-hysteresis_example :
    (server_queueread socket connect false busy).1.self.qfree_threshold ≡ 2
unfolding queue_free queue_len
server_queueread-hysteresis_example =
    server_queueread-hysteresis socket connect false busy (omega arith) (omega arith) (inl refl)
