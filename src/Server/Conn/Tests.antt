-- ===== src/Server/Conn/Tests.antt =====
-- Runs of `server_queuesend`, and each theorem at an input.
use carbon_c_relay.Prelude.{
  ℕ, ◌≡◌, refl, false, some, List, [], ◌∷◌, arith, if◌then◌else◌, ◌==◌, length,
}
use carbon_c_relay.Queue.{Queue, queue_dequeue_vector, read_vector}
use carbon_c_relay.Queue.Inv.{IsValid}
use carbon_c_relay.Server.Conn.{
  Socket, Conn, Poll, writable, hung_up, timed_out, took, server_queuesend, send_dequeued,
  send_batch, sockflush, flush_loop,
}
use carbon_c_relay.Server.Conn.Delivery.{Delivered, server_queuesend-Delivered}

abbrev queue : Queue (List ℕ)
queue = record {
  buf = some (b'a' ∷ []) ∷ some (b'b' ∷ []) ∷ some (b'c' ∷ []) ∷ [];
  end = 3;
  write = 3;
  read = 0;
  len = 3;
}

queue-IsValid : IsValid queue
queue-IsValid = record {
  cells = refl;
  room = omega arith;
  read_in = omega arith;
  write_in = omega arith;
  len_in = omega arith;
  written = refl;
}

abbrev conn : Conn
conn = record {
  fd = some 7;
  failure = 0;
  alive = false;
  metrics = 0;
  obuf = [];
  wire = [];
  clock = 0;
}

-- a socket that can be written to once, and then answers `p`
abbrev once : Poll → Socket
once p = record { poll = λ t. if t == 0 then writable else p; write = λ t l. took (length l) }

-- The first two metrics are sent.
run_sent :
    ((server_queuesend (once writable) 2 conn queue 0).conn.wire ≡ b'a' ∷ b'b' ∷ [])
    × ((server_queuesend (once writable) 2 conn queue 0).result ≡ some 2)
unfolding server_queuesend send_dequeued send_batch queue_dequeue_vector read_vector sockflush
    flush_loop
run_sent = (refl, refl)

-- A timeout closes the connection, and the batch goes back to the queue in reverse.
run_returned :
    (server_queuesend (once timed_out) 2 conn queue 0).kept.queue.buf
    ≡ some (b'b' ∷ []) ∷ some (b'a' ∷ []) ∷ some (b'c' ∷ []) ∷ []
unfolding server_queuesend send_dequeued send_batch queue_dequeue_vector read_vector sockflush
    flush_loop
run_returned = refl

-- The peer hangs up: the batch is freed, and nothing of it is sent.
run_lost :
    ((server_queuesend (once hung_up) 2 conn queue 0).conn.wire ≡ [])
    × ((server_queuesend (once hung_up) 2 conn queue 0).kept.freed ≡ (b'a' ∷ []) ∷ (b'b' ∷ []) ∷ [])
    × ((server_queuesend (once hung_up) 2 conn queue 0).kept.queue.len ≡ 1)
unfolding server_queuesend send_dequeued send_batch queue_dequeue_vector read_vector sockflush
    flush_loop
run_lost = (refl, refl, refl)

abbrev ready : Socket
ready = record { poll = λ t. writable; write = λ t l. took (length l) }

server_queuesend-Delivered_example :
    Delivered conn
      ((b'a' ∷ []) ∷ (b'b' ∷ []) ∷ [])
      ((b'c' ∷ []) ∷ [])
      0
      (server_queuesend ready 2 conn queue 0)
server_queuesend-Delivered_example =
    server_queuesend-Delivered ready 6 (λ t. refl) (λ t p. refl) conn refl 2 queue 0
      ((b'a' ∷ []) ∷ (b'b' ∷ []) ∷ (b'c' ∷ []) ∷ []) queue-IsValid refl (omega arith)
      (omega arith, (omega arith, tt))
