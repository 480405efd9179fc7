-- ===== src/Dispatcher/Conn/Tests.antt =====
-- Turns at a connection, and the theorem at one.
use carbon_c_relay.Prelude.Bytes.{codes}
use carbon_c_relay.Prelude.{
  ℕ, ◌≡◌, ◌≤◌, refl, ap, length-take, Bool, true, false, List, [], ◌∷◌, ◌++◌, take, length, arith,
  zero, suc,
}
use carbon_c_relay.Dispatcher.{Config, dispatch_received_metrics}
use carbon_c_relay.Dispatcher.Conn.{
  Read, read_some, read_end, Stream, Incoming, worked, closed, take_in, readbuf_loop, conclude,
  process, read_on, dispatch_connection,
}
use carbon_c_relay.Dispatcher.Conn.Kept.{Fits, Holding, dispatch_connection-Holding}

abbrev config : Config
config = record { tags_supported = false; maxinplen = 100; maxmetriclen = 40; allowed_chars = [] }

abbrev collect : List (List ℕ) → List ℕ → ℕ → List (List ℕ) × Bool
collect s m n = (s ++ (m ∷ []), true)

abbrev resume : List (List ℕ) → List (List ℕ) × Bool
resume s = (s, true)

abbrev none_left : List (List ℕ) → Bool
none_left s = false

-- a stream that gives a byte where there is free_room, and ends where there is none
abbrev one_byte : ℕ → Read
one_byte zero = read_end
one_byte (suc n) = read_some b'\n' []

abbrev stream : Stream
stream = record {
  strmread = one_byte;
  strmreadbuf = (λ n. take n (codes "b 2")) ∷ [];
  overflow = false;
}

abbrev client : ℕ → Incoming (List (List ℕ))
client size = record {
  tally = record { state = []; metrics = 0; discards = 0 };
  buf = codes "a 1";
  bufsize = size;
  needmore = true;
  isaggr = false;
  isudp = false;
}

run_turn :
    (let out = dispatch_connection collect resume none_left config stream (client 8) in
      (out.1 ≡ worked)
      × (out.0.tally.state ≡ (codes "a 1" ++ (b'\n' ∷ [])) ∷ [])
      × (out.0.buf ≡ codes "b 2"))
unfolding dispatch_connection read_on process take_in readbuf_loop conclude
    dispatch_received_metrics
run_turn = (refl, refl, refl)

-- a full buffer without a line end: the connection is closed
run_full : (dispatch_connection collect resume none_left config stream (client 4)).1 ≡ closed
unfolding dispatch_connection read_on conclude
run_full = refl

abbrev read_size : Read → ℕ
read_size (read_some b bs) = length bs
read_size _ = 0

stream-Fits : Fits stream
stream-Fits = record { read = one_byte-fits; readbuf = (λ n. take_three n, tt) }
  where
    take_three : (n : ℕ) → length (take n (codes "b 2")) ≤ n
    take_three n = omega (arith, length-take n (codes "b 2"))

    one_byte-fits : (n b : ℕ) (bs : List ℕ) → one_byte n ≡ read_some b bs → length (b ∷ bs) ≤ n
    one_byte-fits zero b bs e = absurd cc
    one_byte-fits (suc n) b bs e = omega (arith, ap read_size e)

dispatch_connection-Holding_example :
    Holding collect resume none_left config
      (client 8)
      (dispatch_connection collect resume none_left config stream (client 8))
dispatch_connection-Holding_example =
    dispatch_connection-Holding collect resume none_left config stream (client 8) stream-Fits
      (omega arith)
