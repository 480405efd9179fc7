-- ===== src/Server/Conn/Returns.antt =====
-- What becomes of the metrics that `server_queuesend` takes from a queue.
use mathlib.Core.List.{append-nil}
use carbon_c_relay.Prelude.{ℕ, ◌≡◌, refl, sym, none, some, List, [], ◌++◌, length, inl}
use carbon_c_relay.Queue.{Queue}
use carbon_c_relay.Queue.Fifo
use carbon_c_relay.Server.Conn.{Socket, Conn, Sending, Drained}
use carbon_c_relay.Server.Conn.Stream.{Begins, Same}
use carbon_c_relay.Server.Conn.Rounds.{bytes, Reached, Going}
use carbon_c_relay.Server.Conn.Back.{onto, Back}
use carbon_c_relay.Server.Conn.Last.{IsStopped, Last}

-- The four ways in which a call ends, of a batch in front of others in a queue; `st` is what the loop
-- over the batch leaves.
pub data Ending (socket : Socket) (st : Sending) (c : Conn) (batch rest : List (List ℕ))
    (dropped : ℕ) (r : Drained) : Type 0 where
  -- Nothing is sent, and the queue keeps all.
  idle :
      Back (batch ++ rest) dropped [] r.kept
      → Begins r.conn.wire c.wire
      → Ending socket st c batch rest dropped r
  -- All is on the wire, behind what was in the buffer.
  delivered :
      Back rest dropped batch r.kept
      → r.conn.wire ≡ c.wire ++ c.obuf ++ bytes batch
      → r.conn.obuf ≡ []
      → r.result ≡ some (length batch)
      → Ending socket st c batch rest dropped r
  -- The connection is closed. The metrics `out`, as many as are counted as flushed, are on the wire and
  -- are freed; the others are in the queue, last first.
  returned :
      (out back : List (List ℕ))
      → batch ≡ out ++ back
      → length out ≡ st.flushed
      → Back (onto back rest) dropped out r.kept
      → Reached (c.wire ++ c.obuf) out r.conn.wire
      → r.conn.fd ≡ none
      → r.conn.obuf ≡ []
      → r.result ≡ none
      → Ending socket st c batch rest dropped r
  -- The connection is open, but the loop or the last flush was stopped. The metrics `out`, as many as
  -- are counted as flushed, are on the wire; all are freed.
  lost :
      (out held : List (List ℕ))
      → batch ≡ out ++ held
      → length out ≡ st.flushed
      → IsStopped socket batch st
      → (fd : ℕ) → r.conn.fd ≡ some fd
      → Back rest dropped batch r.kept
      → Reached (c.wire ++ c.obuf) out r.conn.wire
      → r.result ≡ some (length batch)
      → Ending socket st c batch rest dropped r

pub begin :
    (c : Conn) (st : Sending)
    → st.sended ≡ 0
    → st.total ≡ 0
    → st.flushed ≡ 0
    → Same c st.conn
    → Going (c.wire ++ c.obuf) [] st
begin c st a b f e' = record {
  out = [];
  held = [];
  split = refl;
  flushed_all = f;
  held_all = a;
  total_all = b;
  written = rw (e'.0, e'.1) (sym (append-nil (c.wire ++ c.obuf)));
  reached = inl refl;
}
