-- ===== src/Server/Conn/Delivery.antt =====
-- A socket that takes all it is given: the batch is delivered.
use mathlib.Core.Path.{subst}
use mathlib.Core.List.{append_assoc, append-nil}
use carbon_c_relay.Queue.{Queue, queue_dequeue_vector}
use carbon_c_relay.Queue.Fifo
use carbon_c_relay.Queue.Inv.{IsValid, contents}
use carbon_c_relay.Queue.Batch.{queue_dequeue_vector_refines}
use carbon_c_relay.Server.Conn.Returns.{begin}
use carbon_c_relay.Server.Conn.Back.{until_null-some, take-some, drop-some, suc-ne-zero}
use carbon_c_relay.Prelude.{
  length-append, length-map, ℕ, zero, suc, ◌+◌, ◌≤◌, ◌<◌, ◌≡◌, refl, sym, ◌∙◌, ap, Bool, true,
  false, Option, none, some, List, [], ◌∷◌, ◌++◌, map, if◌then◌else◌, ◌==◌, length, take, drop,
  arith, Bool-cases, inl, inr, ◌⊎◌, ltb, lt→ltb, ==_iff,
}
use carbon_c_relay.Server.Conn.{
  Socket, Conn, writable, took, tick, sockwrite, flush_loop, sockflush, polled, server_poll,
  Sending, retry, send_metric, send_loop, last_flush, obuf_size, settle, Drained, send_batch,
  send_dequeued, server_queuesend,
}
use carbon_c_relay.Server.Conn.Stream.{Flush, whole, part, sockflush-Flush}
use carbon_c_relay.Server.Conn.Rounds.{
  bytes, Going, Round, on, off, sockwrite-cases, send_metric-Round,
}

abbrev pub AllFit : List (List ℕ) → Type 0
AllFit [] = Unit
AllFit (m ∷ ms) = (length m ≤ obuf_size) × AllFit ms

fits :
    (c : Conn) (m : List ℕ)
    → c.obuf ≡ []
    → length m ≤ obuf_size
    → (c' : Conn) × (sockwrite c m ≡ some c') × (c'.fd ≡ c.fd)
unfolding sockwrite
fits c m o l =
    let small : ltb obuf_size (length c.obuf + length m) ≡ false = rw o (ground (arith, l)) in
    (record c { obuf = c.obuf ++ m }, rw (sockwrite, small) refl, refl)

whole_flush :
    {w p : List ℕ} (r : Bool × Conn)
    → Flush w p r
    → r.0 ≡ true
    → (r.1.wire ≡ w ++ p) × (r.1.obuf ≡ [])
whole_flush (true, c') (whole e o) h = (e, o)
whole_flush (false, c') (part b) h = cc

module _ (socket : Socket) (f : ℕ) (polls : (t : ℕ) → socket.poll t ≡ writable)
    (takes : (t : ℕ) (p : List ℕ) → socket.write t p ≡ took (length p)) where
  good_poll : (c : Conn) → c.fd ≡ some (suc f) → server_poll socket c ≡ (true, tick c)
  unfolding server_poll polled
  good_poll c h = by_fd c.fd h
    where
      by_fd :
          (o : Option ℕ)
          → o ≡ some (suc f)
          → (elim o as (λ _. Bool × Conn) [
            | none ↦ (false, c)
            | some fd ↦ if fd == 0 then (false, c) else polled (socket.poll c.clock) (tick c)
          ])
            ≡ (true, tick c)
      by_fd none h' = cc
      by_fd (some zero) h' = cc
      by_fd (some (suc k)) h' = rw (suc-ne-zero k, polls c.clock) refl

  good_loop :
      (n : ℕ) (p : List ℕ) (c : Conn)
      → ((flush_loop socket (suc n) p c).0 ≡ true) × ((flush_loop socket (suc n) p c).1.fd ≡ c.fd)
  unfolding flush_loop
  good_loop n p c =
      rw (flush_loop, takes c.clock p, (==_iff (length p) (length p)).1 refl) (refl, refl)

  good_flush : (c : Conn) → ((sockflush socket c).0 ≡ true) × ((sockflush socket c).1.fd ≡ c.fd)
  unfolding sockflush
  good_flush c = elim (Bool-cases (length c.obuf == 0)) [
    | inl empty ↦ rw (sockflush, empty) (refl, refl)
    | inr full ↦ rw (sockflush, full) (good_loop 9 c.obuf c)
  ]

  good_retry :
      (m : List ℕ) (st : Sending)
      → st.conn.fd ≡ some (suc f)
      → st.conn.obuf ≡ []
      → length m ≤ obuf_size
      → ((retry socket m st).0 ≡ true) × ((retry socket m st).1.conn.fd ≡ some (suc f))
  unfolding retry
  good_retry m st h o l =
      let (c', w, same) = fits (tick st.conn) m o l in
      rw (retry, good_poll st.conn h, w) (refl, same ∙ h)

  good_metric :
      (m : List ℕ) (st : Sending)
      → st.conn.fd ≡ some (suc f)
      → length m ≤ obuf_size
      → ((send_metric socket m st).0 ≡ true) × ((send_metric socket m st).1.conn.fd ≡ some (suc f))
  unfolding send_metric
  good_metric m st h l = elim (sockwrite-cases st.conn m) [
    | inr room ↦ rw (send_metric, room) (refl, h)
    | inl full ↦
        (let flush = good_flush st.conn in
          rw (send_metric, full, flush.0)
            (good_retry m _ (flush.1 ∙ h)
              (whole_flush (sockflush socket st.conn) (sockflush-Flush socket st.conn) flush.0).1
              l))
  ]

  went_on :
      {w : List ℕ} {done : List (List ℕ)} {m : List ℕ} (r : Bool × Sending)
      → Round w done m r
      → r.0 ≡ true
      → Going w (done ++ (m ∷ [])) r.1 × (0 < r.1.sended)
  went_on (true, st) (on g p) h = (g, p)
  went_on (false, st) (off b t) h = cc

  record Done (w : List ℕ) (batch : List (List ℕ)) (st : Sending) : Type 0 where
    all : Going w batch st
    some_sent : 0 < st.sended
    connected : st.conn.fd ≡ some (suc f)

  good_send_loop :
      {w : List ℕ} (done ms : List (List ℕ)) (st : Sending)
      → Going w done st
      → st.conn.fd ≡ some (suc f)
      → AllFit ms
      → (0 < st.sended) ⊎ (0 < length ms)
      → Done w (done ++ ms) (send_loop socket ms st)
  unfolding send_loop
  good_send_loop {w} done [] st g h l (inl p) =
      rw (append-nil done) (record { all = g; some_sent = p; connected = h })
  good_send_loop done [] st g h l (inr p) = absurd (omega arith)
  good_send_loop {w} done (m ∷ ms) st g h l p =
      let (yes_on, open_fd) = good_metric m st h l.0 in
      let st' = (send_metric socket m st).1 in
      let (g', p') = went_on (send_metric socket m st) (send_metric-Round socket m st g) yes_on in
      rw (send_loop, yes_on)
        (subst (λ b. Done w b (send_loop socket ms st')) (append_assoc done (m ∷ []) ms)
          (good_send_loop (done ++ (m ∷ [])) ms st' g' open_fd l.1 (inl p')))

  good_last :
      {w : List ℕ} (batch : List (List ℕ)) (st : Sending)
      → Done w batch st
      → let c' = last_flush socket st in (c'.fd ≡ some (suc f)) × (c'.wire ≡ w ++ bytes batch)
  unfolding last_flush
  good_last batch st d =
      let more : st.flushed < st.total = omega (
        arith,
        d.all.flushed_all,
        d.all.held_all,
        d.all.total_all,
        d.some_sent,
        ap length d.all.split,
        length-append d.all.out d.all.held,
      ) in
      let flush = good_flush (tick st.conn) in
      let taken =
        whole_flush (sockflush socket (tick st.conn)) (sockflush-Flush socket (tick st.conn))
          flush.0 in
      rw (last_flush, lt→ltb st.flushed st.total more, good_poll st.conn d.connected, flush.0)
        (flush.1 ∙ d.connected, taken.0 ∙ d.all.written)

-- What a delivery of a batch in front of others leaves.
pub record Delivered (c : Conn) (batch rest : List (List ℕ)) (dropped : ℕ) (r : Drained)
    : Type 0 where
  pub on_wire : r.conn.wire ≡ c.wire ++ c.obuf ++ bytes batch
  pub answer : r.result ≡ some (length batch)
  pub entries : contents r.kept.queue ≡ map some rest
  pub freed_batch : r.kept.freed ≡ batch
  pub none_dropped : r.kept.dropped ≡ dropped

settle-Delivered :
    (f : ℕ) (c : Conn) (batch rest : List (List ℕ)) (flushed : ℕ) (q : Queue (List ℕ)) (dropped : ℕ)
    (c' : Conn)
    → c'.fd ≡ some (suc f)
    → c'.wire ≡ c.wire ++ c.obuf ++ bytes batch
    → contents q ≡ map some rest
    → Delivered c batch rest dropped (settle batch (length batch) flushed q dropped c')
unfolding settle
settle-Delivered f c batch rest flushed q dropped c' h w e =
    rw (settle, h)
      (record { on_wire = w; answer = refl; entries = e; freed_batch = refl; none_dropped = refl })

module _ (socket : Socket) (f : ℕ) (polls : (t : ℕ) → socket.poll t ≡ writable)
    (takes : (t : ℕ) (p : List ℕ) → socket.write t p ≡ took (length p)) (c : Conn)
    (opened : c.fd ≡ some (suc f)) where
  send_batch-Delivered :
      (m : List ℕ) (ms rest : List (List ℕ)) (q : Queue (List ℕ)) (dropped : ℕ)
      → AllFit (m ∷ ms)
      → contents q ≡ map some rest
      → Delivered c
          (m ∷ ms)
          rest
          dropped
          (send_batch socket (tick c) (m ∷ ms) (length (m ∷ ms)) q dropped)
  unfolding send_batch
  send_batch-Delivered m ms rest q dropped l e =
      let st0 : Sending = record {
        conn = record (tick c) { alive = true };
        sended = 0;
        total = 0;
        flushed = 0;
      } in
      let st = send_loop socket (m ∷ ms) st0 in
      let sent =
        good_send_loop socket f polls takes [] (m ∷ ms) st0
          (begin c st0 refl refl refl (refl, refl)) opened l (inr (omega arith)) in
      let last = good_last socket f polls takes (m ∷ ms) st sent in
      settle-Delivered f c (m ∷ ms) rest st.flushed q dropped (last_flush socket st) last.0 last.1 e

  send_dequeued-Delivered :
      (batch rest : List (List ℕ)) (q : Queue (List ℕ)) (dropped : ℕ)
      → 0 < length batch
      → AllFit batch
      → contents q ≡ map some rest
      → Delivered c batch rest dropped (send_dequeued socket (tick c) (map some batch) q dropped)
  unfolding send_dequeued
  send_dequeued-Delivered [] rest q dropped p l e = absurd (omega arith)
  send_dequeued-Delivered (m ∷ ms) rest q dropped p l e =
      rw (until_null-some (m ∷ ms), length-map ms (λ (k : List ℕ). some k), suc-ne-zero (length ms))
        (send_batch-Delivered m ms rest q dropped l e)

  -- If the socket is always ready and takes all it is given, the connection is open, the queue is valid
  -- and holds metrics, none NULL, and the batch has one or more of them, each within the buffer's size,
  -- then the batch is on the wire in order, behind what was in the buffer, and its length is returned.
  -- The batch is freed, the queue keeps the rest, and nothing is dropped.
  pub server_queuesend-Delivered :
      (bsize : ℕ) (q : Queue (List ℕ)) (dropped : ℕ) (ms : List (List ℕ))
      → IsValid q
      → contents q ≡ map some ms
      → 0 < length (take bsize ms)
      → AllFit (take bsize ms)
      → Delivered c
          (take bsize ms)
          (drop bsize ms)
          dropped
          (server_queuesend socket bsize c q dropped)
  unfolding server_queuesend Fifo.dequeue_vector
  server_queuesend-Delivered bsize q dropped ms v e p l =
      let r = queue_dequeue_vector q bsize in
      let got = (queue_dequeue_vector_refines q bsize v).0 in
      let first : r.0 ≡ map some (take bsize ms) =
        ap (λ x. x.0) got ∙ ap (take bsize) e ∙ take-some bsize ms in
      let left : contents r.1 ≡ map some (drop bsize ms) =
        ap (λ x. x.1) got ∙ ap (drop bsize) e ∙ drop-some bsize ms in
      rw (server_queuesend, good_poll socket f polls takes c opened)
        (subst
          (λ ret.
            Delivered c (take bsize ms) (drop bsize ms) dropped
              (send_dequeued socket (tick c) ret r.1 dropped))
          (sym first)
          (send_dequeued-Delivered (take bsize ms) (drop bsize ms) r.1 dropped p l left))
