-- ===== src/Server/Conn/Rounds.antt =====
-- The loop of `server_queuesend`: which metrics are on the wire, and which are in the buffer.
use mathlib.Core.List.{append_assoc, append-nil}
use carbon_c_relay.Prelude.{
  ℕ, ◌+◌, ◌<◌, ◌≡◌, refl, sym, ◌∙◌, ap, Bool, true, false, none, some, List, [], ◌∷◌, ◌++◌,
  if◌then◌else◌, length, arith, Bool-cases, inl, inr, ◌⊎◌, ltb, length-append, ◌%◌, ◌^◌,
}
use carbon_c_relay.Server.Conn.{
  Socket, Conn, server_add_failure, server_disconnect, sockwrite, sockflush, server_poll, Sending,
  count_one, retry, send_metric, send_loop, obuf_size,
}
use carbon_c_relay.Server.Conn.Stream.{
  Begins, Begins-refl, Begins-trans, Same, server_add_failure-Same, server_poll-Same, Flush, whole,
  part, sockflush-Flush,
}

abbrev pub bytes : List (List ℕ) → List ℕ
bytes [] = []
bytes (m ∷ ms) = m ++ bytes ms

pub bytes-append : (xs ys : List (List ℕ)) → bytes (xs ++ ys) ≡ bytes xs ++ bytes ys
bytes-append [] ys = refl
bytes-append (x ∷ xs) ys = rw (bytes-append xs ys) (sym (append_assoc x (bytes xs) (bytes ys)))

-- The metrics `out` are behind `w` on the wire.
abbrev pub Reached : List ℕ → List (List ℕ) → List ℕ → Type 0
Reached w out wire = (out ≡ []) ⊎ Begins wire (w ++ bytes out)

pub Reached-Begins :
    (w : List ℕ) (out : List (List ℕ)) {wire wire' : List ℕ}
    → Reached w out wire
    → Begins wire' wire
    → Reached w out wire'
Reached-Begins w out (inl e) b = inl e
Reached-Begins w out (inr r) b = inr (Begins-trans _ _ _ b r)

-- The loop has come as far as `done`: of these the first, `out`, are counted as flushed.
pub record Going (w : List ℕ) (done : List (List ℕ)) (st : Sending) : Type 0 where
  pub out : List (List ℕ)
  pub held : List (List ℕ)
  pub split : done ≡ out ++ held
  pub flushed_all : st.flushed ≡ length out
  pub held_all : st.sended ≡ length held
  pub total_all : st.total ≡ length done
  pub written : st.conn.wire ++ st.conn.obuf ≡ w ++ bytes done
  pub reached : Reached w out st.conn.wire

-- The loop has ended: of the batch, `out` is counted as flushed.
pub record Halted (w : List ℕ) (batch : List (List ℕ)) (flushed : ℕ) (c : Conn) : Type 0 where
  pub out : List (List ℕ)
  pub back : List (List ℕ)
  pub split : batch ≡ out ++ back
  pub flushed_all : flushed ≡ length out
  pub reached : Reached w out c.wire

pub Going-Halted :
    {w : List ℕ} {done : List (List ℕ)} {st : Sending} (rest : List (List ℕ)) (c : Conn)
    → Going w done st
    → Begins c.wire st.conn.wire
    → Halted w (done ++ rest) st.flushed c
Going-Halted rest c g b = record {
  out = g.out;
  back = g.held ++ rest;
  split = ap (λ l. l ++ rest) g.split ∙ append_assoc g.out g.held rest;
  flushed_all = g.flushed_all;
  reached = Reached-Begins _ _ g.reached b;
}

pub Halted-Begins :
    {w : List ℕ} {batch : List (List ℕ)} {n : ℕ} {c : Conn} (c' : Conn)
    → Halted w batch n c
    → Begins c'.wire c.wire
    → Halted w batch n c'
Halted-Begins c' h b = record {
  out = h.out;
  back = h.back;
  split = h.split;
  flushed_all = h.flushed_all;
  reached = Reached-Begins _ _ h.reached b;
}

pub Same-Begins : (c c' : Conn) → Same c c' → Begins c'.wire c.wire
Same-Begins c c' e = ([], e.0 ∙ sym (append-nil c.wire))

-- Another state of the connection, with the same bytes.
Going-Same :
    {w : List ℕ} {done : List (List ℕ)} {st : Sending} (c : Conn)
    → Going w done st
    → Same st.conn c
    → Going w done (record st { conn = c })
Going-Same c g e = record {
  out = g.out;
  held = g.held;
  split = g.split;
  flushed_all = g.flushed_all;
  held_all = g.held_all;
  total_all = g.total_all;
  written = rw (e.0, e.1) g.written;
  reached = rw e.0 g.reached;
}

Going-count_one :
    {w : List ℕ} {done : List (List ℕ)} {st : Sending} (m : List ℕ)
    → Going w done st
    → Going w (done ++ (m ∷ [])) (count_one st (record st.conn { obuf = st.conn.obuf ++ m }))
Going-count_one {w} {done} {st} m g = record {
  out = g.out;
  held = g.held ++ (m ∷ []);
  split = ap (λ l. l ++ (m ∷ [])) g.split ∙ append_assoc g.out g.held (m ∷ []);
  flushed_all = g.flushed_all;
  held_all = omega (arith, g.held_all, length-append g.held (m ∷ []));
  total_all = omega (arith, g.total_all, length-append done (m ∷ []));
  written =
      sym (append_assoc st.conn.wire st.conn.obuf m)
      ∙ ap (λ l. l ++ m) g.written
      ∙ append_assoc w (bytes done) m
      ∙ ap (λ l. w ++ l)
          (sym (bytes-append done (m ∷ []) ∙ ap (λ l. bytes done ++ l) (append-nil m)));
  reached = g.reached;
}

-- A flush that has gone well, and its count.
Going-flushed :
    {w : List ℕ} {done : List (List ℕ)} {st : Sending} (c : Conn)
    → Going w done st
    → c.wire ≡ st.conn.wire ++ st.conn.obuf
    → c.obuf ≡ []
    → Going w done (record {
      conn = record c { metrics = (c.metrics + st.sended) % 2 ^ 64 };
      sended = 0;
      total = st.total;
      flushed = st.flushed + st.sended;
    })
Going-flushed {w} {done} {st} c g e o = record {
  out = done;
  held = [];
  split = sym (append-nil done);
  flushed_all =
      omega (arith, g.flushed_all, g.held_all, ap length g.split, length-append g.out g.held);
  held_all = refl;
  total_all = g.total_all;
  written = rw o (append-nil c.wire ∙ e ∙ g.written);
  reached = inr (rw (e, g.written) (Begins-refl (w ++ bytes done)));
}

-- What a round makes of the loop.
pub data Round (w : List ℕ) (done : List (List ℕ)) (m : List ℕ) : Bool × Sending → Type 0 where
  on : {st : Sending} → Going w (done ++ (m ∷ [])) st → 0 < st.sended → Round w done m (true, st)
  off :
      {st : Sending}
      → Halted w (done ++ (m ∷ [])) st.flushed st.conn
      → st.total ≡ length done
      → Round w done m (false, st)

pub sockwrite-cases :
    (c : Conn) (m : List ℕ)
    → (sockwrite c m ≡ none) ⊎ (sockwrite c m ≡ some (record c { obuf = c.obuf ++ m }))
unfolding sockwrite
sockwrite-cases c m = elim (Bool-cases (ltb obuf_size (length c.obuf + length m))) [
  | inl full ↦ inl (rw full refl)
  | inr room ↦ inr (rw room refl)
]

-- What the loop leaves of a batch.
pub data Ran (w : List ℕ) (batch : List (List ℕ)) (st : Sending) : Type 0 where
  finished : Going w batch st → 0 < st.sended → Ran w batch st
  halted : Halted w batch st.flushed st.conn → st.total < length batch → Ran w batch st

module _ (socket : Socket) where
  retry-Round :
      {w : List ℕ} {done : List (List ℕ)} (m : List ℕ) (st : Sending)
      → Going w done st
      → Round w done m (retry socket m st)
  unfolding retry server_disconnect
  retry-Round {w} {done} m st g =
      polled_round (server_poll socket st.conn) (server_poll-Same socket st.conn)
    where
      polled_round :
          (r : Bool × Conn)
          → Same st.conn r.1
          → Round w done m (
              let (ready, c) = r in
              if ready
              then (elim (sockwrite c m) [
                | some c' ↦ (true, count_one st c')
                | none ↦ (false, record st { conn = server_disconnect (server_add_failure c) })
              ])
              else (false, record st { conn = c }))
      polled_round (false, c) e =
          off (Going-Halted (m ∷ []) c g (Same-Begins st.conn c e)) g.total_all
      polled_round (true, c) e = elim (sockwrite-cases c m) [
        | inl full ↦ rw full (
            off
              (Going-Halted (m ∷ []) (server_disconnect (server_add_failure c)) g (
                Begins-trans _ _ _
                  (Same-Begins c (server_add_failure c) (server_add_failure-Same c))
                  (Same-Begins st.conn c e)))
              g.total_all)
        | inr room ↦ rw room (on (Going-count_one m (Going-Same c g e)) (omega arith))
      ]

  pub send_metric-Round :
      {w : List ℕ} {done : List (List ℕ)} (m : List ℕ) (st : Sending)
      → Going w done st
      → Round w done m (send_metric socket m st)
  unfolding send_metric
  send_metric-Round {w} {done} m st g = elim (sockwrite-cases st.conn m) [
    | inr room ↦ rw (send_metric, room) (on (Going-count_one m g) (omega arith))
    | inl full ↦
        rw (send_metric, full)
          (flushed_round (sockflush socket st.conn) (sockflush-Flush socket st.conn))
  ]
    where
      flushed_round :
          (r : Bool × Conn)
          → Flush st.conn.wire st.conn.obuf r
          → Round w done m (
              let (done', c) = r in
              if done'
              then retry socket m (record {
                conn = record c { metrics = (c.metrics + st.sended) % 2 ^ 64 };
                sended = 0;
                total = st.total;
                flushed = st.flushed + st.sended;
              })
              else (false, record st { conn = c }))
      flushed_round (true, c) (whole e o) = retry-Round m _ (Going-flushed c g e o)
      flushed_round (false, c) (part b) = off (Going-Halted (m ∷ []) c g b) g.total_all

  pub send_loop-Ran :
      {w : List ℕ} (done ms : List (List ℕ)) (st : Sending)
      → Going w done st
      → (0 < st.sended) ⊎ (0 < length ms)
      → Ran w (done ++ ms) (send_loop socket ms st)
  unfolding send_loop
  send_loop-Ran {w} done [] st g (inl p) = rw (append-nil done) (finished g p)
  send_loop-Ran {w} done [] st g (inr p) = absurd (omega arith)
  send_loop-Ran {w} done (m ∷ ms) st g p =
      by_round (send_metric socket m st) (send_metric-Round m st g)
        (λ st' g' p'. send_loop-Ran (done ++ (m ∷ [])) ms st' g' (inl p'))
    where
      assoc : done ++ (m ∷ []) ++ ms ≡ done ++ (m ∷ ms)
      assoc = append_assoc done (m ∷ []) ms

      by_round :
          (r : Bool × Sending)
          → Round w done m r
          → ((st' : Sending)
              → Going w (done ++ (m ∷ [])) st'
              → 0 < st'.sended
              → Ran w (done ++ (m ∷ []) ++ ms) (send_loop socket ms st'))
          → Ran w (done ++ (m ∷ ms)) (
              let (go_on, st') = r in
              let rest = send_loop socket ms st' in if go_on then rest else st')
      by_round (true, st') (on g' p') ih = rw (← assoc) (ih st' g' p')
      by_round (false, st') (off h t) ih =
          halted
            (record {
              out = h.out;
              back = h.back ++ ms;
              split = sym assoc ∙ ap (λ l. l ++ ms) h.split ∙ append_assoc h.out h.back ms;
              flushed_all = h.flushed_all;
              reached = h.reached;
            })
            (omega (arith, t, length-append done (m ∷ ms)))
