-- ===== src/Server/Conn/Last.antt =====
-- What the loop and the last flush of a batch leave.
use mathlib.Core.Path.{subst}
use mathlib.Core.List.{append-nil}
use carbon_c_relay.Prelude.{
  ℕ, ◌<◌, ◌≡◌, refl, ◌∙◌, ap, Bool, true, false, none, List, [], ◌++◌, ◌⊎◌, if◌then◌else◌, length,
  arith, Bool-cases, inl, inr, ltb, length-append, lt→ltb, ltb→lt,
}
use carbon_c_relay.Server.Conn.{
  Socket, Conn, server_add_failure, server_disconnect, sockflush, server_poll, Sending, send_loop,
  last_flush,
}
use carbon_c_relay.Server.Conn.Stream.{
  Begins, Begins-refl, Begins-trans, Same, server_add_failure-Same, server_poll-Same, Flush, whole,
  part, sockflush-Flush,
}
use carbon_c_relay.Server.Conn.Rounds.{
  bytes, Same-Begins, Halted, Going-Halted, Halted-Begins, Ran, finished, halted,
}

-- the state of the loop of `server_queuesend` when it ends
abbrev pub sending : Socket → Conn → List (List ℕ) → Sending
sending socket c batch =
    send_loop socket batch
      (record { conn = record c { alive = true }; sended = 0; total = 0; flushed = 0 })

-- The loop ended before it had taken the whole batch, or the socket was not ready for the last flush.
abbrev pub IsStopped : Socket → List (List ℕ) → Sending → Type 0
IsStopped socket batch st = (st.total < length batch) ⊎ ((server_poll socket st.conn).0 ≡ false)

-- What is left for the end of a batch: the bytes are all on the wire, or the loop or the last flush was
-- cut short.
pub data Last (socket : Socket) (w : List ℕ) (batch : List (List ℕ)) (st : Sending) (c : Conn)
    : Type 0 where
  all_sent :
      c.wire ≡ w ++ bytes batch
      → c.obuf ≡ []
      → Halted w batch st.flushed c
      → Last socket w batch st c
  cut :
      Halted w batch st.flushed c
      → (c.fd ≡ none) ⊎ IsStopped socket batch st
      → Last socket w batch st c

-- What the last flush does to a connection whose buffer is to be flushed.
data Flushed (socket : Socket) (c : Conn) (c' : Conn) : Type 0 where
  emptied : c'.wire ≡ c.wire ++ c.obuf → c'.obuf ≡ [] → Flushed socket c c'
  short :
      Begins c'.wire c.wire
      → (c'.fd ≡ none) ⊎ ((server_poll socket c).0 ≡ false)
      → Flushed socket c c'

module _ (socket : Socket) where
  last_flush-Flushed :
      (st : Sending) → st.flushed < st.total → Flushed socket st.conn (last_flush socket st)
  unfolding last_flush server_disconnect
  last_flush-Flushed st l =
      rw (lt→ltb _ _ l)
        (by_poll (server_poll socket st.conn) (server_poll-Same socket st.conn) refl)
    where
      by_flush :
          (c : Conn) (r : Bool × Conn)
          → Same st.conn c
          → Flush c.wire c.obuf r
          → Flushed socket st.conn (if r.0 then r.1 else server_disconnect (server_add_failure r.1))
      by_flush c (true, c') e (whole w o) =
          emptied (w ∙ ap (λ l. l ++ c.obuf) e.0 ∙ ap (λ l. st.conn.wire ++ l) e.1) o
      by_flush c (false, c') e (part b) =
          short
            (Begins-trans _ _ _
              (Same-Begins c' (server_add_failure c') (server_add_failure-Same c'))
              (Begins-trans _ _ _ b (Same-Begins st.conn c e)))
            (inl refl)

      by_poll :
          (r : Bool × Conn)
          → Same st.conn r.1
          → (server_poll socket st.conn).0 ≡ r.0
          → Flushed socket st.conn (
              let (ready, c) = r in
              let (done, c') = sockflush socket c in
              if ready then if done then c' else server_disconnect (server_add_failure c') else c)
      by_poll (false, c) e unready = short (Same-Begins st.conn c e) (inr unready)
      by_poll (true, c) e is_ready = by_flush c (sockflush socket c) e (sockflush-Flush socket c)

  last_flush-Begins : (st : Sending) → Begins (last_flush socket st).wire st.conn.wire
  unfolding last_flush
  last_flush-Begins st = elim (Bool-cases (ltb st.flushed st.total)) [
    | inr no_more ↦ rw (last_flush, no_more) (Begins-refl st.conn.wire)
    | inl more ↦ by_case (last_flush-Flushed st (ltb→lt _ _ more))
  ]
    where
      by_case : {c' : Conn} → Flushed socket st.conn c' → Begins c'.wire st.conn.wire
      by_case (emptied w o) = (st.conn.obuf, w)
      by_case (short b why) = b

  -- The last flush behind a batch of one metric or more.
  pub Ran-Last :
      {w : List ℕ} (batch : List (List ℕ)) (st : Sending)
      → Ran w batch st
      → Last socket w batch st (last_flush socket st)
  Ran-Last batch st (halted h t) =
      cut (Halted-Begins (last_flush socket st) h (last_flush-Begins st)) (inr (inl t))
  Ran-Last {w} batch st (finished g p) = by_case (last_flush socket st) (
      last_flush-Flushed st (
        omega (
          arith,
          g.flushed_all,
          g.held_all,
          g.total_all,
          ap length g.split,
          length-append g.out g.held,
        )))
    where
      ended : (c : Conn) → Begins c.wire st.conn.wire → Halted w batch st.flushed c
      ended c b = subst (λ l. Halted w l st.flushed c) (append-nil batch) (Going-Halted [] c g b)

      by_case : (c : Conn) → Flushed socket st.conn c → Last socket w batch st c
      by_case c (emptied e o) = all_sent (e ∙ g.written) o (ended c (st.conn.obuf, e))
      by_case c (short b (inl closed)) = cut (ended c b) (inl closed)
      by_case c (short b (inr unready)) = cut (ended c b) (inr (inr unready))
