-- ===== src/Dispatcher/Conn/Kept.antt =====
-- The buffer of a connection never overflows, and a connection is closed only when it has nothing left.
use carbon_c_relay.Prelude.{
  ℕ, ◌+◌, ◌<◌, ◌≤◌, ◌≡◌, refl, ◌∙◌, Bool, true, false, not, ◌&&◌, ◌||◌, List, [], ◌∷◌, ◌++◌,
  if◌then◌else◌, ◌==◌, ltb, length, arith, Bool-cases, inl, inr, length-append,
}
use carbon_c_relay.Dispatcher.{
  Config, Scan, Tally, Left, start, step, end_line, separator, plain, account, received,
  dispatch_received_metrics, is_newline,
}
use carbon_c_relay.Dispatcher.Conn.{
  Read, read_some, read_end, read_blocked, read_failed, Stream, Incoming, Worked, stalled, closed,
  idle, worked, take_in, free_room, readbuf_loop, conclude, process, read_on, dispatch_connection,
}

-- A byte makes the bytes that are done at most one longer.
step-length :
    (cfg : Config) (s : Scan) (c : ℕ) → length (step cfg s c).0.pending ≤ length s.pending + 1
unfolding step separator plain end_line
step-length cfg s c = elim (Bool-cases (is_newline c)) [
  | inl newline ↦ ground (arith, length-append s.pending (c ∷ []))
  | inr other ↦ ground (
    arith,
    length-append s.pending (b' ' ∷ []),
    length-append s.pending (c ∷ []),
    length-append s.pending (b'.' ∷ []),
  )
]

abbrev pub AllFit : List (ℕ → List ℕ) → Type 0
AllFit [] = Unit
AllFit (f ∷ fs) = ((n : ℕ) → length (f n) ≤ n) × AllFit fs

-- what is asked of a stream: reads return no more than they are given room for
pub record Fits (io : Stream) : Type 0 where
  pub read : (n b : ℕ) (bs : List ℕ) → io.strmread n ≡ read_some b bs → length (b ∷ bs) ≤ n
  pub readbuf : AllFit io.strmreadbuf

module _ {S : Type 0} (deliver : S → List ℕ → ℕ → S × Bool) (resume : S → S × Bool)
    (has_dests : S → Bool) (cfg : Config) where
  received-length :
      (t : Tally S) (s : Scan) (cs : List ℕ)
      → length (received deliver cfg t s cs).buf ≤ length s.pending + length cs
  unfolding received
  received-length t s [] = omega arith
  received-length t s (c ∷ cs) =
      go_on (account deliver t (step cfg s c).1).1
        (received-length (account deliver t (step cfg s c).1).0 (step cfg s c).0 cs)
    where
      go_on :
          (b : Bool)
          → length
              (received deliver cfg (account deliver t (step cfg s c).1).0 (step cfg s c).0 cs).buf
            ≤ length (step cfg s c).0.pending + length cs
          → length
              (elim b as (λ x. Left S) [
                | true ↦
                    received deliver cfg (account deliver t (step cfg s c).1).0 (step cfg s c).0 cs
                | false ↦ record {
                  tally = (account deliver t (step cfg s c).1).0;
                  buf = cs;
                  needmore = false;
                }
              ]).buf
            ≤ length s.pending + length (c ∷ cs)
      go_on true h = omega (arith, h, step-length cfg s c)
      go_on false h = omega arith

  -- What a part of a turn leaves of a connection.
  pub record Holding (c : Incoming S) (out : Incoming S × Worked) : Type 0 where
    pub size : out.0.bufsize ≡ c.bufsize
    pub fits : length out.0.buf < out.0.bufsize
    pub done :
        out.1 ≡ closed
        → (has_dests out.0.tally.state ≡ false) × (out.0.isaggr ≡ false) × (out.0.isudp ≡ false)

  take_in-fits :
      (c : Incoming S) (bytes : List ℕ)
      → length c.buf < c.bufsize
      → length bytes ≤ free_room c
      → length (take_in deliver cfg c bytes).buf < (take_in deliver cfg c bytes).bufsize
  unfolding take_in dispatch_received_metrics
  take_in-fits c bytes h k =
      omega (
        arith,
        received-length c.tally (start cfg) (c.buf ++ bytes),
        length-append c.buf bytes,
        h,
        k,
      )

  conclude-Holding :
      (ended : Bool) (c : Incoming S)
      → length c.buf < c.bufsize
      → Holding c (conclude has_dests ended c)
  unfolding conclude
  conclude-Holding ended c h = by_end (ended || c.isudp)
    where
      by_dests :
          (b d e : Bool)
          → has_dests c.tally.state ≡ b
          → c.isaggr ≡ d
          → c.isudp ≡ e
          → Holding c (
              if d || e
              then (record c { needmore = true; buf = [] }, idle)
              else if b
              then (c, worked)
              else (c, closed))
      by_dests b true e hb hd he = record {
        size = refl;
        fits = omega (arith, h);
        done = λ t. absurd cc;
      }
      by_dests b false true hb hd he = record {
        size = refl;
        fits = omega (arith, h);
        done = λ t. absurd cc;
      }
      by_dests true false false hb hd he = record { size = refl; fits = h; done = λ t. absurd cc }
      by_dests false false false hb hd he = record {
        size = refl;
        fits = h;
        done = λ t. (hb, hd, he);
      }

      by_end :
          (b : Bool)
          → Holding c (
              if b
              then if c.isaggr || c.isudp
                then (record c { needmore = true; buf = [] }, idle)
                else if has_dests c.tally.state
                then (c, worked)
                else (c, closed)
              else (c, worked))
      by_end true = by_dests (has_dests c.tally.state) c.isaggr c.isudp refl refl refl
      by_end false = record { size = refl; fits = h; done = λ t. absurd cc }

  Holding-of :
      {c c' : Incoming S} {out : Incoming S × Worked}
      → c'.bufsize ≡ c.bufsize
      → Holding c' out
      → Holding c out
  Holding-of e k = record { size = k.size ∙ e; fits = k.fits; done = k.done }

  readbuf_loop-fits :
      (fs : List (ℕ → List ℕ)) (c : Incoming S)
      → AllFit fs
      → length c.buf < c.bufsize
      → (length (readbuf_loop deliver cfg fs c).buf < (readbuf_loop deliver cfg fs c).bufsize)
        × ((readbuf_loop deliver cfg fs c).bufsize ≡ c.bufsize)
  unfolding readbuf_loop take_in
  readbuf_loop-fits [] c a h = (h, refl)
  readbuf_loop-fits (f ∷ fs) c a h = by_bytes (length (f (free_room c)) == 0) (
      readbuf_loop-fits fs (take_in deliver cfg c (f (free_room c))) a.1
        (take_in-fits c (f (free_room c)) h (a.0 (free_room c))))
    where
      rest : Incoming S
      rest = readbuf_loop deliver cfg fs (take_in deliver cfg c (f (free_room c)))

      by_bytes :
          (b : Bool)
          → (length rest.buf < rest.bufsize) × (rest.bufsize ≡ c.bufsize)
          → (length (if b then c else rest).buf < (if b then c else rest).bufsize)
            × ((if b then c else rest).bufsize ≡ c.bufsize)
      by_bytes true k = (h, refl)
      by_bytes false k = k

  process-Holding :
      (io : Stream) (c : Incoming S) (bytes : List ℕ)
      → Fits io
      → length c.buf < c.bufsize
      → length bytes ≤ free_room c
      → Holding c (process deliver has_dests cfg io c bytes)
  unfolding process take_in
  process-Holding io c bytes f h k =
      let rest =
        readbuf_loop-fits io.strmreadbuf (take_in deliver cfg c bytes) f.readbuf
          (take_in-fits c bytes h k) in
      Holding-of rest.1 (
        conclude-Holding io.overflow
          (readbuf_loop deliver cfg io.strmreadbuf (take_in deliver cfg c bytes)) rest.0)

  read_on-Holding :
      (io : Stream) (c : Incoming S)
      → Fits io
      → length c.buf < c.bufsize
      → Holding c (read_on deliver has_dests cfg io c)
  unfolding read_on
  read_on-Holding io c f h = by_work (not c.needmore && ltb 0 (length c.buf))
    where
      by_read :
          (r : Read)
          → io.strmread (free_room c) ≡ r
          → Holding c (elim r [
            | read_some b bs ↦ process deliver has_dests cfg io c (b ∷ bs)
            | read_end ↦ conclude has_dests true c
            | read_blocked ↦ (c, idle)
            | read_failed ↦ conclude has_dests true c
          ])
      by_read (read_some b bs) e = process-Holding io c (b ∷ bs) f h (f.read (free_room c) b bs e)
      by_read read_end e = conclude-Holding true c h
      by_read read_blocked e = record { size = refl; fits = h; done = λ t. absurd cc }
      by_read read_failed e = conclude-Holding true c h

      by_work :
          (b : Bool)
          → Holding c (
              if b
              then process deliver has_dests cfg io c []
              else (elim (io.strmread (free_room c)) [
                | read_some x bs ↦ process deliver has_dests cfg io c (x ∷ bs)
                | read_end ↦ conclude has_dests true c
                | read_blocked ↦ (c, idle)
                | read_failed ↦ conclude has_dests true c
              ]))
      by_work true = process-Holding io c [] f h (omega arith)
      by_work false = by_read (io.strmread (free_room c)) refl

  -- If the reads return no more than they are given room for, and the bytes in the buffer are fewer than
  -- its size: behind a turn they still are, whatever was read; and a connection is closed only
  -- if no metric of it is left for its destinations and it is neither an aggregator's nor UDP.
  pub dispatch_connection-Holding :
      (io : Stream) (c : Incoming S)
      → Fits io
      → length c.buf < c.bufsize
      → Holding c (dispatch_connection deliver resume has_dests cfg io c)
  unfolding dispatch_connection
  dispatch_connection-Holding io c f h = by_rest (resume c.tally.state).1
    where
      c' : Incoming S
      c' = record c { tally = record c.tally { state = (resume c.tally.state).0 } }

      by_rest :
          (b : Bool) → Holding c (if b then read_on deliver has_dests cfg io c' else (c', stalled))
      by_rest true = Holding-of {c' = c'} refl (read_on-Holding io c' f h)
      by_rest false = record { size = refl; fits = h; done = λ t. absurd cc }
