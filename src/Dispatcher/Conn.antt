-- ===== src/Dispatcher/Conn.antt =====
-- dispatcher.c: `dispatch_connection`, a turn of a worker at a connection. The stream of the
-- connection is a parameter: what its reads return for the room they are given.
pub mod Kept
mod Tests
use carbon_c_relay.Prelude.{
  ℕ, ◌+◌, ◌-◌, ◌<◌, ◌≤◌, ◌≡◌, refl, sym, ◌∙◌, ap, Bool, true, false, not, ◌&&◌, ◌||◌, Option, none,
  some, List, [], ◌∷◌, ◌++◌, if◌then◌else◌, ◌==◌, ltb, length, arith, Bool-cases, inl, inr,
  length-append,
}
use carbon_c_relay.Dispatcher.{
  Config, Scan, Tally, Left, start, step, end_line, separator, first_space, repeated, plain, unfit,
  account, received, dispatch_received_metrics,
}

-- a call of `strmread`: bytes, at least one; the end; nothing for now (EINTR, EAGAIN); a failure
pub data Read : Type 0 where
  read_some : ℕ → List ℕ → Read
  read_end read_blocked read_failed : Read

-- The stream: `strmread`, the calls of `strmreadbuf` in their order, none if it is NULL, where no bytes
-- end the loop; and whether that loop ends with ENOMEM.
pub record Stream : Type 0 where
  pub strmread : ℕ → Read
  pub strmreadbuf : List (ℕ → List ℕ)
  pub overflow : Bool

-- What the function uses of `struct _connection`, with the counters of the dispatcher.
pub record Incoming (S : Type 0) : Type 0 where
  pub tally : Tally S
  pub buf : List ℕ
  pub bufsize : ℕ
  pub needmore : Bool
  pub isaggr : Bool
  pub isudp : Bool

-- How a turn ends: a destination refuses a metric still, the connection is closed (both 0), there is
-- nothing to do (-1), or something was done (1). Only a closed connection is not released.
pub data Worked : Type 0 where
  stalled closed idle worked : Worked

module _ {S : Type 0} where
  abbrev pub free_room : Incoming S → ℕ
  free_room c = c.bufsize - 1 - length c.buf

  -- the end of a turn, after a failure or the end of the stream, or not
  unfoldable pub conclude : (S → Bool) → Bool → Incoming S → Incoming S × Worked
  conclude has_dests ended c =
      if ended || c.isudp
      then if c.isaggr || c.isudp
        then (record c { needmore = true; buf = [] }, idle)
        else if has_dests c.tally.state
        then (c, worked)
        else (c, closed)
      else (c, worked)

-- `deliver` is as for `dispatch_received_metrics`; `resume` offers the metrics that are left to their
-- servers (`dispatch_process_dests`), and `has_dests` says whether some are left.
module _ {S : Type 0} (deliver : S → List ℕ → ℕ → S × Bool) (cfg : Config) where
  -- bytes behind those in the buffer
  unfoldable pub take_in : Incoming S → List ℕ → Incoming S
  unfolding dispatch_received_metrics
  take_in c bytes =
      let left = dispatch_received_metrics deliver cfg c.tally (c.buf ++ bytes) in
      record c { tally = left.tally; buf = left.buf; needmore = left.needmore }

  -- the loop over `strmreadbuf`
  unfoldable pub readbuf_loop : List (ℕ → List ℕ) → Incoming S → Incoming S
  unfolding take_in
  readbuf_loop [] c = c
  readbuf_loop (f ∷ fs) c =
      let bytes = f (free_room c) in
      let rest = readbuf_loop fs (take_in c bytes) in if length bytes == 0 then c else rest

module _ {S : Type 0} (deliver : S → List ℕ → ℕ → S × Bool) (has_dests : S → Bool)
    (cfg : Config) where
  -- the bytes of a read, or none if the buffer has work left
  unfoldable pub process : Stream → Incoming S → List ℕ → Incoming S × Worked
  unfolding take_in readbuf_loop conclude
  process io c bytes =
      conclude has_dests io.overflow
        (readbuf_loop deliver cfg io.strmreadbuf (take_in deliver cfg c bytes))

  unfoldable pub read_on : Stream → Incoming S → Incoming S × Worked
  unfolding process conclude
  read_on io c =
      if not c.needmore && ltb 0 (length c.buf)
      then process io c []
      else (elim (io.strmread (free_room c)) [
        | read_some b bs ↦ process io c (b ∷ bs)
        | read_end ↦ conclude has_dests true c
        | read_blocked ↦ (c, idle)
        | read_failed ↦ conclude has_dests true c
      ])

module _ {S : Type 0} (deliver : S → List ℕ → ℕ → S × Bool) (resume : S → S × Bool)
    (has_dests : S → Bool) (cfg : Config) where
  unfoldable pub dispatch_connection : Stream → Incoming S → Incoming S × Worked
  unfolding read_on
  dispatch_connection io c =
      let (state, all_sent) = resume c.tally.state in
      let c' : Incoming S = record c { tally = record c.tally { state = state } } in
      if all_sent then read_on deliver has_dests cfg io c' else (c', stalled)
