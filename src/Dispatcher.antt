-- ===== src/Dispatcher.antt =====
-- dispatcher.c: what a worker does with the bytes of a connection. `dispatch_received_metrics`
-- cleans the bytes up into metrics and hands each to the router.
pub mod Clean
pub mod Chunk
pub mod Resume
pub mod Dests
pub mod Conn
mod Tests
use mathlib.Core.List.{reverse}
use carbon_c_relay.Prelude.Bytes.{has_char}
use carbon_c_relay.Prelude.{
  ℕ, ◌+◌, Bool, true, false, not, ◌&&◌, ◌||◌, Option, none, some, List, [], ◌∷◌, ◌++◌,
  if◌then◌else◌, ◌==◌, ltb, leb, length,
}

-- what `struct _dispatcher` is configured with
pub record Config : Type 0 where
  pub tags_supported : Bool
  pub maxinplen : ℕ
  pub maxmetriclen : ℕ
  pub allowed_chars : List ℕ

-- The variables of the loop. `written` are the bytes between `conn->metric` and `q`, last first, and
-- `firstspace` is an offset into them; `pending` are the bytes of `conn->buf` behind `lastnl` that
-- are done, in order, or all that are done if there is no `lastnl`.
pub record Scan : Type 0 where
  pub written : List ℕ
  pub firstspace : Option ℕ
  pub search_tags : Bool
  pub pending : List ℕ

-- what a byte completes: nothing, a line that is dropped, or a metric with its first space
pub data Outcome : Type 0 where
  more : Outcome
  discard : Outcome
  metric : List ℕ → ℕ → Outcome

unfoldable pub is_alnum : ℕ → Bool
is_alnum c = (leb b'a' c && leb c b'z') || (leb b'A' c && leb c b'Z') || (leb b'0' c && leb c b'9')

-- the characters that a metric's path keeps
unfoldable pub is_allowed : Config → ℕ → Bool
unfolding is_alnum has_char
is_allowed cfg c = is_alnum c || has_char cfg.allowed_chars c

abbrev pub is_set : Option ℕ → Bool
is_set none = false
is_set (some n) = true

-- before the first byte, and after each metric
abbrev pub start : Config → Scan
start cfg = record {
  written = [];
  firstspace = none;
  search_tags = cfg.tags_supported;
  pending = [];
}

-- A line is too long, or is no metric at all.
unfoldable pub unfit : Config → Scan → Bool
unfit cfg s = elim s.firstspace [
  | none ↦ true
  | some n ↦
      length s.written == 0 || ltb cfg.maxinplen (length s.written + 1) || ltb cfg.maxmetriclen n
]

-- The byte `\n` or `\r`.
unfoldable pub end_line : Config → Scan → Scan × Outcome
unfolding unfit
end_line cfg s =
    if unfit cfg s then (record s { written = []; firstspace = none; pending = [] }, discard) else (
      start cfg,
      metric (reverse (b'\n' ∷ s.written)) (elim s.firstspace [ none ↦ 0 | some n ↦ n ]),
    )

-- `*q++ = c`, for the byte `p` of the buffer
abbrev pub put : Scan → ℕ → ℕ → Scan
put s c p = record s { written = c ∷ s.written; pending = s.pending ++ (p ∷ []) }

-- A byte is read and nothing is written.
abbrev pub pass : Scan → ℕ → Scan
pass s p = record s { pending = s.pending ++ (p ∷ []) }

-- The first space: a dot before it is taken back.
unfoldable pub first_space : Scan → Scan
first_space s = elim s.written [
  | [] ↦ s
  | c ∷ w ↦
      let w' = if c == b'.' then w else c ∷ w in
      record s {
        written = b' ' ∷ w';
        firstspace = some (length w');
        pending = s.pending ++ (b' ' ∷ []);
      }
]

-- A later space, or a dot: not twice in a row, and not right behind the first space.
unfoldable pub repeated : Scan → ℕ → Scan
repeated s p = elim s.written [
  | [] ↦ s
  | c ∷ w ↦
      if (c == p) || (elim s.firstspace [ none ↦ false | some n ↦ length w == n ])
      then pass s p
      else put s p p
]

-- The bytes space, tab and dot. In front of a metric they are skipped for good.
unfoldable pub separator : Scan → ℕ → Scan
unfolding first_space repeated
separator s c =
    if length s.written == 0
    then record s { pending = [] }
    else (let p = if c == b'\t' then b' ' else c in
        if (p == b' ') && not (is_set s.firstspace) then first_space s else repeated s p)

abbrev pub is_separator : ℕ → Bool
is_separator c = (c == b' ') || (c == b'\t') || (c == b'.')

abbrev pub is_newline : ℕ → Bool
is_newline c = (c == b'\n') || (c == b'\r')

-- any other byte
unfoldable pub plain : Config → Scan → ℕ → Scan
unfolding is_allowed
plain cfg s c =
    if s.search_tags && (c == b';')
    then record (put s c c) { search_tags = false; firstspace = some (length s.written) }
    else if not (c == 0) && (is_set s.firstspace || is_allowed cfg c)
    then put s c c
    else put s b'_' c

-- The body of the loop of `dispatch_received_metrics`, up to the routing of a metric.
unfoldable pub step : Config → Scan → ℕ → Scan × Outcome
unfolding end_line separator plain
step cfg s c =
    if is_newline c
    then end_line cfg s
    else if is_separator c
    then (separator s c, more)
    else (plain cfg s c, more)

-- the counters of the dispatcher, beside the state `S` of those who take the metrics
pub record Tally (S : Type 0) : Type 0 where
  pub state : S
  pub metrics : ℕ
  pub discards : ℕ

-- What the loop leaves: the counters, the bytes that stay in `conn->buf`, and `conn->needmore`.
pub record Left (S : Type 0) : Type 0 where
  pub tally : Tally S
  pub buf : List ℕ
  pub needmore : Bool

-- `deliver` routes a metric and sends it (`router_route` and `dispatch_process_dests`); it says
-- whether all destinations took it.
module _ {S : Type 0} (deliver : S → List ℕ → ℕ → S × Bool) where
  -- Count the outcome, and deliver a metric; whether the loop goes on.
  unfoldable pub account : Tally S → Outcome → Tally S × Bool
  account t more = (t, true)
  account t discard = (record t { discards = t.discards + 1 }, true)
  account t (metric m n) =
      let (state, all_sent) = deliver t.state m n in
      (record t { state = state; metrics = t.metrics + 1 }, all_sent)

  -- the loop; it stops behind a metric that a destination did not take
  unfoldable pub received : Config → Tally S → Scan → List ℕ → Left S
  unfolding step account
  received cfg t s [] = record {
    tally = t;
    buf = s.pending;
    needmore = not (length s.written == 0);
  }
  received cfg t s (c ∷ cs) =
      let (s', o) = step cfg s c in
      let (t', goes_on) = account t o in
      elim goes_on [
        | true ↦ received cfg t' s' cs
        | false ↦ record { tally = t'; buf = cs; needmore = false }
      ]

  unfoldable pub dispatch_received_metrics : Config → Tally S → List ℕ → Left S
  unfolding received
  dispatch_received_metrics cfg t buf = received cfg t (start cfg) buf
