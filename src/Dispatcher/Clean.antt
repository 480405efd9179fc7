-- ===== src/Dispatcher/Clean.antt =====
-- What `dispatch_received_metrics` hands to the router, and how it counts lines, without tag
-- support.
use mathlib.Core.List.{reverse}
use carbon_c_relay.Prelude.{
  ℕ, ◌+◌, ◌≤◌, ◌<◌, ◌≡◌, refl, sym, ap, Bool, true, false, not, ◌&&◌, ◌||◌, Option, none, some,
  List, [], ◌∷◌, ◌++◌, if◌then◌else◌, ◌==◌, ltb, length, arith, Bool-cases, inl, inr,
}
use carbon_c_relay.Dispatcher.{
  Config, Scan, Outcome, more, discard, metric, is_allowed, start, unfit, end_line, first_space,
  repeated, separator, plain, step, Tally, account, received, dispatch_received_metrics, is_set,
  is_newline, is_separator,
}

-- A character that may stand in a path: kept, a dot, or the underscore put for any other.
abbrev path_char : Config → ℕ → Bool
path_char cfg c = is_allowed cfg c || (c == b'_') || (c == b'.')

-- A path, last byte first, holds such characters only, does not begin with a dot, and has no two
-- dots in a row.
abbrev pub clean_path : Config → List ℕ → Bool
clean_path cfg [] = true
clean_path cfg (c ∷ []) = path_char cfg c && not (c == b'.')
clean_path cfg (c ∷ (d ∷ w)) =
    path_char cfg c && (not ((c == b'.') && (d == b'.')) && clean_path cfg (d ∷ w))

abbrev ends_in_dot : List ℕ → Bool
ends_in_dot [] = false
ends_in_dot (c ∷ w) = c == b'.'

-- The bytes of a metric with its first space at `n`.
pub record CleanMetric (cfg : Config) (m : List ℕ) (n : ℕ) : Type 0 where
  -- the path and the rest of the line, last byte first
  pub path : List ℕ
  pub rest : List ℕ
  pub split : m ≡ reverse (b'\n' ∷ (rest ++ (b' ' ∷ path)))
  pub at_space : n ≡ length path
  pub clean : clean_path cfg path ≡ true
  pub no_last_dot : ends_in_dot path ≡ false
  pub not_empty : 0 < n
  pub path_fits : n ≤ cfg.maxmetriclen
  pub line_fits : length (b'\n' ∷ (rest ++ (b' ' ∷ path))) ≤ cfg.maxinplen

-- What is known of the bytes written behind the first space.
record Spaced (cfg : Config) (w : List ℕ) (n : ℕ) : Type 0 where
  path : List ℕ
  rest : List ℕ
  split : w ≡ rest ++ (b' ' ∷ path)
  at_space : length path ≡ n
  clean : clean_path cfg path ≡ true
  no_last_dot : ends_in_dot path ≡ false
  not_empty : 0 < n

abbrev Written : Config → List ℕ → Option ℕ → Type 0
Written cfg w none = clean_path cfg w ≡ true
Written cfg w (some n) = Spaced cfg w n

abbrev Inv : Config → Scan → Type 0
Inv cfg s = (s.search_tags ≡ false) × Written cfg s.written s.firstspace

Spaced-put : (cfg : Config) (w : List ℕ) (n c : ℕ) → Spaced cfg w n → Spaced cfg (c ∷ w) n
Spaced-put cfg w n c h = record {
  path = h.path;
  rest = c ∷ h.rest;
  split = ap (λ r. c ∷ r) h.split;
  at_space = h.at_space;
  clean = h.clean;
  no_last_dot = h.no_last_dot;
  not_empty = h.not_empty;
}

clean_path-put :
    (cfg : Config) (w : List ℕ) (c : ℕ)
    → clean_path cfg w ≡ true
    → path_char cfg c ≡ true
    → (c == b'.') ≡ false
    → clean_path cfg (c ∷ w) ≡ true
clean_path-put cfg [] c h p d = ground arith
clean_path-put cfg (e ∷ w) c h p d = ground arith

clean_path-dot :
    (cfg : Config) (w : List ℕ) (c : ℕ)
    → clean_path cfg (c ∷ w) ≡ true
    → (c == b'.') ≡ false
    → clean_path cfg (b'.' ∷ (c ∷ w)) ≡ true
clean_path-dot cfg [] c h d = ground arith
clean_path-dot cfg (e ∷ w) c h d = ground arith

clean_path-tail :
    (cfg : Config) (c : ℕ) (w : List ℕ)
    → clean_path cfg (c ∷ w) ≡ true
    → (c == b'.') ≡ true
    → (clean_path cfg w ≡ true) × (ends_in_dot w ≡ false) × (0 < length w)
clean_path-tail cfg c [] h d = ground arith
clean_path-tail cfg c (e ∷ w) h d = ground arith

abbrev at : List ℕ → Option ℕ → Bool → List ℕ → Scan
at w f b p = record { written = w; firstspace = f; search_tags = b; pending = p }

plain-Inv :
    (cfg : Config) (w : List ℕ) (f : Option ℕ) (b : Bool) (p : List ℕ) (c : ℕ)
    → b ≡ false
    → Written cfg w f
    → is_separator c ≡ false
    → Inv cfg (plain cfg (at w f b p) c)
unfolding plain
plain-Inv cfg w none b p c e h d = elim (Bool-cases (not (c == 0) && is_allowed cfg c)) [
  | inl keep ↦ rw (e, keep) (refl, clean_path-put cfg w c h (ground arith) (ground arith))
  | inr drop ↦ rw (e, drop) (refl, clean_path-put cfg w b'_' h (ground arith) refl)
]
plain-Inv cfg w (some n) b p c e h d = elim (Bool-cases (not (c == 0))) [
  | inl keep ↦ rw (e, keep) (refl, Spaced-put cfg w n c h)
  | inr drop ↦ rw (e, drop) (refl, Spaced-put cfg w n b'_' h)
]

first_space-Inv :
    (cfg : Config) (w : List ℕ) (b : Bool) (p : List ℕ)
    → b ≡ false
    → clean_path cfg w ≡ true
    → Inv cfg (first_space (at w none b p))
unfolding first_space
first_space-Inv cfg [] b p e h = (e, h)
first_space-Inv cfg (c ∷ w) b p e h = elim (Bool-cases (c == b'.')) [
  | inl dot ↦
      let tail = clean_path-tail cfg c w h dot in
      rw dot (
        e,
        record {
          path = w;
          rest = [];
          split = refl;
          at_space = refl;
          clean = tail.0;
          no_last_dot = tail.1;
          not_empty = tail.2;
        },
      )
  | inr other ↦ rw other (
    e,
    record {
      path = c ∷ w;
      rest = [];
      split = refl;
      at_space = refl;
      clean = h;
      no_last_dot = other;
      not_empty = omega arith;
    },
  )
]

repeated-Inv :
    (cfg : Config) (w : List ℕ) (f : Option ℕ) (b : Bool) (p : List ℕ) (c : ℕ)
    → b ≡ false
    → Written cfg w f
    → ((c == b'.') || is_set f) ≡ true
    → Inv cfg (repeated (at w f b p) c)
unfolding repeated
repeated-Inv cfg [] f b p c e h d = (e, h)
repeated-Inv cfg (x ∷ w) none b p c e h d = elim (Bool-cases (x == c)) [
  | inl same ↦ rw same (e, h)
  | inr other ↦ rw other (e, rw (dot d) (clean_path-dot cfg w x h (ground arith)))
]
  where
    dot : ((c == b'.') || false) ≡ true → c ≡ b'.'
    dot d = ground arith
repeated-Inv cfg (x ∷ w) (some n) b p c e h d = elim (Bool-cases ((x == c) || (length w == n))) [
  | inl same ↦ rw same (e, h)
  | inr other ↦ rw other (e, Spaced-put cfg (x ∷ w) n c h)
]

separator-Inv :
    (cfg : Config) (w : List ℕ) (f : Option ℕ) (b : Bool) (p : List ℕ) (c : ℕ)
    → b ≡ false
    → Written cfg w f
    → is_separator c ≡ true
    → Inv cfg (separator (at w f b p) c)
unfolding separator
separator-Inv cfg w f b p c e h d = elim (Bool-cases (length w == 0)) [
  | inl empty ↦ rw empty (e, h)
  | inr some_written ↦ rw some_written (spaced f h)
]
  where
    q : ℕ
    q = if c == b'\t' then b' ' else c

    spaced :
        (f : Option ℕ)
        → Written cfg w f
        → Inv cfg (
            if (q == b' ') && not (is_set f)
            then first_space (at w f b p)
            else repeated (at w f b p) q)
    spaced none h = elim (Bool-cases (q == b' ')) [
      | inl blank ↦ rw blank (first_space-Inv cfg w b p e h)
      | inr dot ↦ rw dot (repeated-Inv cfg w none b p q e h (ground arith))
    ]
    spaced (some n) h = elim (Bool-cases (q == b' ')) [
      | inl blank ↦ rw blank (repeated-Inv cfg w (some n) b p q e h (ground arith))
      | inr dot ↦ rw dot (repeated-Inv cfg w (some n) b p q e h (ground arith))
    ]

-- What a byte completes is a clean metric, if it is a metric.
abbrev Completes : Config → Outcome → Type 0
Completes cfg more = Unit
Completes cfg discard = Unit
Completes cfg (metric m n) = CleanMetric cfg m n

end_line-Inv :
    (cfg : Config) (w : List ℕ) (f : Option ℕ) (b : Bool) (p : List ℕ)
    → cfg.tags_supported ≡ false
    → b ≡ false
    → Written cfg w f
    → Inv cfg (end_line cfg (at w f b p)).0 × Completes cfg (end_line cfg (at w f b p)).1
unfolding end_line unfit
end_line-Inv cfg w none b p t e h = ((e, refl), tt)
end_line-Inv cfg w (some n) b p t e h =
    elim (Bool-cases
      (length w == 0 || ltb cfg.maxinplen (length w + 1) || ltb cfg.maxmetriclen n)) [
        | inl bad ↦ rw bad ((e, refl), tt)
        | inr good ↦ rw good (
          (t, refl),
          record {
            path = h.path;
            rest = h.rest;
            split = ap (λ r. reverse (b'\n' ∷ r)) h.split;
            at_space = sym h.at_space;
            clean = h.clean;
            no_last_dot = h.no_last_dot;
            not_empty = h.not_empty;
            path_fits = ground arith;
            line_fits = rw (← h.split) (ground arith);
          },
        )
      ]

step-Inv :
    (cfg : Config) (w : List ℕ) (f : Option ℕ) (b : Bool) (p : List ℕ) (c : ℕ)
    → cfg.tags_supported ≡ false
    → b ≡ false
    → Written cfg w f
    → Inv cfg (step cfg (at w f b p) c).0 × Completes cfg (step cfg (at w f b p) c).1
unfolding step
step-Inv cfg w f b p c t e h = elim (Bool-cases (is_newline c)) [
  | inl newline ↦ rw newline (end_line-Inv cfg w f b p t e h)
  | inr other ↦ rw other (elim (Bool-cases (is_separator c)) [
    | inl sep ↦ rw sep (separator-Inv cfg w f b p c e h sep, tt)
    | inr char ↦ rw char (plain-Inv cfg w f b p c e h char, tt)
  ])
]

module _ {S : Type 0} (deliver : S → List ℕ → ℕ → S × Bool) (P : S → Type 0) (cfg : Config)
    (no_tags : cfg.tags_supported ≡ false)
    (takes : (s : S) (m : List ℕ) (n : ℕ) → CleanMetric cfg m n → P s → P (deliver s m n).0) where
  account-P :
      (t : Tally S) (o : Outcome) → Completes cfg o → P t.state → P (account deliver t o).0.state
  unfolding account
  account-P t more h p = p
  account-P t discard h p = p
  account-P t (metric m n) h p = takes t.state m n h p

  received-Inv :
      (cs : List ℕ) (t : Tally S) (s : Scan)
      → Inv cfg s
      → P t.state
      → P (received deliver cfg t s cs).tally.state
  unfolding received
  received-Inv [] t s h p = p
  received-Inv (c ∷ cs) t s h p =
      let next = step-Inv cfg s.written s.firstspace s.search_tags s.pending c no_tags h.0 h.1 in
      let q = account-P t (step cfg s c).1 next.1 p in
      let ih = received-Inv cs (account deliver t (step cfg s c).1).0 (step cfg s c).0 next.0 q in
      elim (Bool-cases (account deliver t (step cfg s c).1).1) [
        | inl on ↦ rw (on, received) ih
        | inr off ↦ rw (off, received) q
      ]

  -- Without tag support every metric handed to the router is clean: what `deliver` keeps true of its
  -- state on clean metrics stays true through the loop, on any bytes and from any counters.
  pub dispatch_received_metrics-clean :
      (t : Tally S) (buf : List ℕ)
      → P t.state
      → P (dispatch_received_metrics deliver cfg t buf).tally.state
  unfolding dispatch_received_metrics
  dispatch_received_metrics-clean t buf p = received-Inv buf t (start cfg) (no_tags, refl) p
