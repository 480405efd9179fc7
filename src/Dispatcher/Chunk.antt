-- ===== src/Dispatcher/Chunk.antt =====
-- How `dispatch_received_metrics` counts the line ends that it reads.
use carbon_c_relay.Prelude.{
  ℕ, suc, ◌+◌, ◌≡◌, refl, ◌∙◌, Bool, true, false, List, [], ◌∷◌, ◌++◌, if◌then◌else◌, arith,
  Bool-cases, inl, inr,
}
use carbon_c_relay.Dispatcher.{
  Config, Scan, Outcome, more, discard, metric, start, end_line, separator, plain, step, Tally,
  account, received, dispatch_received_metrics, is_newline, is_separator,
}

-- the line ends among the bytes
abbrev pub newlines : List ℕ → ℕ
newlines [] = 0
newlines (c ∷ cs) = if is_newline c then suc (newlines cs) else newlines cs

newlines-append : (cs ds : List ℕ) → newlines (cs ++ ds) ≡ newlines cs + newlines ds
newlines-append [] ds = omega arith
newlines-append (c ∷ cs) ds = ground (arith, newlines-append cs ds)

-- A line end completes a line, and no other byte does.
completed : Outcome → ℕ
completed more = 0
completed discard = 1
completed (metric m n) = 1

separator-newlines :
    (s : Scan) (c : ℕ)
    → is_separator c ≡ true
    → newlines s.pending ≡ 0
    → newlines (separator s c).pending ≡ 0
unfolding separator
separator-newlines s c h z =
    ground (arith, newlines-append s.pending (b' ' ∷ []), newlines-append s.pending (b'.' ∷ []))

plain-newlines :
    (cfg : Config) (s : Scan) (c : ℕ)
    → is_newline c ≡ false
    → newlines s.pending ≡ 0
    → newlines (plain cfg s c).pending ≡ 0
unfolding plain
plain-newlines cfg s c h z = ground (arith, newlines-append s.pending (c ∷ []))

end_line-completed :
    (cfg : Config) (s : Scan)
    → (completed (end_line cfg s).1 ≡ 1) × ((end_line cfg s).0.pending ≡ [])
unfolding end_line completed
end_line-completed cfg s = ground arith

-- the bytes done hold no line end
step-newlines :
    (cfg : Config) (s : Scan) (c : ℕ)
    → newlines s.pending ≡ 0
    → (newlines (step cfg s c).0.pending ≡ 0) × (completed (step cfg s c).1 ≡ newlines (c ∷ []))
unfolding step completed
step-newlines cfg s c z = elim (Bool-cases (is_newline c)) [
  | inl newline ↦ ground (arith, end_line-completed cfg s)
  | inr other ↦ elim (Bool-cases (is_separator c)) [
    | inl sep ↦ ground (arith, separator-newlines s c sep z)
    | inr char ↦ ground (arith, plain-newlines cfg s c other z)
  ]
]

module _ {S : Type 0} (deliver : S → List ℕ → ℕ → S × Bool) (cfg : Config) where
  account-completed :
      (t : Tally S) (o : Outcome)
      → (account deliver t o).0.metrics + (account deliver t o).0.discards
        ≡ t.metrics + t.discards + completed o
  unfolding account completed
  account-completed t more = omega arith
  account-completed t discard = omega arith
  account-completed t (metric m n) = omega arith

  received-count :
      (cs : List ℕ) (t : Tally S) (s : Scan)
      → newlines s.pending ≡ 0
      → let left = received deliver cfg t s cs in
        left.tally.metrics + left.tally.discards + newlines left.buf
        ≡ t.metrics + t.discards + newlines cs
  unfolding received
  received-count [] t s z = omega arith
  received-count (c ∷ cs) t s z =
      let next = step-newlines cfg s c z in
      let sum = account-completed t (step cfg s c).1 in
      let ih = received-count cs (account deliver t (step cfg s c).1).0 (step cfg s c).0 next.0 in
      elim (Bool-cases (account deliver t (step cfg s c).1).1) [
        | inl on ↦ rw (on, received) (ih ∙ ground (arith, sum, next.1))
        | inr off ↦ rw (off, received) (ground (arith, sum, next.1))
      ]

  -- Every line end in the buffer is counted once, as a metric or as a discard, or stays in the
  -- buffer; and none else is counted.
  pub dispatch_received_metrics-count :
      (t : Tally S) (buf : List ℕ)
      → let left = dispatch_received_metrics deliver cfg t buf in
        left.tally.metrics + left.tally.discards + newlines left.buf
        ≡ t.metrics + t.discards + newlines buf
  unfolding dispatch_received_metrics
  dispatch_received_metrics-count t buf = received-count buf t (start cfg) refl
