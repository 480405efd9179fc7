-- ===== src/Dispatcher/Resume.antt =====
-- How the bytes of a connection are cut up by its reads does not matter, without tag support.
use mathlib.Core.Path.{subst}
use mathlib.Core.List.{append_assoc}
use carbon_c_relay.Prelude.{
  ℕ, ◌<◌, ◌≡◌, refl, sym, ◌∙◌, ap, Bool, true, false, none, List, [], ◌∷◌, ◌++◌, if◌then◌else◌,
  ◌==◌, length, arith, Bool-cases, inl, inr, ◌⊎◌,
}
use carbon_c_relay.Dispatcher.{
  Config, Scan, Outcome, more, discard, metric, start, unfit, end_line, separator, plain, step,
  Tally, account, received, dispatch_received_metrics, is_newline, is_separator,
}

-- No tag is looked for, and a first space is known only behind a written byte.
record IsSound (s : Scan) : Type 0 where
  no_search : s.search_tags ≡ false
  behind : (s.firstspace ≡ none) ⊎ (0 < length s.written)

-- Reading the byte again: either all is done and the loop stands as at its start, or the byte that
-- stays in the buffer has the same effect.
abbrev Resumes : Config → Scan → ℕ → Type 0
Resumes cfg s c =
    ((step cfg s c).0 ≡ start cfg)
    ⊎ ((p : ℕ) × ((step cfg s c).0.pending ≡ s.pending ++ (p ∷ []))
        × (step cfg s p ≡ step cfg s c)
        × ((step cfg s c).1 ≡ more))

-- the byte that stays in the buffer
abbrev kept : ℕ → ℕ
kept c = if c == b'\t' then b' ' else c

kept-separator :
    (c : ℕ) → is_separator c ≡ true → (is_newline (kept c) ≡ false) × (is_separator (kept c) ≡ true)
kept-separator c h = ground arith

separator-IsSound : (s : Scan) (c : ℕ) → IsSound s → IsSound (separator s c)
unfolding separator
separator-IsSound s c v = ground arith

plain-IsSound : (cfg : Config) (s : Scan) (c : ℕ) → IsSound s → IsSound (plain cfg s c)
unfolding plain
plain-IsSound cfg s c v = ground arith

module _ (cfg : Config) (no_tags : cfg.tags_supported ≡ false) where
  end_line-start : (s : Scan) → s.search_tags ≡ false → (end_line cfg s).0 ≡ start cfg
  unfolding end_line
  end_line-start s h = elim (Bool-cases (unfit cfg s)) [
    | inl bad ↦ rw (bad, h, no_tags) refl
    | inr good ↦ rw good refl
  ]

  separator-kept :
      (s : Scan) (c : ℕ)
      → (length s.written == 0) ≡ false
      → is_separator c ≡ true
      → ((separator s c).pending ≡ s.pending ++ (kept c ∷ []))
        × (separator s (kept c) ≡ separator s c)
  unfolding separator
  separator-kept s c h sep = (ground arith, ground arith)

  separator-start :
      (s : Scan) (c : ℕ) → IsSound s → (length s.written == 0) ≡ true → separator s c ≡ start cfg
  unfolding separator
  separator-start s c v h = ground (arith, no_tags)

  plain-kept : (s : Scan) (c : ℕ) → (plain cfg s c).pending ≡ s.pending ++ (c ∷ [])
  unfolding plain
  plain-kept s c = ground arith

  step-Resumes : (s : Scan) (c : ℕ) → IsSound s → Resumes cfg s c
  unfolding step
  step-Resumes s c v = elim (Bool-cases (is_newline c)) [
    | inl newline ↦ inl (rw newline (end_line-start s v.no_search))
    | inr other ↦ elim (Bool-cases (is_separator c)) [
      | inl sep ↦ elim (Bool-cases (length s.written == 0)) [
        | inl empty ↦ inl (rw (other, sep) (separator-start s c v empty))
        | inr written ↦
            let k = separator-kept s c written sep in
            let same = kept-separator c sep in
            inr (
              kept c,
              rw (other, sep) k.0,
              rw (same.0, same.1, other, sep) (ap (λ x. (x, more)) k.1),
              rw (other, sep) refl,
            )
      ]
      | inr char ↦ inr (c, rw (other, char) (plain-kept s c), refl, rw (other, char) refl)
    ]
  ]

  start-IsSound : IsSound (start cfg)
  start-IsSound = record { no_search = no_tags; behind = inl refl }

  step-IsSound : (s : Scan) (c : ℕ) → IsSound s → IsSound (step cfg s c).0
  unfolding step
  step-IsSound s c v = elim (Bool-cases (is_newline c)) [
    | inl newline ↦ rw newline (subst IsSound (sym (end_line-start s v.no_search)) start-IsSound)
    | inr other ↦ elim (Bool-cases (is_separator c)) [
      | inl sep ↦ rw (other, sep) (separator-IsSound s c v)
      | inr char ↦ rw (other, char) (plain-IsSound cfg s c v)
    ]
  ]

  module _ {S : Type 0} (deliver : S → List ℕ → ℕ → S × Bool)
      (always : (s : S) (m : List ℕ) (n : ℕ) → (deliver s m n).1 ≡ true) where
    -- Reading the bytes that stay in the buffer from the start leads back to where the loop stands.
    abbrev Replays : Scan → Type 0
    Replays s =
        (t : Tally S) (rest : List ℕ)
        → received deliver cfg t (start cfg) (s.pending ++ rest) ≡ received deliver cfg t s rest

    account-on : (t : Tally S) (o : Outcome) → (account deliver t o).1 ≡ true
    unfolding account
    account-on t more = refl
    account-on t discard = refl
    account-on t (metric m n) = always t.state m n

    received-step :
        (t : Tally S) (s : Scan) (c : ℕ) (cs : List ℕ)
        → received deliver cfg t s (c ∷ cs)
          ≡ received deliver cfg (account deliver t (step cfg s c).1).0 (step cfg s c).0 cs
    unfolding received
    received-step t s c cs = rw (account-on t (step cfg s c).1, received) refl

    step-Replays : (s : Scan) (c : ℕ) → Resumes cfg s c → Replays s → Replays (step cfg s c).0
    unfolding account
    step-Replays s c (inl at_start) r t rest = rw at_start refl
    step-Replays s c (inr (p, kept_p, same, none_done)) r t rest =
        ap (λ l. received deliver cfg t (start cfg) (l ++ rest)) kept_p
        ∙ ap (λ l. received deliver cfg t (start cfg) l) (append_assoc s.pending (p ∷ []) rest)
        ∙ r t (p ∷ rest)
        ∙ received-step t s p rest
        ∙ ap (λ x. received deliver cfg (account deliver t x.1).0 x.0 rest) same
        ∙ ap (λ o. received deliver cfg (account deliver t o).0 (step cfg s c).0 rest) none_done

    received-append :
        (cs ds : List ℕ) (t : Tally S) (s : Scan)
        → IsSound s
        → Replays s
        → let left = received deliver cfg t s cs in
          received deliver cfg left.tally (start cfg) (left.buf ++ ds)
          ≡ received deliver cfg t s (cs ++ ds)
    unfolding received
    received-append [] ds t s v r = r t ds
    received-append (c ∷ cs) ds t s v r =
        let ih =
          received-append cs ds (account deliver t (step cfg s c).1).0 (step cfg s c).0
            (step-IsSound s c v) (step-Replays s c (step-Resumes s c v) r) in
        subst
          (λ left.
            received deliver cfg left.tally (start cfg) (left.buf ++ ds)
            ≡ received deliver cfg t s (c ∷ (cs ++ ds)))
          (sym (received-step t s c cs)) (ih ∙ sym (received-step t s c (cs ++ ds)))

    -- Reads may cut the stream anywhere: where no destination refuses a metric, two reads, the second
    -- behind the bytes that the first left in the buffer, leave the same counters, the same
    -- deliveries and the same buffer as one read of all the bytes. (Without tag support.)
    pub dispatch_received_metrics-append :
        (t : Tally S) (first second : List ℕ)
        → let left = dispatch_received_metrics deliver cfg t first in
          dispatch_received_metrics deliver cfg left.tally (left.buf ++ second)
          ≡ dispatch_received_metrics deliver cfg t (first ++ second)
    unfolding dispatch_received_metrics
    dispatch_received_metrics-append t first second =
        received-append first second t (start cfg) start-IsSound (λ t rest. refl)
