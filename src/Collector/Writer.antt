-- ===== src/Collector/Writer.antt =====
-- collector.c: `collector_writer`, outside of debug mode: the warnings about dropped metrics and full
-- queues. The double arithmetic on a queue's length and size is a parameter.
use carbon_c_relay.Prelude.{
  ℕ, ◌+◌, ◌-◌, ◌%◌, ◌^◌, ◌<◌, ◌≡◌, refl, ◌∙◌, ap, Bool, true, false, Option, none, some, List, [],
  ◌∷◌, ◌++◌, if◌then◌else◌, ltb, arith, Bool-cases, inl, inr,
}
use carbon_c_relay.Collector.{ServerMeters, get, add_size}

-- The comparison of the use of a queue with 0.75, and the use as a percentage.
pub record Usage : Type 0 where
  pub is_high : ℕ → ℕ → Bool
  pub percent : ℕ → ℕ → ℕ

pub data Warning : Type 0 where
  queuing_up : List ℕ → ℕ → ℕ → ℕ → Warning
  dropped_metrics : ℕ → Warning
  aggregator_dropped : ℕ → Warning

-- `i`, `lastdropped` and `lastaggrdropped`
pub record Writer : Type 0 where
  pub i : ℕ
  pub lastdropped : ℕ
  pub lastaggrdropped : ℕ

-- what is read in a round: the servers, and the aggregators' counter if there are any
pub record Seen : Type 0 where
  pub servers : List ServerMeters
  pub aggregated : Option ℕ

-- a difference of `size_t`
abbrev pub sub_size : ℕ → ℕ → ℕ
sub_size a b = (a + (2 ^ 64 - b)) % 2 ^ 64

-- The loop over the servers: `totdropped` and the warnings.
unfoldable pub queues_loop : Usage → ℕ → List ServerMeters → ℕ × List Warning
unfolding get add_size
queues_loop u tot [] = (tot, [])
queues_loop u tot (s ∷ ss) =
    let (tot', rest) = queues_loop u (add_size tot (get s.dropped)) ss in
    (
      tot',
      if u.is_high s.queue_len s.queue_size
          then queuing_up s.ip s.port s.queue_len (u.percent s.queue_len s.queue_size) ∷ rest
          else rest,
    )

-- a warning about what was dropped since `last_`
abbrev pub dropped_since : (ℕ → Warning) → ℕ → ℕ → List Warning
dropped_since warning tot last_ =
    if ltb 0 (sub_size tot last_) then warning (sub_size tot last_) ∷ [] else []

-- the warnings of a round, with `totdropped` and those about the queues
abbrev pub warn : Writer → Option ℕ → ℕ → List Warning → Writer × List Warning
warn w none tot full =
    (record w { i = 0; lastdropped = tot }, full ++ dropped_since dropped_metrics tot w.lastdropped)
warn w (some n) tot full = (
  record { i = 0; lastdropped = tot; lastaggrdropped = n },
  full
      ++ (dropped_since dropped_metrics tot w.lastdropped
          ++ dropped_since aggregator_dropped n w.lastaggrdropped),
)

-- A round of the loop, which warns every `interval` rounds.
unfoldable pub writer_round : Usage → ℕ → Writer → Seen → Writer × List Warning
unfolding queues_loop
writer_round u interval w seen =
    let i = w.i + 1 in
    let (tot, full) = queues_loop u 0 seen.servers in
    if ltb i interval then (record w { i = i }, []) else warn w seen.aggregated tot full

unfoldable pub writer_rounds : Usage → ℕ → Writer → List Seen → Writer × List Warning
unfolding writer_round
writer_rounds u interval w [] = (w, [])
writer_rounds u interval w (seen ∷ rest) =
    let (w', warnings) = writer_round u interval w seen in
    let (w'', more) = writer_rounds u interval w' rest in (w'', warnings ++ more)

-- the metrics that warnings say were dropped
abbrev pub warned : List Warning → ℕ
warned [] = 0
warned (queuing_up ip port queued percent ∷ ws) = warned ws
warned (dropped_metrics n ∷ ws) = n + warned ws
warned (aggregator_dropped n ∷ ws) = warned ws

warned-append : (ws us : List Warning) → warned (ws ++ us) ≡ warned ws + warned us
warned-append [] us = omega arith
warned-append (queuing_up ip port queued percent ∷ ws) us = warned-append ws us
warned-append (dropped_metrics n ∷ ws) us = omega (arith, warned-append ws us)
warned-append (aggregator_dropped n ∷ ws) us = warned-append ws us

queues_loop-warned :
    (u : Usage) (tot : ℕ) (ss : List ServerMeters) → warned (queues_loop u tot ss).1 ≡ 0
unfolding queues_loop
queues_loop-warned u tot [] = refl
queues_loop-warned u tot (s ∷ ss) =
    by_use (u.is_high s.queue_len s.queue_size)
    ∙ queues_loop-warned u (add_size tot (get s.dropped)) ss
  where
    rest : List Warning
    rest = (queues_loop u (add_size tot (get s.dropped)) ss).1

    by_use :
        (t : Bool)
        → warned (
            if t
            then queuing_up s.ip s.port s.queue_len (u.percent s.queue_len s.queue_size) ∷ rest
            else rest)
          ≡ warned rest
    by_use true = refl
    by_use false = refl

queues_loop-bound :
    (u : Usage) (tot : ℕ) (ss : List ServerMeters)
    → tot < 2 ^ 64
    → (queues_loop u tot ss).0 < 2 ^ 64
unfolding queues_loop add_size
queues_loop-bound u tot [] h = h
queues_loop-bound u tot (s ∷ ss) h =
    queues_loop-bound u (add_size tot (get s.dropped)) ss (omega arith)

-- what the servers' counters say was dropped
abbrev pub drops_of : List ServerMeters → ℕ
drops_of [] = 0
drops_of (s ∷ ss) = (s.dropped.value + drops_of ss) % 2 ^ 64

-- The sum of the counters in the last of the rounds that warn, every `interval` rounds, or what was
-- known before if there is none; `i` rounds have passed since the last one.
abbrev pub last_total : ℕ → ℕ → ℕ → List Seen → ℕ
last_total interval i known [] = known
last_total interval i known (s ∷ ss) =
    let waiting = last_total interval (i + 1) known ss in
    let renewed = last_total interval 0 (drops_of s.servers) ss in
    if ltb (i + 1) interval then waiting else renewed

-- The loop over the servers adds what their counters say to the total.
queues_loop-drops_of :
    (u : Usage) (tot : ℕ) (ss : List ServerMeters)
    → tot < 2 ^ 64
    → (queues_loop u tot ss).0 ≡ (tot + drops_of ss) % 2 ^ 64
unfolding queues_loop add_size get
queues_loop-drops_of u tot [] h = omega (arith, h)
queues_loop-drops_of u tot (s ∷ ss) h =
    queues_loop-drops_of u (add_size tot (get s.dropped)) ss (omega arith) ∙ omega arith

drops_of-bound : (ss : List ServerMeters) → drops_of ss < 2 ^ 64
drops_of-bound [] = omega arith
drops_of-bound (s ∷ ss) = omega arith

queues_total : (u : Usage) (ss : List ServerMeters) → (queues_loop u 0 ss).0 ≡ drops_of ss
queues_total u ss = queues_loop-drops_of u 0 ss (omega arith) ∙ omega (arith, drops_of-bound ss)

dropped_since-warned :
    (tot last_ : ℕ) → warned (dropped_since dropped_metrics tot last_) ≡ sub_size tot last_
dropped_since-warned tot last_ = by_test (ltb 0 (sub_size tot last_)) refl
  where
    by_test :
        (t : Bool)
        → ltb 0 (sub_size tot last_) ≡ t
        → warned (if t then dropped_metrics (sub_size tot last_) ∷ [] else []) ≡ sub_size tot last_
    by_test true e = omega arith
    by_test false e = ground arith

dropped_since-aggregator : (tot last_ : ℕ) → warned (dropped_since aggregator_dropped tot last_) ≡ 0
dropped_since-aggregator tot last_ = by_test (ltb 0 (sub_size tot last_))
  where
    by_test :
        (t : Bool) → warned (if t then aggregator_dropped (sub_size tot last_) ∷ [] else []) ≡ 0
    by_test true = refl
    by_test false = refl

-- What a round warns of, and what it keeps.
abbrev Tells : Writer → Writer × List Warning → Type 0
Tells w out =
    ((w.lastdropped + warned out.1) % 2 ^ 64 ≡ out.0.lastdropped) × (out.0.lastdropped < 2 ^ 64)

warn-Tells :
    (w : Writer) (o : Option ℕ) (tot : ℕ) (full : List Warning)
    → w.lastdropped < 2 ^ 64
    → tot < 2 ^ 64
    → warned full ≡ 0
    → Tells w (warn w o tot full)
warn-Tells w none tot full h k e = (
  ap (λ n. (w.lastdropped + n) % 2 ^ 64)
        (warned-append full (dropped_since dropped_metrics tot w.lastdropped))
      ∙ omega (arith, e, dropped_since-warned tot w.lastdropped, h, k),
  k,
)
warn-Tells w (some n) tot full h k e =
    let lost = dropped_since dropped_metrics tot w.lastdropped in
    let aggr = dropped_since aggregator_dropped n w.lastaggrdropped in
    (
      ap (λ x. (w.lastdropped + x) % 2 ^ 64)
            (warned-append full (lost ++ aggr)
              ∙ ap (λ x. warned full + x) (warned-append lost aggr))
          ∙ omega (
            arith,
            e,
            dropped_since-warned tot w.lastdropped,
            dropped_since-aggregator n w.lastaggrdropped,
            h,
            k,
          ),
      k,
    )

writer_round-Tells :
    (u : Usage) (interval : ℕ) (w : Writer) (seen : Seen)
    → w.lastdropped < 2 ^ 64
    → Tells w (writer_round u interval w seen)
unfolding writer_round
writer_round-Tells u interval w seen h = by_turn (ltb (w.i + 1) interval)
  where
    by_turn :
        (t : Bool)
        → Tells w (
            if t
            then (record w { i = w.i + 1 }, [])
            else warn w seen.aggregated
                (queues_loop u 0 seen.servers).0
                (queues_loop u 0 seen.servers).1)
    by_turn true = (omega (arith, h), h)
    by_turn false =
        warn-Tells w seen.aggregated (queues_loop u 0 seen.servers).0
          (queues_loop u 0 seen.servers).1 h (queues_loop-bound u 0 seen.servers (omega arith))
          (queues_loop-warned u 0 seen.servers)

warn-lastdropped :
    (w : Writer) (o : Option ℕ) (tot : ℕ) (full : List Warning)
    → ((warn w o tot full).0.lastdropped ≡ tot) × ((warn w o tot full).0.i ≡ 0)
warn-lastdropped w none tot full = (refl, refl)
warn-lastdropped w (some n) tot full = (refl, refl)

-- What is kept behind any rounds is the sum of the counters in the last round that warned.
writer_rounds-last_total :
    (u : Usage) (interval : ℕ) (w : Writer) (seen : List Seen)
    → (writer_rounds u interval w seen).0.lastdropped ≡ last_total interval w.i w.lastdropped seen
unfolding writer_rounds writer_round
writer_rounds-last_total u interval w [] = refl
writer_rounds-last_total u interval w (s ∷ ss) = elim (Bool-cases (ltb (w.i + 1) interval)) [
  | inl waits ↦
      rw (writer_round, waits) (writer_rounds-last_total u interval (record w { i = w.i + 1 }) ss)
  | inr turn ↦
      (let tot = (queues_loop u 0 s.servers).0 in
        let full = (queues_loop u 0 s.servers).1 in
        let kept = warn-lastdropped w s.aggregated tot full in
        rw (writer_round, turn)
          (writer_rounds-last_total u interval (warn w s.aggregated tot full).0 ss
            ∙ ap (λ i. last_total interval i (warn w s.aggregated tot full).0.lastdropped ss) kept.1
            ∙ ap (λ n. last_total interval 0 n ss) (kept.0 ∙ queues_total u s.servers)))
]

-- The warnings of any number of rounds add up to what is kept.
writer_rounds-kept :
    (u : Usage) (interval : ℕ) (w : Writer) (seen : List Seen)
    → w.lastdropped < 2 ^ 64
    → Tells w (writer_rounds u interval w seen)
unfolding writer_rounds
writer_rounds-kept u interval w [] h = (omega (arith, h), h)
writer_rounds-kept u interval w (s ∷ ss) h =
    let out = writer_round u interval w s in
    let one : Tells w out = writer_round-Tells u interval w s h in
    let more = writer_rounds-kept u interval out.0 ss one.1 in
    (
      ap (λ n. (w.lastdropped + n) % 2 ^ 64)
            (warned-append out.1 (writer_rounds u interval out.0 ss).1)
          ∙ regroup w.lastdropped (warned out.1) (warned (writer_rounds u interval out.0 ss).1)
          ∙ ap (λ n. (n + warned (writer_rounds u interval out.0 ss).1) % 2 ^ 64) one.0
          ∙ more.0,
      more.1,
    )
  where
    regroup : (a b c : ℕ) → (a + (b + c)) % 2 ^ 64 ≡ ((a + b) % 2 ^ 64 + c) % 2 ^ 64
    regroup a b c = omega arith

-- Whatever the servers and queues are in each round: the metrics that the warnings of any number of rounds
-- say were dropped add up, with those known before, modulo 2^64, to the sum of the dropped counters of
-- the servers in the last round that warned, which comes every `interval` rounds; and that sum is kept.
pub writer_rounds-Tells :
    (u : Usage) (interval : ℕ) (w : Writer) (seen : List Seen)
    → w.lastdropped < 2 ^ 64
    → ((w.lastdropped + warned (writer_rounds u interval w seen).1) % 2 ^ 64
        ≡ last_total interval w.i w.lastdropped seen)
      × ((writer_rounds u interval w seen).0.lastdropped
          ≡ last_total interval w.i w.lastdropped seen)
writer_rounds-Tells u interval w seen h =
    let kept = writer_rounds-last_total u interval w seen in
    ((writer_rounds-kept u interval w seen h).0 ∙ kept, kept)
