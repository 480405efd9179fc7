-- ===== src/Aggregator/Expire.antt =====
-- aggregator.c: `write_metric`, and one pass of the loop of `aggregator_expire` at a time `now`.
-- Lines are shorter than METRIC_BUFSIZ. `none` stands for a read outside an array.
use carbon_c_relay.Prelude.{
  ℕ, zero, suc, ◌+◌, ◌-◌, ◌/◌, ◌%◌, ◌^◌, Bool, true, ◌&&◌, Option, none, some, List, [], ◌∷◌, ◌++◌,
  if◌then◌else◌, ◌==◌, ltb, length, get_elem?,
}
use carbon_c_relay.Prelude.Bytes.{decimal}
use carbon_c_relay.Prelude.Int.{ℤ}
use carbon_c_relay.Aggregator.{
  Double, ts_start, ts_middle, ts_end, ComputeType, sum, cnt, max, min, avg, medn, pctl, var, sdev,
  a_open, a_expire, is_open, Bucket, Invocation, Compute, Aggregator, aggr_ht_size, with_chain,
}

-- What a line says: a number that is printed by `%f`, or by `%zu`.
pub data Value (V : Type 0) : Type 0 where
  real : V → Value V
  count : ℕ → Value V

module _ {V : Type 0} where
  -- the first `n` first_cells of the array, from `i` on
  unfoldable pub first_cells : (ℕ → V) → ℕ → ℕ → List V
  first_cells values i zero = []
  first_cells values i (suc n) = values i ∷ first_cells values (i + 1) n

  -- `values[k - 1]`
  abbrev pub nth : List V → ℕ → Option (Value V)
  nth vs zero = none
  nth vs (suc k) = elim (get_elem? vs k) [ none ↦ none | some v ↦ some (real v) ]

  unfoldable pub timestamp : Aggregator V → Bucket V → ℕ
  timestamp s b = elim s.tswhen [
    | ts_start ↦ b.start
    | ts_middle ↦ b.start + s.interval / 2
    | ts_end ↦ b.start + s.interval
  ]

module _ {V : Type 0} (d : Double V) where
  -- `ksum += pow(values[k] - avg, 2)`
  unfoldable pub square_sum : V → V → List V → V
  square_sum mean ksum [] = ksum
  square_sum mean ksum (v ∷ vs) = square_sum mean (d.add ksum (d.pow2 (d.sub v mean))) vs

  unfoldable pub variance : Bucket V → V
  unfolding square_sum first_cells
  variance b =
      d.div (square_sum (d.div b.sum (d.of_nat b.cnt)) (d.of_nat 0) (first_cells b.values 0 b.cnt))
        (d.of_nat b.cnt)

-- the order of the values for the median and the percentiles
unfoldable pub cmp_entry : {V : Type 0} → Double V → V → V → ℤ
cmp_entry d l r = d.to_int (d.sub l r)

module _ {V : Type 0} (d : Double V) (qsort : (V → V → ℤ) → List V → List V) where
  -- The switch of `write_metric`.
  unfoldable pub compute_value : ComputeType → ℕ → Bucket V → Option (Value V)
  unfolding variance first_cells cmp_entry
  compute_value sum percentile b = some (real b.sum)
  compute_value cnt percentile b = some (count b.cnt)
  compute_value max percentile b = some (real b.max)
  compute_value min percentile b = some (real b.min)
  compute_value avg percentile b = some (real (d.div b.sum (d.of_nat b.cnt)))
  compute_value medn percentile b =
      nth (qsort (cmp_entry d) (first_cells b.values 0 b.cnt)) (d.rank percentile b.cnt)
  compute_value pctl percentile b =
      nth (qsort (cmp_entry d) (first_cells b.values 0 b.cnt)) (d.rank percentile b.cnt)
  compute_value var percentile b = some (real (variance d b))
  compute_value sdev percentile b = some (real (d.sqrt (variance d b)))

  -- `print` is the `%f` of printf, and `write` says whether the pipe took the whole line.
  module _ (print : V → List ℕ) (write : List ℕ → Bool) where
    abbrev pub print_value : Value V → List ℕ
    print_value (real v) = print v
    print_value (count n) = decimal n

    -- `write_metric`: the line
    unfoldable pub write_metric : Aggregator V → Compute V → List ℕ → Bucket V → Option (List ℕ)
    unfolding compute_value timestamp decimal
    write_metric s c name b = elim (compute_value c.type c.percentile b) [
      | none ↦ none
      | some v ↦
          some
            (name ++ (b' ' ∷ (print_value v ++ (b' ' ∷ (decimal (timestamp s b) ++ (b'\n' ∷ []))))))
    ]

    -- what is left, the lines that are sent, and `work`
    abbrev pub Pass : Type 0 → Type 0
    Pass T = T × (List (List ℕ) × ℕ)

    -- One bucket that is past, with what follows it.
    unfoldable pub expire_bucket :
        Aggregator V
        → Compute V
        → List ℕ
        → Bucket V
        → Pass (List (Bucket V))
        → Option (Pass (List (Bucket V)))
    unfolding write_metric
    expire_bucket s c name b (bs, (lines, work)) =
        let b' = record b { state = a_expire } in
        if is_open b.state
        then if b.cnt == 0
          then some (b' ∷ bs, (lines, work + 1))
          else (elim (write_metric s c name b') [
            | none ↦ none
            | some line ↦ some (b' ∷ bs, (line ∷ lines, work + 1))
          ])
        else some (b ∷ bs, (lines, work))

    -- The loop over the buckets of an invocation that are past. It has no other end than a bucket
    -- that is not: `none` if all are past.
    unfoldable pub expire_buckets :
        Aggregator V
        → Compute V
        → List ℕ
        → ℕ
        → ℕ
        → List (Bucket V)
        → Option (Pass (List (Bucket V)))
    unfolding expire_bucket
    expire_buckets s c name expire now [] = none
    expire_buckets s c name expire now (b ∷ bs) =
        let rest = expire_buckets s c name expire now bs in
        if ltb (b.start + expire) now
        then (elim rest [ none ↦ none | some pass ↦ expire_bucket s c name b pass ])
        else some (b ∷ bs, ([], 0))

    -- the loop over the invocations of a slot
    unfoldable pub expire_chain :
        Aggregator V
        → Compute V
        → Bool
        → ℕ
        → List (Invocation V)
        → Option (Pass (List (Invocation V)))
    unfolding expire_buckets
    expire_chain s c keep_running now [] = some ([], ([], 0))
    expire_chain s c keep_running now (inv ∷ chain) =
        let rest = expire_chain s c keep_running now chain in
        elim (expire_buckets s c inv.metric (if keep_running then inv.expire else s.expire) now
          inv.buckets) [
            | none ↦ none
            | some (bs, (lines, work)) ↦ elim rest [
              | none ↦ none
              | some (chain', (lines', work')) ↦
                  some (record inv { buckets = bs } ∷ chain', (lines ++ lines', work + work'))
            ]
          ]

    -- the loop over `n` slots from slot `i` on
    unfoldable pub expire_slots :
        Aggregator V → Bool → ℕ → ℕ → ℕ → Compute V → Option (Pass (Compute V))
    unfolding expire_chain
    expire_slots s keep_running now i zero c = some (c, ([], 0))
    expire_slots s keep_running now i (suc n) c =
        elim (expire_chain s c keep_running now (c.invocations_ht i)) [
          | none ↦ none
          | some (chain, (lines, work)) ↦
              elim (expire_slots s keep_running now (i + 1) n (with_chain c i chain)) [
                | none ↦ none
                | some (c', (lines', work')) ↦ some (c', (lines ++ lines', work + work'))
              ]
        ]

    -- the loop over the computes
    unfoldable pub expire_computes :
        Aggregator V → Bool → ℕ → List (Compute V) → Option (Pass (List (Compute V)))
    unfolding expire_slots
    expire_computes s keep_running now [] = some ([], ([], 0))
    expire_computes s keep_running now (c ∷ cs) =
        elim (expire_slots s keep_running now 0 aggr_ht_size c) [
          | none ↦ none
          | some (c', (lines, work)) ↦ elim (expire_computes s keep_running now cs) [
            | none ↦ none
            | some (cs', (lines', work')) ↦ some (c' ∷ cs', (lines ++ lines', work + work'))
          ]
        ]

    -- what the writes count
    unfoldable pub count_writes : Aggregator V → List (List ℕ) → Aggregator V
    count_writes s [] = s
    count_writes s (line ∷ lines) =
        count_writes
          (if write line
            then record s { sent = (s.sent + 1) % 2 ^ 64 }
            else record s { dropped = (s.dropped + 1) % 2 ^ 64 })
          lines

-- The cleanup.
module _ {V : Type 0} where
  abbrev pub last_of : Bucket V → List (Bucket V) → Bucket V
  last_of b [] = b
  last_of b (c ∷ bs) = last_of c bs

  -- A bucket is used again behind the last: it keeps its room for entries.
  unfoldable pub renew : ℕ → Bucket V → Bucket V → Bucket V
  renew interval b last = record last {
    cnt = 0;
    start = last.start + interval;
    size = b.size;
    values = b.values;
    state = a_open;
  }

  -- The expired buckets move to the end; `fuel` rounds.
  unfoldable pub rotate : ℕ → ℕ → List (Bucket V) → List (Bucket V)
  unfolding renew
  rotate interval zero bs = bs
  rotate interval (suc fuel) [] = []
  rotate interval (suc fuel) (b ∷ bs) =
      let moved = rotate interval fuel (bs ++ (renew interval b (last_of b bs) ∷ [])) in
      if is_open b.state then b ∷ bs else moved

  unfoldable pub is_empty : List (Bucket V) → Bool
  is_empty [] = true
  is_empty (b ∷ bs) = (b.cnt == 0) && is_empty bs

  -- Invocations with no value left are removed.
  unfoldable pub clean_chain : ℕ → List (Invocation V) → List (Invocation V)
  unfolding rotate is_empty
  clean_chain interval [] = []
  clean_chain interval (inv ∷ chain) =
      let bs = rotate interval (length inv.buckets) inv.buckets in
      let rest = clean_chain interval chain in
      if is_empty bs then rest else record inv { buckets = bs } ∷ rest

  unfoldable pub clean_computes : ℕ → List (Compute V) → List (Compute V)
  unfolding clean_chain
  clean_computes interval [] = []
  clean_computes interval (c ∷ cs) =
      record c { invocations_ht = λ i. clean_chain interval (c.invocations_ht i) }
      ∷ clean_computes interval cs

module _ {V : Type 0} (d : Double V) (qsort : (V → V → ℤ) → List V → List V) (print : V → List ℕ)
    (write : List ℕ → Bool) where
  -- One aggregator in a pass: what is left, the lines, and `work`. While the relay stops, all buckets
  -- that are complete are past.
  unfoldable pub expire_one : Bool → ℕ → Aggregator V → Option (Aggregator V × (List (List ℕ) × ℕ))
  unfolding expire_computes count_writes clean_computes
  expire_one keep_running time s =
      let now = if keep_running then time else time + (s.expire - s.interval) in
      elim (expire_computes d qsort print write s keep_running now s.computes) [
        | none ↦ none
        | some (cs, (lines, work)) ↦ some (
          record (count_writes d qsort print write s lines) {
            computes = clean_computes s.interval cs;
          },
          (lines, work),
        )
      ]

  -- A pass over all aggregators.
  unfoldable pub expire_pass :
      Bool → ℕ → List (Aggregator V) → Option (List (Aggregator V) × (List (List ℕ) × ℕ))
  unfolding expire_one
  expire_pass keep_running time [] = some ([], ([], 0))
  expire_pass keep_running time (s ∷ aggrs) = elim (expire_one keep_running time s) [
    | none ↦ none
    | some (s', (lines, work)) ↦ elim (expire_pass keep_running time aggrs) [
      | none ↦ none
      | some (aggrs', (lines', work')) ↦ some (s' ∷ aggrs', (lines ++ lines', work + work'))
    ]
  ]
