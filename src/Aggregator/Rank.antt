-- ===== src/Aggregator/Rank.antt =====
-- The value that a median or a percentile picks from the sorted values, and the line of a bucket.
use carbon_c_relay.Prelude.{
  ℕ, zero, suc, ◌+◌, ◌≤◌, ◌<◌, ◌≡◌, refl, ap, Bool, false, Option, none, some, List, [], ◌∷◌, ◌++◌,
  ◌==◌, length, arith,
}
use carbon_c_relay.Prelude.Int.{ℤ}
use carbon_c_relay.Prelude.Bytes.{decimal}
use carbon_c_relay.Aggregator.{
  Double, ComputeType, sum, cnt, max, min, avg, medn, pctl, var, sdev, Bucket, Compute, Aggregator,
}
use carbon_c_relay.Aggregator.Expire.{
  Value, real, count, first_cells, nth, cmp_entry, compute_value, write_metric, print_value,
  timestamp,
}

-- The value `out` is the `k`th of the list, counted from 1.
pub record IsAt {V : Type 0} (vs : List V) (k : ℕ) (out : Option (Value V)) : Type 0 where
  pub before : List V
  pub value : V
  pub behind : List V
  pub split : vs ≡ before ++ (value ∷ behind)
  pub place : k ≡ length before + 1
  pub result : out ≡ some (real value)

pub nth-IsAt : {V : Type 0} (vs : List V) (k : ℕ) → 0 < k → k ≤ length vs → IsAt vs k (nth vs k)
nth-IsAt vs zero p l = absurd (omega arith)
nth-IsAt [] (suc k) p l = absurd (omega arith)
nth-IsAt (v ∷ vs) (suc zero) p l = record {
  before = [];
  value = v;
  behind = vs;
  split = refl;
  place = refl;
  result = refl;
}
nth-IsAt (v ∷ vs) (suc (suc k)) p l =
    let rest = nth-IsAt vs (suc k) (omega arith) (omega arith) in
    record {
      before = v ∷ rest.before;
      value = rest.value;
      behind = rest.behind;
      split = ap (λ us. v ∷ us) rest.split;
      place = omega (arith, rest.place);
      result = rest.result;
    }

length-first_cells : {V : Type 0} (values : ℕ → V) (i n : ℕ) → length (first_cells values i n) ≡ n
unfolding first_cells
length-first_cells values i zero = refl
length-first_cells values i (suc n) = ap suc (length-first_cells values (i + 1) n)

module _ {V : Type 0} (d : Double V) where
  -- For a median or a percentile: the rank of `n` values is the place of one of them.
  abbrev pub IsRanked : ComputeType → ℕ → ℕ → Type 0
  IsRanked sum p n = Unit
  IsRanked cnt p n = Unit
  IsRanked max p n = Unit
  IsRanked min p n = Unit
  IsRanked avg p n = Unit
  IsRanked medn p n = (0 < d.rank p n) × (d.rank p n ≤ n)
  IsRanked pctl p n = (0 < d.rank p n) × (d.rank p n ≤ n)
  IsRanked var p n = Unit
  IsRanked sdev p n = Unit

  -- the buckets that have values are ranked
  abbrev pub AllRanked : ComputeType → ℕ → List (Bucket V) → Type 0
  AllRanked type p [] = Unit
  AllRanked type p (b ∷ bs) = ((b.cnt == 0) ≡ false → IsRanked type p b.cnt) × AllRanked type p bs

module _ {V : Type 0} (d : Double V) (qsort : (V → V → ℤ) → List V → List V) (print : V → List ℕ)
    (write : List ℕ → Bool) (s : Aggregator V) (c : Compute V) (name : List ℕ) where
  -- the line of a bucket
  abbrev pub line : Bucket V → List ℕ
  line b = elim (write_metric d qsort print write s c name b) [ none ↦ [] | some l ↦ l ]

module _ {V : Type 0} (d : Double V) (qsort : (V → V → ℤ) → List V → List V)
    (keeps_length : (vs : List V) → length (qsort (cmp_entry d) vs) ≡ length vs) where
  picks_one :
      (p : ℕ) (b : Bucket V)
      → (0 < d.rank p b.cnt) × (d.rank p b.cnt ≤ b.cnt)
      → (x : Value V) × (nth (qsort (cmp_entry d) (first_cells b.values 0 b.cnt)) (d.rank p b.cnt)
          ≡ some x)
  picks_one p b h =
      let one = nth-IsAt (qsort (cmp_entry d) (first_cells b.values 0 b.cnt)) (d.rank p b.cnt) h.0 (
        omega (
          arith,
          h.1,
          keeps_length (first_cells b.values 0 b.cnt),
          length-first_cells b.values 0 b.cnt,
        )) in
      (real one.value, one.result)

  -- Every compute gives a value of a bucket that is ranked.
  compute_value-some :
      (type : ComputeType) (p : ℕ) (b : Bucket V)
      → IsRanked d type p b.cnt
      → (x : Value V) × (compute_value d qsort type p b ≡ some x)
  unfolding compute_value
  compute_value-some sum p b h = (real b.sum, refl)
  compute_value-some cnt p b h = (count b.cnt, refl)
  compute_value-some max p b h = (real b.max, refl)
  compute_value-some min p b h = (real b.min, refl)
  compute_value-some avg p b h = (_, refl)
  compute_value-some medn p b h = picks_one p b h
  compute_value-some pctl p b h = picks_one p b h
  compute_value-some var p b h = (_, refl)
  compute_value-some sdev p b h = (_, refl)

  -- The line of a bucket that is ranked is written.
  pub write_metric-line :
      (print : V → List ℕ) (write : List ℕ → Bool) (s : Aggregator V) (c : Compute V)
      (name : List ℕ) (b : Bucket V)
      → IsRanked d c.type c.percentile b.cnt
      → write_metric d qsort print write s c name b ≡ some (line d qsort print write s c name b)
  unfolding write_metric
  write_metric-line print write s c name b h =
      let (x, e) = compute_value-some c.type c.percentile b h in
      shown (write_metric d qsort print write s c name b)
        (name
          ++ (b' '
              ∷ (print_value d qsort print write x
                  ++ (b' ' ∷ (decimal (timestamp s b) ++ (b'\n' ∷ []))))))
        (rw (write_metric, e) refl)
    where
      shown :
          (o : Option (List ℕ)) (l : List ℕ)
          → o ≡ some l
          → o ≡ some (elim o [ none ↦ [] | some k ↦ k ])
      shown none l e = cc
      shown (some k) l e = refl
