-- ===== src/Aggregator/Tests.antt =====
-- Runs of an aggregator, with natural numbers for doubles, and each theorem at an input.
use carbon_c_relay.Prelude.{
  ℕ, ◌+◌, ◌-◌, ◌*◌, ◌/◌, ◌≡◌, refl, true, false, some, none, List, [], ◌∷◌, Option, if◌then◌else◌,
  ltb, inl, inr, arith, length, Bool,
}
use carbon_c_relay.Prelude.Int.{ℤ, pos}
use mathlib.Core.List.Perm
use carbon_c_relay.Prelude.Bytes.{decimal}
use carbon_c_relay.Aggregator.{
  Double, Bucket, Invocation, Compute, Aggregator, Draw, a_open, ts_end, sum, pctl, medn, put_value,
  new_invocation, aggregator_new, aggregator_add_compute, aggregator_putmetric, bucket_count,
}
use carbon_c_relay.Aggregator.Expire.{compute_value, cmp_entry}
use carbon_c_relay.Aggregator.Values.{add_values, is_positive, Says, add_values-summary}
use carbon_c_relay.Aggregator.Slots.{IsTimed, Placed, put_value-Placed, new_invocation-accepts}
use carbon_c_relay.Aggregator.Rotate.{Expired, expire_buckets-Expired}

abbrev whole : Double ℕ
whole = record {
  of_nat = λ n. n;
  add = λ a b. a + b;
  sub = λ a b. a - b;
  div = λ a b. a / b;
  pow2 = λ a. a * a;
  sqrt = λ a. a;
  lt = ltb;
  rank = λ p n. (p * n + 90) / 100;
  to_int = λ a. pos a;
}

abbrev text : List ℕ
text = b'a' ∷ []

abbrev bucket : ℕ → Bucket ℕ
bucket start = record {
  state = a_open;
  start = start;
  cnt = 0;
  sum = 0;
  max = 0;
  min = 0;
  size = 0;
  values = λ i. 0;
}

abbrev invocation : Invocation ℕ
invocation = record {
  metric = text;
  hash = 3;
  expire = 20;
  buckets = bucket 80 ∷ bucket 90 ∷ bucket 100 ∷ bucket 110 ∷ [];
}

abbrev aggregator : Aggregator ℕ
aggregator = record {
  interval = 10;
  expire = 20;
  tswhen = ts_end;
  bucketcnt = 4;
  received = 0;
  sent = 0;
  dropped = 0;
  computes = [];
}

abbrev compute : Compute ℕ
compute = record {
  type = sum;
  metric = text;
  invocations_ht = λ i. [];
  entries_needed = false;
  percentile = 0;
}

abbrev draw : Draw ℕ
draw = record { now = 105; random = 7; granted = true; regrown = true; blank = 0 }

invocation-IsTimed : IsTimed aggregator 80 invocation
invocation-IsTimed = record { spaced = (refl, (refl, (refl, (refl, tt)))); all_there = refl }

-- A metric that is put in an aggregator with one compute, of a name that is new.
unfoldable put_one : ℕ → Option (Aggregator ℕ)
unfolding aggregator_new aggregator_add_compute aggregator_putmetric
put_one epoch = elim (aggregator_new true 10 20 ts_end) [
  | none ↦ none
  | some s ↦ some (
      aggregator_putmetric whole (λ l. 5) (λ l. pos epoch) true (λ i. draw)
        (aggregator_add_compute s text sum 0) (b'x' ∷ b' ' ∷ b'5' ∷ b' ' ∷ b'8' ∷ []) 1 0 [])
]

abbrev counters : Option (Aggregator ℕ) → Option (ℕ × ℕ)
counters none = none
counters (some s) = some (s.received, s.dropped)

-- A value for the time 85 is kept, and one for the time 145 is dropped.
run_put : (counters (put_one 85) ≡ some (1, 0)) × (counters (put_one 145) ≡ some (1, 1))
unfolding put_one
run_put = (refl, refl)

put_value-Placed_example :
    Placed whole aggregator 80 false true 5 invocation 97
      (put_value whole aggregator false true 5 (pos 97) invocation)
put_value-Placed_example =
    put_value-Placed whole aggregator 80 false true 5 97 invocation invocation-IsTimed (omega arith)
      (omega arith)

new_invocation-accepts_example :
    (inv : Invocation ℕ) × (put_value whole aggregator true true 5
        (pos 85)
        (new_invocation aggregator draw text 3)
      ≡ some inv)
    × IsTimed aggregator 80 inv
unfolding bucket_count
new_invocation-accepts_example =
    new_invocation-accepts whole aggregator draw text 3 85 true 5 (omega arith) (omega arith)
      (omega arith) refl (omega arith) (omega arith) (omega arith) (omega arith)

-- one that returns two values in their order
abbrev sort_two : (ℕ → ℕ → ℤ) → List ℕ → List ℕ
sort_two cmp [] = []
sort_two cmp (a ∷ []) = a ∷ []
sort_two cmp (a ∷ b ∷ l) = if is_positive (cmp a b) then b ∷ a ∷ l else a ∷ b ∷ l

-- The 90th percentile of 8 and 4 is 8.
add_values-summary_example :
    Says whole pctl 90 8
      (4 ∷ [])
      (compute_value whole sort_two pctl 90 (add_values whole true (8 ∷ 4 ∷ []) (bucket 80)))
unfolding cmp_entry
add_values-summary_example =
    add_values-summary whole sort_two pctl 90 (bucket 80) 8 (4 ∷ []) refl
      (Perm.swap 8 4 [], (refl, tt), (omega arith, omega arith))

sort_two-length : (vs : List ℕ) → length (sort_two (cmp_entry whole) vs) ≡ length vs
sort_two-length [] = refl
sort_two-length (a ∷ []) = refl
sort_two-length (a ∷ b ∷ l) = by_test (is_positive (cmp_entry whole a b))
  where
    by_test : (t : Bool) → length (if t then b ∷ a ∷ l else a ∷ b ∷ l) ≡ length (a ∷ b ∷ l)
    by_test true = refl
    by_test false = refl

abbrev median : Compute ℕ
median = record compute { type = medn; entries_needed = true; percentile = 50 }

abbrev with_value : List (Bucket ℕ)
with_value = record (bucket 80) { cnt = 1; size = 16 } ∷ bucket 90 ∷ bucket 100 ∷ bucket 110 ∷ []

expire_buckets-Expired_example :
    Expired whole sort_two decimal (λ l. true) aggregator median text 10 80 20 105 with_value
expire_buckets-Expired_example =
    expire_buckets-Expired whole sort_two decimal (λ l. true) aggregator median text sort_two-length
      10 80 20 105 with_value (refl, (refl, (refl, (refl, tt)))) (refl, (refl, (refl, (refl, tt))))
      (inr (inr (inr (inl refl))))
      (λ e. (omega arith, omega arith), (λ e. absurd cc, (λ e. absurd cc, (λ e. absurd cc, tt))))
