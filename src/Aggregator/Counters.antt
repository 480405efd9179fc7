-- ===== src/Aggregator/Counters.antt =====
-- aggregator.c: what the collector asks of the aggregators.
use carbon_c_relay.Prelude.{ℕ, ◌+◌, ◌-◌, ◌%◌, ◌^◌, List, [], ◌∷◌, length}
use carbon_c_relay.Aggregator.{Aggregator}

module _ {V : Type 0} where
  unfoldable pub aggregator_numaggregators : List (Aggregator V) → ℕ
  aggregator_numaggregators aggrs = length aggrs

  unfoldable pub aggregator_numcomputes : List (Aggregator V) → ℕ
  aggregator_numcomputes [] = 0
  aggregator_numcomputes (a ∷ aggrs) = length a.computes + aggregator_numcomputes aggrs

  -- `aggregator_get_received`, `_sent` and `_dropped`: the sum of a counter
  unfoldable pub total_of : (Aggregator V → ℕ) → List (Aggregator V) → ℕ
  total_of counter [] = 0
  total_of counter (a ∷ aggrs) = (counter a + total_of counter aggrs) % 2 ^ 64

-- `aggregator_get_received_sub` and its like: what is returned, and the static variable it leaves,
-- from the sum and that variable; a `size_t` goes round.
unfoldable pub since : ℕ → ℕ → ℕ × ℕ
since tot prev = let r = (tot + (2 ^ 64 - prev)) % 2 ^ 64 in (r, (prev + r) % 2 ^ 64)
