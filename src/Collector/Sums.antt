-- ===== src/Collector/Sums.antt =====
-- The sum of the lines of a kind.
use carbon_c_relay.Prelude.{
  ℕ, ◌+◌, ◌%◌, ◌^◌, ◌<◌, ◌≡◌, refl, ◌∙◌, ap, Bool, true, false, ◌&&◌, List, [], ◌∷◌, ◌++◌,
  if◌then◌else◌, ◌==◌, arith,
}
use carbon_c_relay.Collector.{
  add_size, About, dispatcher, all_dispatchers, submission, destination, connection, all_servers,
  aggregators, Count, metrics_received, metrics_blackholed, metrics_discarded, wall_time,
  sleep_time, sent, queued, stalls, dropped, requeue, failures, connections, disconnects, Line,
}

-- the kinds of lines
pub data Level : Type 0 where
  a_dispatcher over_dispatchers of_submission a_destination a_connection over_servers
        of_aggregators :
      Level

abbrev pub level : About → Level
level (dispatcher i) = a_dispatcher
level all_dispatchers = over_dispatchers
level (submission d) = of_submission
level (destination d) = a_destination
level (connection d n) = a_connection
level all_servers = over_servers
level aggregators = of_aggregators

abbrev pub level_code : Level → ℕ
level_code a_dispatcher = 0
level_code over_dispatchers = 1
level_code of_submission = 2
level_code a_destination = 3
level_code a_connection = 4
level_code over_servers = 5
level_code of_aggregators = 6

abbrev pub count_code : Count → ℕ
count_code metrics_received = 0
count_code metrics_blackholed = 1
count_code metrics_discarded = 2
count_code wall_time = 3
count_code sleep_time = 4
count_code sent = 5
count_code queued = 6
count_code stalls = 7
count_code dropped = 8
count_code requeue = 9
count_code failures = 10
count_code connections = 11
count_code disconnects = 12

-- a line of a kind, with a count
abbrev pub is_of : Level → Count → Line → Bool
is_of v c l = (level_code (level l.about) == level_code v) && (count_code l.count == count_code c)

-- the sum of the values of such lines, as a `size_t`
abbrev pub sum_of : Level → Count → List Line → ℕ
sum_of v c [] = 0
sum_of v c (l ∷ ls) = if is_of v c l then (l.value + sum_of v c ls) % 2 ^ 64 else sum_of v c ls

pub add_size_assoc : (a b c : ℕ) → add_size (add_size a b) c ≡ add_size a (add_size b c)
unfolding add_size
add_size_assoc a b c = omega arith

pub add_size_right : (a b : ℕ) → add_size a (b % 2 ^ 64) ≡ add_size a b
unfolding add_size
add_size_right a b = omega arith

pub sum_of-bound : (v : Level) (c : Count) (ls : List Line) → sum_of v c ls < 2 ^ 64
sum_of-bound v c [] = omega arith
sum_of-bound v c (l ∷ ls) = bound (is_of v c l) (sum_of v c ls) (sum_of-bound v c ls)
  where
    bound : (t : Bool) (n : ℕ) → n < 2 ^ 64 → (if t then (l.value + n) % 2 ^ 64 else n) < 2 ^ 64
    bound true n h = omega arith
    bound false n h = h

pub sum_of-append :
    (v : Level) (c : Count) (ls ks : List Line)
    → sum_of v c (ls ++ ks) ≡ add_size (sum_of v c ls) (sum_of v c ks)
unfolding add_size
sum_of-append v c [] ks = omega (arith, sum_of-bound v c ks)
sum_of-append v c (l ∷ ls) ks =
    ap (λ n. if is_of v c l then (l.value + n) % 2 ^ 64 else n) (sum_of-append v c ls ks)
    ∙ step (is_of v c l) (sum_of v c ls) (sum_of v c ks)
  where
    step :
        (t : Bool) (n k : ℕ)
        → (if t then (l.value + (n + k) % 2 ^ 64) % 2 ^ 64 else (n + k) % 2 ^ 64)
          ≡ ((if t then (l.value + n) % 2 ^ 64 else n) + k) % 2 ^ 64
    step true n k = omega arith
    step false n k = refl

-- A line of another kind does not count.
pub sum_of-skip :
    (v : Level) (c : Count) (l : Line) (ls : List Line)
    → (level_code (level l.about) == level_code v) ≡ false
    → sum_of v c (l ∷ ls) ≡ sum_of v c ls
sum_of-skip v c l ls e =
    ap
      (λ t.
        if t && (count_code l.count == count_code c)
        then (l.value + sum_of v c ls) % 2 ^ 64
        else sum_of v c ls)
      e

pub regroup_size :
    (a b c : ℕ) → (a + (b % 2 ^ 64 + c) % 2 ^ 64) % 2 ^ 64 ≡ ((a + b) % 2 ^ 64 + c) % 2 ^ 64
regroup_size a b c = omega arith

pub twice_size : (n : ℕ) → (0 + n % 2 ^ 64) % 2 ^ 64 ≡ n % 2 ^ 64
twice_size n = omega arith

-- no line is of the kind
abbrev pub Without : Level → List Line → Type 0
Without v [] = Unit
Without v (l ∷ ls) = ((level_code (level l.about) == level_code v) ≡ false) × Without v ls

pub sum_of-Without : (v : Level) (c : Count) (ls : List Line) → Without v ls → sum_of v c ls ≡ 0
sum_of-Without v c [] h = refl
sum_of-Without v c (l ∷ ls) h = sum_of-skip v c l ls h.0 ∙ sum_of-Without v c ls h.1
