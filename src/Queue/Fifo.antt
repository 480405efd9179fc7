-- ===== src/Queue/Fifo.antt =====
-- What queue.c promises: a first-in first-out list of at most `cap` entries, oldest first, that
-- gives up its oldest entry when it is full.
use carbon_c_relay.Prelude.{
  ℕ, Bool, true, false, Option, none, List, [], ◌∷◌, ◌++◌, if◌then◌else◌, ◌==◌, length, take, drop,
}

module _ {P : Type 0} where
  unfoldable pub tail : List P → List P
  tail [] = []
  tail (x ∷ xs) = xs

  -- the entries kept, and those given up
  unfoldable pub enqueue : ℕ → List P → P → List P × List P
  unfolding tail
  enqueue cap xs p =
      if length xs == cap then (tail xs ++ (p ∷ []), take 1 xs) else (xs ++ (p ∷ []), [])

  unfoldable pub putback : ℕ → List P → P → Bool × List P
  putback cap xs p = if length xs == cap then (false, xs) else (true, p ∷ xs)

  unfoldable pub dequeue_vector : List P → ℕ → List P × List P
  dequeue_vector xs n = (take n xs, drop n xs)

module _ {A : Type 0} where
  unfoldable pub dequeue : List (Option A) → Option A × List (Option A)
  dequeue [] = (none, [])
  dequeue (x ∷ xs) = (x, xs)
