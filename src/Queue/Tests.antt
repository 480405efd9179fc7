-- ===== src/Queue/Tests.antt =====
-- Runs of queue.c on small rings, and each theorem at an input.
use carbon_c_relay.Prelude.{ℕ, ◌≡◌, refl, true, false, none, some, List, [], ◌∷◌, arith}
use carbon_c_relay.Queue.{
  Queue, make_room, store, queue_enqueue, queue_dequeue, queue_dequeue_vector, queue_putback,
}
use carbon_c_relay.Queue.Fifo
use carbon_c_relay.Queue.Inv.{IsValid, contents}
use carbon_c_relay.Queue.Batch.{
  Op, enqueue, dequeue, putback, freed, got, stored, run, run_fifo, run_refines,
  queue_dequeue_vector_refines,
}

-- a full ring of three that holds 7, 8, 9 and goes round the end of its cells
abbrev full : Queue ℕ
full = record { buf = some 8 ∷ some 9 ∷ some 7 ∷ []; end = 3; write = 2; read = 2; len = 3 }

-- the same with 7 taken out: the read position stands one past the last cell
abbrev lazy : Queue ℕ
lazy = record { buf = some 8 ∷ some 9 ∷ some 7 ∷ []; end = 3; write = 2; read = 3; len = 2 }

full-IsValid : IsValid full
full-IsValid = omega arith

lazy-IsValid : IsValid lazy
lazy-IsValid = omega arith

abbrev new_queue : Queue ℕ
new_queue = record { buf = none ∷ none ∷ []; end = 2; write = 0; read = 0; len = 0 }

script : List (Op ℕ)
script = enqueue (some 1) ∷ putback (some 2) ∷ dequeue ∷ putback (some 3) ∷ dequeue ∷ []

run-full :
    run full script
    ≡ freed (some 7 ∷ []) ∷ stored false ∷ got (some 8) ∷ stored true ∷ got (some 3) ∷ []
unfolding script run queue_enqueue make_room store queue_dequeue queue_putback
run-full = refl

run_refines_example : run full script ≡ run_fifo 3 (some 7 ∷ some 8 ∷ some 9 ∷ []) script
run_refines_example = run_refines script full full-IsValid

queue_dequeue_vector_refines_example :
    ((((queue_dequeue_vector full 2).0, contents (queue_dequeue_vector full 2).1))
      ≡ Fifo.dequeue_vector (some 7 ∷ some 8 ∷ some 9 ∷ []) 2)
    × IsValid (queue_dequeue_vector full 2).1
queue_dequeue_vector_refines_example = queue_dequeue_vector_refines full 2 full-IsValid
