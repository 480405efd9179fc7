-- ===== src/Queue/Batch.antt =====
-- The operations on several entries: `queue_dequeue_vector`, `queue_destroy`, and a client's calls
-- in sequence.
use mathlib.Core.Path.{subst}
use carbon_c_relay.Prelude.{
  ℕ, zero, suc, ◌+◌, ◌-◌, ◌≤◌, ◌<◌, ◌≡◌, refl, ap, ◌∙◌, Bool, Option, none, some, List, [], ◌∷◌,
  map, arith, length, length-map, get_or, take, drop,
}
use carbon_c_relay.Queue.{
  Queue, wrap, read_vector, queue_enqueue, queue_dequeue, queue_dequeue_vector, queue_putback,
  drain, queue_destroy,
}
use carbon_c_relay.Queue.Fifo
use carbon_c_relay.Queue.Window.{place, window}
use carbon_c_relay.Queue.Inv.{
  IsValid, contents, queue_enqueue-IsValid, queue_dequeue-IsValid, queue_putback-IsValid,
  end-queue_enqueue, end-queue_dequeue, end-queue_putback,
}
use carbon_c_relay.Queue.Refine.{
  length-contents, queue_enqueue_refines, queue_dequeue_refines, queue_putback_refines,
}

-- what a client can call
pub data Op (A : Type 0) : Type 0 where
  enqueue : Option A → Op A
  dequeue : Op A
  putback : Option A → Op A

-- what it sees: the pointers that it gets or that are freed, and whether a pointer was stored
pub data Reply (A : Type 0) : Type 0 where
  freed : List (Option A) → Reply A
  got : Option A → Reply A
  stored : Bool → Reply A

wrap-step : (end r : ℕ) → r ≤ end → 0 < end → wrap end r + 1 ≤ end
wrap-step end r a b = ground arith

place-step :
    (end r n : ℕ)
    → r ≤ end
    → n < end
    → place end (wrap end (wrap end r + 1)) n ≡ place end (wrap end r) (suc n)
place-step end r n a b = ground arith

module _ {A : Type 0} where
  -- a client's calls in order, with what each returns
  unfoldable pub run : Queue A → List (Op A) → List (Reply A)
  run q [] = []
  run q (enqueue p ∷ ops) = let (q', f) = queue_enqueue q p in freed f ∷ run q' ops
  run q (dequeue ∷ ops) = let (p, q') = queue_dequeue q in got p ∷ run q' ops
  run q (putback p ∷ ops) = let (b, q') = queue_putback q p in stored b ∷ run q' ops

  pub run_fifo : ℕ → List (Option A) → List (Op A) → List (Reply A)
  run_fifo cap xs [] = []
  run_fifo cap xs (enqueue p ∷ ops) =
      let (xs', f) = Fifo.enqueue cap xs p in freed f ∷ run_fifo cap xs' ops
  run_fifo cap xs (dequeue ∷ ops) = let (p, xs') = Fifo.dequeue xs in got p ∷ run_fifo cap xs' ops
  run_fifo cap xs (putback p ∷ ops) =
      let (b, xs') = Fifo.putback cap xs p in stored b ∷ run_fifo cap xs' ops

  -- No sequence of calls tells a valid queue from the bounded list of its entries.
  pub run_refines :
      (ops : List (Op A)) (q : Queue A) → IsValid q → run q ops ≡ run_fifo q.end (contents q) ops
  unfolding run run_fifo
  run_refines [] q v = refl
  run_refines (enqueue p ∷ ops) q v = rw (
    run_refines ops (queue_enqueue q p).0 (queue_enqueue-IsValid q p v),
    ← queue_enqueue_refines p v,
    end-queue_enqueue,
  )
  run_refines (dequeue ∷ ops) q v = rw (
    run_refines ops (queue_dequeue q).1 (queue_dequeue-IsValid v),
    ← queue_dequeue_refines v,
    end-queue_dequeue,
  )
  run_refines (putback p ∷ ops) q v = rw (
    run_refines ops (queue_putback q p).1 (queue_putback-IsValid p v),
    ← queue_putback_refines p v,
    end-queue_putback,
  )

  take_all : (n : ℕ) (xs : List (Option A)) → length xs ≤ n → take n xs ≡ xs
  take_all zero [] h = refl
  take_all zero (x ∷ xs) h = absurd (omega arith)
  take_all (suc n) [] h = refl
  take_all (suc n) (x ∷ xs) h = ap (λ ys. x ∷ ys) (take_all n xs (omega arith))

  drop_all : (n : ℕ) (xs : List (Option A)) → length xs ≤ n → drop n xs ≡ []
  drop_all zero [] h = refl
  drop_all zero (x ∷ xs) h = absurd (omega arith)
  drop_all (suc n) [] h = refl
  drop_all (suc n) (x ∷ xs) h = drop_all n xs (omega arith)

  -- what the loop of `queue_dequeue_vector` leaves in `ret`, and where it stops
  record Reads (buf : List (Option A)) (end r n k : ℕ) : Type 0 where
    taken : (read_vector buf end n r).0 ≡ take n (window end buf r k)
    left : window end buf (read_vector buf end n r).1 (k - n) ≡ drop n (window end buf r k)
    in_range : (read_vector buf end n r).1 ≤ end
    moved : wrap end (read_vector buf end n r).1 ≡ place end (wrap end r) n

  Reads-step :
      (buf : List (Option A)) (end r n k : ℕ)
      → r ≤ end
      → n < end
      → Reads buf end (wrap end r + 1) n k
      → Reads buf end r (suc n) (suc k)
  unfolding read_vector
  Reads-step buf end r n k a b ih = record {
    taken = ap (λ xs. get_or buf (wrap end r) none ∷ xs) ih.taken;
    left =
        subst
          (λ m.
            window end buf (read_vector buf end n (wrap end r + 1)).1 m
            ≡ drop n (window end buf (wrap end r + 1) k))
          (omega arith) ih.left;
    in_range = ih.in_range;
    moved = ih.moved ∙ place-step end r n a b;
  }

  Reads-zero : (buf : List (Option A)) (end r k : ℕ) → r ≤ end → 0 < end → Reads buf end r zero k
  unfolding read_vector
  Reads-zero buf end r k a b = ground arith

  read_vector-Reads :
      (buf : List (Option A)) (end r n k : ℕ)
      → r ≤ end
      → 0 < end
      → n ≤ k
      → k ≤ end
      → Reads buf end r n k
  read_vector-Reads buf end r zero k a b c d = Reads-zero buf end r k a b
  read_vector-Reads buf end r (suc n) zero a b c d = absurd (omega arith)
  read_vector-Reads buf end r (suc n) (suc k) a b c d = Reads-step buf end r n k a (omega arith) (
      read_vector-Reads buf end (wrap end r + 1) n k (wrap-step end r a b) b (omega arith)
        (omega arith))

  -- `queue_dequeue_vector` returns the `n` oldest entries, or all if there are fewer, in order;
  -- the queue keeps the rest and stays valid.
  pub queue_dequeue_vector_refines :
      (q : Queue A) (n : ℕ)
      → IsValid q
      → let (ret, q') = queue_dequeue_vector q n in
        ((ret, contents q') ≡ Fifo.dequeue_vector (contents q) n) × IsValid q'
  unfolding queue_dequeue_vector Fifo.dequeue_vector
  queue_dequeue_vector_refines q n v =
      let reads = λ (m : ℕ) (h : m ≤ q.len).
        read_vector-Reads q.buf q.end q.read m q.len v.read_in v.room h v.len_in in
      ground (
        arith,
        length-contents q,
        take_all n (contents q),
        drop_all n (contents q),
        take_all q.len (contents q),
        drop_all q.len (contents q),
        reads n,
        reads q.len,
      )

  drain_lem :
      (xs : List A) (q : Queue A)
      → IsValid q
      → contents q ≡ map some xs
      → (fuel : ℕ) → length xs < fuel
      → (drain fuel q).0 ≡ xs
  unfolding drain Fifo.dequeue
  drain_lem xs q v e zero h = absurd (omega arith)
  drain_lem [] q v e (suc fuel) h =
      rw (ap (λ t. t.0) (queue_dequeue_refines v ∙ ap Fifo.dequeue e), drain) refl
  drain_lem (x ∷ xs) q v e (suc fuel) h =
      let step = queue_dequeue_refines v ∙ ap Fifo.dequeue e in
      rw (ap (λ t. t.0) step, drain)
        (ap (λ ys. x ∷ ys)
          (drain_lem xs (queue_dequeue q).1 (queue_dequeue-IsValid v) (ap (λ t. t.1) step) fuel
            (omega arith)))

  -- On a valid queue that holds no NULL `queue_destroy` frees every entry, oldest first, and
  -- nothing else.
  pub queue_destroy_lem :
      (xs : List A) (q : Queue A) → IsValid q → contents q ≡ map some xs → queue_destroy q ≡ xs
  unfolding queue_destroy
  queue_destroy_lem xs q v e =
      drain_lem xs q v e (suc q.len)
        (omega (arith, length-contents q, ap length e, length-map xs (λ (x : A). some x)))
