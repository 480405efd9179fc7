-- ===== src/Queue/Refine.antt =====
-- A valid ring behaves as the bounded list of the entries that it holds.
use carbon_c_relay.Prelude.{
  ℕ, ◌+◌, ◌-◌, ◌<◌, ◌≡◌, ◌∙◌, Option, none, [], ◌∷◌, ◌++◌, arith, length, set, if◌then◌else◌, ◌==◌,
  ◌≢◌, take,
}
use mathlib.Core.Path.{ap₂}
use native.Mathlib.Nat.{le_refl}
use native.Mathlib.Numerals.{add-one}
use carbon_c_relay.Queue.{
  Queue, wrap, make_room, store, queue_enqueue, queue_dequeue, queue_putback,
}
use carbon_c_relay.Queue.Fifo
use carbon_c_relay.Queue.Window.{
  window, window-cons, window-wrap, window-set_out, window-snoc, get_or-set_self, length-window,
}
use carbon_c_relay.Queue.Inv.{IsValid, contents, make_room-IsValid, make_room_lem}

module _ {A : Type 0} where
  pub length-contents : (q : Queue A) → length (contents q) ≡ q.len
  length-contents q = length-window q.end q.buf q.read q.len

  contents-store :
      {q : Queue A} (p : Option A)
      → IsValid q
      → q.len < q.end
      → contents (store q p) ≡ contents q ++ (p ∷ [])
  unfolding store
  contents-store {q} p v h =
      let i = wrap q.end q.write in
      rw add-one (
        window-snoc q.end (set q.buf i p) q.read q.len v.read_in h
        ∙ ap₂ (λ xs x. xs ++ (x ∷ []))
            (window-set_out q.end q.buf p q.read q.len q.len i v.read_in v.room (le_refl _) h
              v.written)
            (rw (← v.written) (get_or-set_self q.buf i p none (ground arith))))

  contents-make_room :
      {q : Queue A}
      → IsValid q
      → q.len ≡ q.end
      → (contents (make_room q).0 ≡ Fifo.tail (contents q))
        × ((make_room q).1 ≡ take 1 (contents q))
  unfolding make_room Fifo.tail
  contents-make_room {q} v e = ground (arith, window-cons q.end q.buf q.read q.len)

  make_room-free : (q : Queue A) → q.len ≢ q.end → make_room q ≡ (q, [])
  unfolding make_room
  make_room-free q h = ground arith

  -- `queue_enqueue` appends the pointer to the list; on a full queue it drops and frees the oldest
  -- entry, and that one only.
  pub queue_enqueue_refines :
      {q : Queue A} (p : Option A)
      → IsValid q
      → let (q', freed) = queue_enqueue q p in
        (contents q', freed) ≡ Fifo.enqueue q.end (contents q) p
  unfolding queue_enqueue Fifo.enqueue
  queue_enqueue_refines {q} p v =
      rw (contents-store p (make_room-IsValid v) (omega (arith, make_room_lem v)))
        (ground (arith, length-contents q, contents-make_room v, make_room-free q))

  -- `queue_dequeue` returns the oldest entry, or NULL on an empty queue, and leaves the rest.
  pub queue_dequeue_refines :
      {q : Queue A}
      → IsValid q
      → let (p, q') = queue_dequeue q in (p, contents q') ≡ Fifo.dequeue (contents q)
  unfolding queue_dequeue Fifo.dequeue
  queue_dequeue_refines {q} v = ground (arith, window-cons q.end q.buf q.read q.len)

  contents-back :
      {q : Queue A} (p : Option A) (r : ℕ)
      → IsValid q
      → q.len < q.end
      → r < q.end
      → wrap q.end (r + 1) ≡ wrap q.end q.read
      → window q.end (set q.buf r p) r (q.len + 1) ≡ p ∷ contents q
  contents-back {q} p r v h a e = rw add-one (
      ap₂ ◌∷◌ (ground (arith, get_or-set_self q.buf r p none)) (
        window-wrap q.end (set q.buf r p) (wrap q.end r + 1) q.read q.len (ground arith)
        ∙ window-set_out q.end q.buf p q.read q.len (q.end - 1) r v.read_in v.room (omega arith)
            (omega arith) (ground arith)))

  -- `queue_putback` puts the pointer before the oldest entry if there is room, and else refuses it
  -- and leaves the queue as it is.
  pub queue_putback_refines :
      {q : Queue A} (p : Option A)
      → IsValid q
      → let (stored, q') = queue_putback q p in
        (stored, contents q') ≡ Fifo.putback q.end (contents q) p
  unfolding queue_putback Fifo.putback
  queue_putback_refines {q} p v =
      let r = (if q.read == 0 then q.end else q.read) - 1 in
      ground (arith, length-contents q, contents-back p r v)
