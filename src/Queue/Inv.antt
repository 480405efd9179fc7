-- ===== src/Queue/Inv.antt =====
-- The representation invariant of the ring: positions in range, and the write position as many
-- places after the read position as there are entries.
use carbon_c_relay.Prelude.{
  ℕ, ◌-◌, ◌≤◌, ◌<◌, ◌≡◌, true, Option, none, some, List, arith, length, length-set,
  length-replicate, if◌then◌else◌, ◌==◌,
}
use carbon_c_relay.Queue.{
  Queue, wrap, queue_new, make_room, store, queue_enqueue, queue_dequeue, queue_putback, queue_free,
  queue_len,
}
use carbon_c_relay.Queue.Window.{place, window}

pub record IsValid {A : Type 0} (q : Queue A) : Type 0 where
  pub cells : length q.buf ≡ q.end
  pub room : 0 < q.end
  pub read_in : q.read ≤ q.end
  pub write_in : q.write ≤ q.end
  pub len_in : q.len ≤ q.end
  pub written : wrap q.end q.write ≡ place q.end (wrap q.end q.read) q.len

module _ {A : Type 0} where
  -- the entries, oldest first
  abbrev pub contents : Queue A → List (Option A)
  contents q = window q.end q.buf q.read q.len

  -- A new queue of one cell or more is valid and empty.
  pub queue_new-IsValid :
      (size : ℕ) {q : Queue A} → 0 < size → queue_new true size ≡ some q → IsValid q × (q.len ≡ 0)
  unfolding queue_new
  queue_new-IsValid size h e = ground (arith, length-replicate {A = Option A} size none)

  pub make_room-IsValid : {q : Queue A} → IsValid q → IsValid (make_room q).0
  unfolding make_room
  make_room-IsValid v = ground arith

  pub make_room_lem :
      {q : Queue A} → IsValid q → ((make_room q).0.end ≡ q.end) × ((make_room q).0.len < q.end)
  unfolding make_room
  make_room_lem v = ground arith

  pub store-IsValid : {q : Queue A} (p : Option A) → IsValid q → q.len < q.end → IsValid (store q p)
  unfolding store
  store-IsValid {q} p v h = ground (arith, length-set q.buf (wrap q.end q.write) p)

  pub queue_enqueue-IsValid :
      (q : Queue A) (p : Option A) → IsValid q → IsValid (queue_enqueue q p).0
  unfolding queue_enqueue
  queue_enqueue-IsValid q p v =
      store-IsValid p (make_room-IsValid v) (omega (arith, make_room_lem v))

  pub queue_dequeue-IsValid : {q : Queue A} → IsValid q → IsValid (queue_dequeue q).1
  unfolding queue_dequeue
  queue_dequeue-IsValid v = ground arith

  pub queue_putback-IsValid :
      {q : Queue A} (p : Option A) → IsValid q → IsValid (queue_putback q p).1
  unfolding queue_putback
  queue_putback-IsValid {q} p v =
      ground (arith, length-set q.buf ((if q.read == 0 then q.end else q.read) - 1) p)

  pub end-queue_enqueue : (q : Queue A) (p : Option A) → (queue_enqueue q p).0.end ≡ q.end
  unfolding queue_enqueue make_room store
  end-queue_enqueue q p = ground arith

  pub end-queue_dequeue : (q : Queue A) → (queue_dequeue q).1.end ≡ q.end
  unfolding queue_dequeue
  end-queue_dequeue q = ground arith

  pub end-queue_putback : (q : Queue A) (p : Option A) → (queue_putback q p).1.end ≡ q.end
  unfolding queue_putback
  end-queue_putback q p = ground arith

  -- A full queue gives up one entry, and a queue with room none.
  pub freed-queue_enqueue :
      {q : Queue A} (p : Option A)
      → IsValid q
      → length (queue_enqueue q p).1 ≡ (if queue_free q == 0 then 1 else 0)
  unfolding queue_enqueue make_room queue_free queue_len
  freed-queue_enqueue p v = ground arith
