-- ===== src/Queue.antt =====
-- queue.c: a ring of string pointers guarded by one mutex. Every operation holds the mutex from
-- its first to its last access, so an operation is one step on the record. A pointer is an
-- `Option A`, with `none` for NULL; what an operation frees it returns.
pub mod Fifo
mod Window
pub mod Inv
pub mod Refine
pub mod Batch
mod Tests
use carbon_c_relay.Prelude.{
  ℕ, zero, suc, ◌+◌, ◌-◌, Bool, true, false, Option, none, some, List, [], ◌∷◌, if◌then◌else◌, ◌==◌,
  ltb, get_or, set, replicate,
}

-- `struct _queue` without its mutex
pub record Queue (A : Type 0) : Type 0 where
  pub buf : List (Option A)
  pub end : ℕ
  pub write : ℕ
  pub read : ℕ
  pub len : ℕ

-- `if (i == q->end) i = 0`
abbrev pub wrap : ℕ → ℕ → ℕ
wrap end i = if i == end then 0 else i

module _ {A : Type 0} where
  -- `queue_new`; `stored` says whether both calls of malloc succeed
  pub queue_new : Bool → ℕ → Option (Queue A)
  queue_new false size = none
  queue_new true size =
      some (record { buf = replicate size none; end = size; write = 0; read = 0; len = 0 })

  -- the first half of `queue_enqueue`: a full queue frees its oldest entry
  pub make_room : Queue A → Queue A × List (Option A)
  make_room q =
      if q.len == q.end
      then (
        record q { read = wrap q.end q.read + 1; len = q.len - 1 },
        get_or q.buf (wrap q.end q.read) none ∷ [],
      )
      else (q, [])

  -- the second half: the pointer goes to the write position
  pub store : Queue A → Option A → Queue A
  store q p = record q {
    buf = set q.buf (wrap q.end q.write) p;
    write = wrap q.end q.write + 1;
    len = q.len + 1;
  }

  -- `queue_enqueue`, with the pointers that it frees
  unfoldable pub queue_enqueue : Queue A → Option A → Queue A × List (Option A)
  queue_enqueue q p = let (q', freed) = make_room q in (store q' p, freed)

  pub queue_dequeue : Queue A → Option A × Queue A
  queue_dequeue q = if q.len == 0 then (none, q) else (
    get_or q.buf (wrap q.end q.read) none,
    record q { read = wrap q.end q.read + 1; len = q.len - 1 },
  )

  -- the loop of `queue_dequeue_vector`: `n` rounds from the read position `r`
  unfoldable pub read_vector : List (Option A) → ℕ → ℕ → ℕ → List (Option A) × ℕ
  read_vector buf end zero r = ([], r)
  read_vector buf end (suc n) r =
      let (ret, r') = read_vector buf end n (wrap end r + 1) in
      (get_or buf (wrap end r) none ∷ ret, r')

  -- `queue_dequeue_vector`: the elements stored in `ret`, whose number is the function's result
  unfoldable pub queue_dequeue_vector : Queue A → ℕ → List (Option A) × Queue A
  queue_dequeue_vector q len =
      if q.len == 0
      then ([], q)
      else (let n = if ltb q.len len then q.len else len in
          let (ret, r) = read_vector q.buf q.end n q.read in
          (ret, record q { read = r; len = q.len - n }))

  unfoldable pub queue_putback : Queue A → Option A → Bool × Queue A
  queue_putback q p =
      if q.len == q.end
      then (false, q)
      else (let r = (if q.read == 0 then q.end else q.read) - 1 in
          (true, record q { buf = set q.buf r p; read = r; len = q.len + 1 }))

  unfoldable pub queue_len : Queue A → ℕ
  queue_len q = q.len

  unfoldable pub queue_free : Queue A → ℕ
  unfolding queue_len
  queue_free q = q.end - queue_len q

  unfoldable pub queue_size : Queue A → ℕ
  queue_size q = q.end

  -- the loop of `queue_destroy`, on fuel: the entries that are freed, and the queue left
  pub drain : ℕ → Queue A → List A × Queue A
  drain zero q = ([], q)
  drain (suc fuel) q =
      let (p, q') = queue_dequeue q in
      let rest = drain fuel q' in elim p [ none ↦ ([], q') | some a ↦ (a ∷ rest.0, rest.1) ]

  -- `queue_destroy`: one round more than there are entries ends the loop
  pub queue_destroy : Queue A → List A
  queue_destroy q = (drain (suc q.len) q).0
