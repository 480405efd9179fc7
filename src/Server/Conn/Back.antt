-- ===== src/Server/Conn/Back.antt =====
-- Metrics that are taken from a queue of texts, and put back.
use carbon_c_relay.Prelude.{
  ℕ, zero, suc, ◌+◌, ◌≤◌, ◌<◌, ◌≡◌, refl, ◌∙◌, ap, true, false, some, List, [], ◌∷◌, ◌++◌, map,
  ◌==◌, length, take, drop, arith, Bool-cases, inl, inr, length-map,
}
use carbon_c_relay.Queue.{Queue, queue_dequeue_vector, queue_putback}
use carbon_c_relay.Queue.Fifo
use carbon_c_relay.Queue.Inv.{IsValid, contents, queue_putback-IsValid, end-queue_putback}
use carbon_c_relay.Queue.Refine.{queue_putback_refines}
use carbon_c_relay.Server.Conn.{until_null, Kept, put_back}

-- Metrics put back one by one in front of others.
abbrev pub onto : List (List ℕ) → List (List ℕ) → List (List ℕ)
onto [] rest = rest
onto (m ∷ ms) rest = onto ms (m ∷ rest)

-- The metrics that a queue holds, with the count of drops and what was freed.
pub record Back (ms : List (List ℕ)) (dropped : ℕ) (freed : List (List ℕ)) (k : Kept) : Type 0 where
  pub valid : IsValid k.queue
  pub entries : contents k.queue ≡ map some ms
  pub none_dropped : k.dropped ≡ dropped
  pub none_freed : k.freed ≡ freed

pub room_back :
    (m : List ℕ) (rest : List (List ℕ)) (q : Queue (List ℕ))
    → IsValid q
    → contents q ≡ map some rest
    → length rest < q.end
    → ((queue_putback q (some m)).0 ≡ true)
      × (contents (queue_putback q (some m)).1 ≡ map some (m ∷ rest))
unfolding Fifo.putback
room_back m rest q v e l =
    let back = queue_putback_refines (some m) v in
    let few : (length (contents q) == q.end) ≡ false =
      ground (arith, ap length e, length-map rest (λ (k : List ℕ). some k)) in
    let at = back ∙ rw few refl in (ap (λ r. r.0) at, ap (λ r. r.1) at ∙ ap (λ l'. some m ∷ l') e)

-- With room for all, the metrics go back to the queue, and none is dropped.
pub put_back-Back :
    (back rest : List (List ℕ)) (k : Kept)
    → IsValid k.queue
    → contents k.queue ≡ map some rest
    → length back + length rest ≤ k.queue.end
    → Back (onto back rest) k.dropped k.freed (put_back back k)
unfolding put_back
put_back-Back [] rest k v e l = record {
  valid = v;
  entries = e;
  none_dropped = refl;
  none_freed = refl;
}
put_back-Back (m ∷ ms) rest k v e l =
    let (stored, at) = room_back m rest k.queue v e (omega arith) in
    rw (put_back, stored)
      (put_back-Back ms (m ∷ rest) (record k { queue = (queue_putback k.queue (some m)).1 })
        (queue_putback-IsValid (some m) v) at (omega (arith, end-queue_putback k.queue (some m))))

pub until_null-some : (ms : List (List ℕ)) → until_null (map some ms) ≡ ms
unfolding until_null
until_null-some [] = refl
until_null-some (m ∷ ms) = ap (λ l. m ∷ l) (until_null-some ms)

pub take-some : (n : ℕ) (ms : List (List ℕ)) → take n (map some ms) ≡ map some (take n ms)
take-some zero ms = refl
take-some (suc n) [] = refl
take-some (suc n) (m ∷ ms) = ap (λ l. some m ∷ l) (take-some n ms)

pub drop-some : (n : ℕ) (ms : List (List ℕ)) → drop n (map some ms) ≡ map some (drop n ms)
drop-some zero ms = refl
drop-some (suc n) [] = refl
drop-some (suc n) (m ∷ ms) = drop-some n ms

pub end-queue_dequeue_vector :
    (q : Queue (List ℕ)) (n : ℕ) → (queue_dequeue_vector q n).1.end ≡ q.end
unfolding queue_dequeue_vector
end-queue_dequeue_vector q n = elim (Bool-cases (q.len == 0)) [
  | inl empty ↦ rw empty refl
  | inr full ↦ rw full refl
]

pub take_out : (out back : List (List ℕ)) → take (length out) (out ++ back) ≡ out
take_out [] back = refl
take_out (m ∷ out) back = ap (λ l. m ∷ l) (take_out out back)

pub drop_out : (out back : List (List ℕ)) → drop (length out) (out ++ back) ≡ back
drop_out [] back = refl
drop_out (m ∷ out) back = drop_out out back

pub suc-ne-zero : (n : ℕ) → (suc n == 0) ≡ false
suc-ne-zero n = ground arith
