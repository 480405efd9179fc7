-- ===== src/Ring/Jump.antt =====
-- The jump hash: each bucket number is in range, and the choice of several servers repeats none.
use mathlib.Core.List.{Perm, perm_append_singleton}
use mathlib.Core.List.Perm
use carbon_c_relay.Prelude.{
  ℕ, zero, suc, ◌+◌, ◌-◌, ◌*◌, ◌/◌, ◌%◌, ◌^◌, ◌≤◌, ◌<◌, ◌≡◌, refl, ap, some, List, [], ◌∷◌, ◌++◌,
  arith, length, length-set, take, get_elem?, set, Bool-cases, ltb, ◌==◌, inl, inr, min,
}
use carbon_c_relay.Server.{Server}
use carbon_c_relay.Ring.Get.{jump_loop, jump_bucketpos, xorshift, move_last, jump_nodes}

module _ (leap : ℕ → ℕ → ℕ) (grows : (b r : ℕ) → r < 2 ^ 31 → b < leap b r) where
  jump_loop-lt :
      (fuel bckcnt key b j : ℕ)
      → bckcnt < j + fuel
      → (b < bckcnt)
      → key < 2 ^ 64
      → 0 < fuel
      → (r : ℕ) × (jump_loop leap fuel bckcnt key b j ≡ some r) × (r < bckcnt)
  unfolding jump_loop
  jump_loop-lt zero bckcnt key b j f h k p = absurd (omega arith)
  jump_loop-lt (suc fuel) bckcnt key b j f h k p = elim (Bool-cases (ltb j bckcnt)) [
    | inl inside ↦ rw inside (
        jump_loop-lt fuel bckcnt key' j (leap j (key' / 2 ^ 33))
          (omega (arith, grows j (key' / 2 ^ 33) small)) (ground arith) (omega arith)
          (ground arith))
    | inr past ↦ rw past (b, refl, h)
  ]
    where
      key' : ℕ
      key' = (key * 2862933555777941757 + 1) % 2 ^ 64

      small : key' / 2 ^ 33 < 2 ^ 31
      small = omega arith

  -- For a bucket count above 0 the loop of the jump hash ends, with a bucket number below it, if the
  -- floating-point step leads to a higher bucket.
  pub jump_bucketpos-lt :
      (key bckcnt : ℕ)
      → key < 2 ^ 64
      → 0 < bckcnt
      → (r : ℕ) × (jump_bucketpos leap key bckcnt ≡ some r) × (r < bckcnt)
  unfolding jump_bucketpos
  jump_bucketpos-lt key zero k h = absurd (omega arith)
  jump_bucketpos-lt key (suc n) k h =
      jump_loop-lt (suc (suc n)) (suc n) key 0 0 (omega arith) (omega arith) k (omega arith)

pub get_elem?-lt :
    (b : List Server) (i : ℕ) → i < length b → (s : Server) × (get_elem? b i ≡ some s)
get_elem?-lt [] i h = absurd (omega arith)
get_elem?-lt (x ∷ b) zero h = (x, refl)
get_elem?-lt (x ∷ b) (suc i) h = get_elem?-lt b i (omega arith)

take-suc :
    (b : List Server) (i : ℕ) (last : Server)
    → get_elem? b i ≡ some last
    → take (suc i) b ≡ take i b ++ (last ∷ [])
take-suc [] i last e = cc
take-suc (x ∷ b) zero last e = ground arith
take-suc (x ∷ b) (suc i) last e = ap (λ r. x ∷ r) (take-suc b i last e)

take-length : (b : List Server) → take (length b) b ≡ b
take-length [] = refl
take-length (x ∷ b) = ap (λ r. x ∷ r) (take-length b)

-- Moving the last live server into the place of the one chosen takes that one out.
perm-set :
    (b : List Server) (i j : ℕ) (s last : Server)
    → j ≤ i
    → get_elem? b j ≡ some s
    → get_elem? b i ≡ some last
    → Perm (s ∷ take i (set b j last)) (take (suc i) b)
perm-set [] i j s last h e f = absurd (cc)
perm-set (x ∷ b) zero zero s last h e f = let same : s ≡ x = cc in rw same (Perm.refl (x ∷ []))
perm-set (x ∷ b) (suc i) zero s last h e f =
    let same : s ≡ x = cc in
    rw (same, take-suc b i last f) (Perm.cons x (Perm.symm (perm_append_singleton last (take i b))))
perm-set (x ∷ b) zero (suc j) s last h e f = absurd (omega arith)
perm-set (x ∷ b) (suc i) (suc j) s last h e f =
    Perm.trans (Perm.swap x s (take i (set b j last)))
      (Perm.cons x (perm-set b i j s last (omega arith) e f))

xorshift-lt : (h : ℕ) → xorshift h < 2 ^ 64
unfolding xorshift
xorshift-lt h = omega arith

-- The servers chosen, those not chosen, and how many are chosen.
record Chooses (leap : ℕ → ℕ → ℕ) (n : ℕ) (b : List Server) (left hash : ℕ) : Type 0 where
  chosen : List Server
  others : List Server
  result : jump_nodes leap n b left hash ≡ some chosen
  each_once : Perm (chosen ++ others) (take n b)
  count : length chosen ≡ min left n

move_last-set :
    (b : List Server) (i j : ℕ) (last : Server)
    → get_elem? b i ≡ some last
    → move_last b i j ≡ set b j last
unfolding move_last
move_last-set b i j last e = rw (e, move_last)

-- `--pos`
abbrev decrement : ℕ → ℕ
decrement left = (left + 2 ^ 16 - 1) % 2 ^ 16

-- One round of the loop, for the bucket `j` and its server `s`.
Chooses-step :
    (leap : ℕ → ℕ → ℕ) (i : ℕ) (b : List Server) (left hash j : ℕ) (s last : Server)
    → jump_bucketpos leap hash (suc i) ≡ some j
    → get_elem? b j ≡ some s
    → get_elem? b i ≡ some last
    → j ≤ i
    → 0 < left
    → left < 2 ^ 16
    → (0 < decrement left → Chooses leap i (set b j last) (decrement left) (xorshift hash))
    → Chooses leap (suc i) b left hash
unfolding jump_nodes
Chooses-step leap i b left hash j s last at_j at_s at_last le pos small next =
    let taken = perm-set b i j s last le at_s at_last in
    elim (Bool-cases (decrement left == 0)) [
      | inl done ↦ record {
        chosen = s ∷ [];
        others = take i (set b j last);
        result = rw (at_j, jump_nodes, at_s, jump_nodes, done) refl;
        each_once = taken;
        count = ground arith;
      }
      | inr more ↦
          let ih = next (ground arith) in
          record {
            chosen = s ∷ ih.chosen;
            others = ih.others;
            result =
                rw
                  (
                    at_j,
                    jump_nodes,
                    at_s,
                    jump_nodes,
                    more,
                    move_last-set b i j last at_last,
                    ih.result,
                  )
                  refl;
            each_once = Perm.trans (Perm.cons s ih.each_once) taken;
            count = omega (arith, ih.count);
          }
    ]

module _ (leap : ℕ → ℕ → ℕ) (grows : (b r : ℕ) → r < 2 ^ 31 → b < leap b r) where
  jump_nodes-Chooses :
      (n : ℕ) (b : List Server) (left hash : ℕ)
      → n ≤ length b
      → 0 < left
      → left < 2 ^ 16
      → hash < 2 ^ 64
      → Chooses leap n b left hash
  unfolding jump_nodes
  jump_nodes-Chooses zero b left hash h l m k = record {
    chosen = [];
    others = [];
    result = refl;
    each_once = Perm.refl [];
    count = omega arith;
  }
  jump_nodes-Chooses (suc i) b left hash h l m k =
      let (j, at_j, j_lt) = jump_bucketpos-lt leap grows hash (suc i) k (omega arith) in
      let (s, at_s) = get_elem?-lt b j (omega arith) in
      let (last, at_last) = get_elem?-lt b i (omega arith) in
      Chooses-step leap i b left hash j s last at_j at_s at_last (omega arith) l m (λ more.
        jump_nodes-Chooses i (set b j last) (decrement left) (xorshift hash)
          (omega (arith, length-set b j last)) more (omega arith) (xorshift-lt hash))

  -- For a replication count between 1 and 2^16 - 1 the jump hash ends on every list of servers: it
  -- returns as many servers as asked for, or all if there are fewer, and takes none of them twice, if
  -- the floating-point step leads to a higher bucket.
  pub jump_nodes_lem :
      (b : List Server) (left hash : ℕ)
      → 0 < left
      → left < 2 ^ 16
      → hash < 2 ^ 64
      → (chosen : List Server) × (others : List Server) × (jump_nodes leap (length b) b left hash
          ≡ some chosen)
        × Perm (chosen ++ others) b
        × (length chosen ≡ min left (length b))
  jump_nodes_lem b left hash l m k =
      let c = jump_nodes-Chooses (length b) b left hash (omega arith) l m k in
      (c.chosen, c.others, c.result, rw (take-length b) at c.each_once, c.count)
