-- ===== src/Ring/Search.antt =====
-- The binary search of `ch_get_nodes`: it ends, and where.
use mathlib.Core.Path.{sym, subst}
use mathlib.Core.Bool.{true}
use native.Mathlib.Decide.{ℕ_discrete}
use carbon_c_relay.Prelude.{
  ℕ, zero, suc, ◌+◌, ◌/◌, ◌≤◌, ◌<◌, ◌≡◌, refl, ◌⊎◌, inl, inr, Option, none, some, List, [], ◌∷◌,
  arith, length, Bool-cases, ltb, leb, if◌then◌else◌, ◌==◌,
}
use carbon_c_relay.Ring.{Entry}
use carbon_c_relay.Ring.Get.{pos_at, search}

-- The position of entry `i` of the ring.
abbrev pub entry_pos : List Entry → ℕ → ℕ
entry_pos es i = pos_at 0 es 0 i

-- Positions do not fall along the ring.
abbrev pub IsAscending : List Entry → Type 0
IsAscending es = (i j : ℕ) → i ≤ j → j < length es → entry_pos es i ≤ entry_pos es j

-- Where the search may stop: at an entry at `pos`, or at the first entry after `pos`, where `t` at
-- or past the length stands for the ring's start.
pub data Stops (es : List Entry) (pos t : ℕ) : Type 0 where
  exact : t < length es → entry_pos es t ≡ pos → Stops es pos t
  after :
      ((k : ℕ) → k < t → k < length es → entry_pos es k < pos)
      → (t < length es → pos < entry_pos es t)
      → Stops es pos t

pos_at-entry_pos :
    (beyond : ℕ) (es : List Entry) (pos i : ℕ)
    → i < length es
    → pos_at beyond es pos i ≡ entry_pos es i
pos_at-entry_pos beyond [] pos i h = absurd (omega arith)
pos_at-entry_pos beyond (e ∷ es) pos zero h = refl
pos_at-entry_pos beyond (e ∷ es) pos (suc i) h = pos_at-entry_pos beyond es pos i (omega arith)

-- The result of the search: it ends before its fuel does.
abbrev pub Finds : List Entry → ℕ → Option ℕ → Type 0
Finds es pos none = ⊥
Finds es pos (some t) = Stops es pos t

module _ (beyond : ℕ) (es : List Entry) (pos : ℕ) (sorted : IsAscending es) where
  below_of :
      (t : ℕ) → t < length es → entry_pos es t < pos → (k : ℕ) → k < t + 1 → entry_pos es k < pos
  below_of t h lt k b = omega (arith, sorted k t (omega arith) h)

  -- The search stops right of the entry `t = j - 1`, which lies before `pos`.
  stops_right :
      (t j : ℕ)
      → t + 1 ≡ j
      → j ≤ length es
      → entry_pos es t < pos
      → (j < length es → pos < entry_pos es j)
      → (n : ℕ) → (n ≡ j) ⊎ ((n ≡ j + 1) × (j ≡ length es))
      → Stops es pos n
  stops_right t j e b lt above n (inl n-j) =
      after (λ k h _. below_of t (omega arith) lt k (omega arith))
        (subst (λ m. m < length es → pos < entry_pos es m) (sym n-j) above)
  stops_right t j e b lt above n (inr past) =
      after (λ k h in_range. below_of t (omega arith) lt k (omega arith))
        (λ h. absurd (omega arith))

  right_end :
      (t j : ℕ)
      → t + 1 ≡ j
      → j ≤ length es
      → entry_pos es t < pos
      → (j < length es → pos < entry_pos es j)
      → Finds es pos (if ltb (pos_at beyond es pos j) pos then some (j + 1) else some j)
  right_end t j e b lt above = elim (Bool-cases (ltb (pos_at beyond es pos j) pos)) [
    | inl less ↦ rw less (stops_right t j e b lt above (j + 1) (inr (refl, past less)))
    | inr more ↦ rw more (stops_right t j e b lt above j (inl refl))
  ]
    where
      past : ltb (pos_at beyond es pos j) pos ≡ true → j ≡ length es
      past less = ground (arith, pos_at-entry_pos beyond es pos j, above)

  left_end :
      (i t : ℕ)
      → i + 1 ≡ t
      → t < length es
      → pos < entry_pos es t
      → ((k : ℕ) → k < i → entry_pos es k < pos)
      → Finds es pos (if leb pos (pos_at beyond es pos i) then some i else some t)
  left_end i t e b gt below =
      let at_i = pos_at-entry_pos beyond es pos i (omega arith) in
      elim (Bool-cases (leb pos (pos_at beyond es pos i))) [
        | inl le ↦ rw le (stops_at i (omega arith) (ground arith) below)
        | inr more ↦
            rw more
              (after (λ k h _. below_of i (omega arith) (ground arith) k (omega arith)) (λ _. gt))
      ]
    where
      stops_at :
          (k : ℕ)
          → k < length es
          → pos ≤ entry_pos es k
          → ((m : ℕ) → m < k → entry_pos es m < pos)
          → Stops es pos k
      stops_at k h le below = elim (ℕ_discrete (entry_pos es k) pos) [
        | yes eq ↦ exact h eq
        | no ne ↦ after (λ m b _. below m b) (λ _. omega arith)
      ]

  search-Finds :
      (fuel i j : ℕ)
      → i + 2 ≤ j
      → j ≤ length es
      → j < i + fuel
      → ((k : ℕ) → k < i → entry_pos es k < pos)
      → (j < length es → pos < entry_pos es j)
      → Finds es pos (search beyond es pos fuel i j)
  unfolding search
  search-Finds zero i j a b c below above = absurd (omega arith)
  search-Finds (suc fuel) i j a b c below above =
      elim (Bool-cases (pos_at beyond es pos t == pos)) [
        | inl here ↦ rw here (exact (omega arith) (ground (arith, at_t)))
        | inr other ↦ rw other (elim (Bool-cases (ltb (pos_at beyond es pos t) pos)) [
          | inl less ↦ rw less (elim (Bool-cases (t + 1 == j)) [
            | inl last ↦ rw last (right_end t j (ground arith) b (ground (arith, at_t)) above)
            | inr more ↦ rw more (
                search-Finds fuel t j (ground arith) b (omega arith)
                  (λ k h. below_of t (omega arith) (ground (arith, at_t)) k (omega arith)) above)
          ])
          | inr greater ↦ rw greater (elim (Bool-cases (i + 1 == t)) [
            | inl last ↦
                rw last (left_end i t (ground arith) (omega arith) (ground (arith, at_t)) below)
            | inr more ↦ rw more (
                search-Finds fuel i t (ground arith) (omega arith) (omega arith) below
                  (λ _. ground (arith, at_t)))
          ])
        ])
      ]
    where
      t : ℕ
      t = (i + j) / 2

      at_t : pos_at beyond es pos ((i + j) / 2) ≡ entry_pos es ((i + j) / 2)
      at_t = pos_at-entry_pos beyond es pos ((i + j) / 2) (omega arith)

-- On an ascending ring of two entries or more the binary search ends within as many rounds as there
-- are entries and one, at an entry at `pos` or at the first entry after `pos`, whatever the memory
-- behind the last entry holds. A stop at or past the length means that all entries lie before `pos`.
pub search_lem :
    (beyond : ℕ) (es : List Entry) (pos : ℕ)
    → IsAscending es
    → 2 ≤ length es
    → Finds es pos (search beyond es pos (suc (length es)) 0 (length es))
search_lem beyond es pos sorted h =
    search-Finds beyond es pos sorted (suc (length es)) 0 (length es) (omega arith) (omega arith)
      (omega arith) (λ k b. absurd (omega arith)) (λ b. absurd (omega arith))
