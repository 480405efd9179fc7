-- ===== src/Queue/Window.antt =====
-- The entries that a ring holds, read off its cells.
use carbon_c_relay.Prelude.{
  ℕ, zero, suc, ◌+◌, ◌-◌, ◌≤◌, ◌<◌, ◌≡◌, refl, ap, ◌≢◌, Option, none, List, [], ◌∷◌, ◌++◌, arith,
  ◌∙◌, if◌then◌else◌, ltb, length, get_or, set,
}
use mathlib.Core.Path.{ap₂}
use carbon_c_relay.Queue.{wrap}

-- the cell `n` places after `i`, going round at `end`
abbrev pub place : ℕ → ℕ → ℕ → ℕ
place end i n = if ltb (i + n) end then i + n else i + n - end

module _ {A : Type 0} where
  pub get_or-set_self :
      (xs : List A) (i : ℕ) (v d : A) → i < length xs → get_or (set xs i v) i d ≡ v
  get_or-set_self [] i v d h = absurd (omega arith)
  get_or-set_self (x ∷ xs) zero v d h = refl
  get_or-set_self (x ∷ xs) (suc i) v d h = get_or-set_self xs i v d (omega arith)

  pub get_or-set_ne :
      (xs : List A) (i j : ℕ) (v d : A) → i ≢ j → get_or (set xs i v) j d ≡ get_or xs j d
  get_or-set_ne [] i j v d h = refl
  get_or-set_ne (x ∷ xs) zero zero v d h = absurd (h refl)
  get_or-set_ne (x ∷ xs) zero (suc j) v d h = refl
  get_or-set_ne (x ∷ xs) (suc i) zero v d h = refl
  get_or-set_ne (x ∷ xs) (suc i) (suc j) v d h = get_or-set_ne xs i j v d (λ e. h (ap suc e))

module _ {A : Type 0} (end : ℕ) where
  -- the `n` pointers from position `h` on; a position may stand one past the last cell
  abbrev pub window : List (Option A) → ℕ → ℕ → List (Option A)
  window buf h zero = []
  window buf h (suc n) = get_or buf (wrap end h) none ∷ window buf (wrap end h + 1) n

  pub length-window : (buf : List (Option A)) (h n : ℕ) → length (window buf h n) ≡ n
  length-window buf h zero = refl
  length-window buf h (suc n) = ap suc (length-window buf (wrap end h + 1) n)

  pub window-cons :
      (buf : List (Option A)) (h n : ℕ)
      → n ≢ 0
      → window buf h n ≡ get_or buf (wrap end h) none ∷ window buf (wrap end h + 1) (n - 1)
  window-cons buf h zero p = absurd (p refl)
  window-cons buf h (suc n) p = ap (λ k. window buf h (suc k)) (omega arith)

  -- Only the cell of a position counts.
  pub window-wrap :
      (buf : List (Option A)) (h k n : ℕ)
      → wrap end h ≡ wrap end k
      → window buf h n ≡ window buf k n
  window-wrap buf h k zero e = refl
  window-wrap buf h k (suc n) e = ap (λ i. get_or buf i none ∷ window buf (i + 1) n) e

  -- A write `m` places after the start leaves the first `n ≤ m` entries alone.
  pub window-set_out :
      (buf : List (Option A)) (p : Option A) (h n m i : ℕ)
      → h ≤ end
      → 0 < end
      → n ≤ m
      → m < end
      → i ≡ place end (wrap end h) m
      → window (set buf i p) h n ≡ window buf h n
  window-set_out buf p h zero m i a b c d e = refl
  window-set_out buf p h (suc n) zero i a b c d e = absurd (omega arith)
  window-set_out buf p h (suc n) (suc m) i a b c d e =
      ap₂ ◌∷◌ (get_or-set_ne buf i (wrap end h) p none (ground arith)) (
        window-set_out buf p (wrap end h + 1) n m i (ground arith) b (omega arith) (omega arith)
          (ground arith))

  pub window-snoc :
      (buf : List (Option A)) (h n : ℕ)
      → h ≤ end
      → n < end
      → window buf h (suc n) ≡ window buf h n ++ (get_or buf (place end (wrap end h) n) none ∷ [])
  window-snoc buf h zero a b = ap (λ i. get_or buf i none ∷ []) (ground arith)
  window-snoc buf h (suc n) a b = ap₂ ◌∷◌ refl (
      window-snoc buf (wrap end h + 1) n (ground arith) (omega arith)
      ∙ ap (λ i. window buf (wrap end h + 1) n ++ (get_or buf i none ∷ [])) (ground arith))
