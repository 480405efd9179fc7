-- ===== src/Prelude/Bytes.antt =====
-- C strings as lists of bytes, without the terminating NUL, and what string.h does with them.
use Prim.Native.Char.{code}
use Prim.Native.String.{String}
use Prim.Native.Nat.{ℕ, zero, suc, ◌+◌, ◌/◌, ◌%◌, compare, Ordering}
use mathlib.Core.Path.{◌≡◌, refl}
use mathlib.Core.Logic.{◌↔◌}
use mathlib.Core.Bool.{Bool, true, false, ◌&&◌, ◌||◌}
use mathlib.Core.Option.{Option, none, some}
use mathlib.Core.List.{List, [], ◌∷◌, ◌++◌}
use native.Mathlib.Omega.{arith}
use carbon_c_relay.Prelude.Tests.{◌==◌, if◌then◌else◌}

-- The code points of a text: its bytes, since every text here is ASCII.
abbrev pub codes : String → List ℕ
codes String.[] = []
codes (String.◌∷◌ c s) = code c ∷ codes s

-- `strcmp(s, t) == 0`
unfoldable pub str_eq : List ℕ → List ℕ → Bool
str_eq [] [] = true
str_eq [] (d ∷ t) = false
str_eq (c ∷ s) [] = false
str_eq (c ∷ s) (d ∷ t) = (c == d) && str_eq s t

pub str_eq_iff : (s t : List ℕ) → (str_eq s t ≡ true) ↔ (s ≡ t)
unfolding str_eq
str_eq_iff [] [] = ((λ h. refl), (λ h. refl))
str_eq_iff [] (d ∷ t) = ((λ h. cc), (λ h. cc))
str_eq_iff (c ∷ s) [] = ((λ h. cc), (λ h. cc))
str_eq_iff (c ∷ s) (d ∷ t) =
    ((λ h. ground (arith, str_eq_iff s t)), (λ h. ground (arith, str_eq_iff s t)))

pub str_eq_refl : (s : List ℕ) → str_eq s s ≡ true
str_eq_refl s = (str_eq_iff s s).1 refl

-- the sign of `strcmp(s, t)`
unfoldable pub strcmp : List ℕ → List ℕ → Ordering
strcmp [] [] = Ordering.eq
strcmp [] (d ∷ t) = Ordering.lt
strcmp (c ∷ s) [] = Ordering.gt
strcmp (c ∷ s) (d ∷ t) = elim (compare c d) [
  | Ordering.lt ↦ Ordering.lt
  | Ordering.eq ↦ strcmp s t
  | Ordering.gt ↦ Ordering.gt
]

-- `strncmp(s, prefix, strlen(prefix)) == 0`
unfoldable pub starts_with : List ℕ → List ℕ → Bool
starts_with s [] = true
starts_with [] (p ∷ ps) = false
starts_with (c ∷ s) (p ∷ ps) = (c == p) && starts_with s ps

-- `strchr(s, c) != NULL` for a `c` that is not NUL
unfoldable pub has_char : List ℕ → ℕ → Bool
has_char [] c = false
has_char (d ∷ s) c = (d == c) || has_char s c

-- `strchr(s, c)` for a `c` that is not NUL: the offset of the first occurrence
unfoldable pub strchr : List ℕ → ℕ → Option ℕ
strchr [] c = none
strchr (d ∷ s) c =
    if d == c then some 0 else (elim (strchr s c) [ none ↦ none | some i ↦ some (suc i) ])

-- The digits of `%d` and `%u` for a number of at most `fuel` digits.
unfoldable pub decimal_on : ℕ → ℕ → List ℕ
decimal_on zero n = []
decimal_on (suc fuel) n =
    let rest = decimal_on fuel (n / 10) in
    if n / 10 == 0 then (n % 10 + b'0') ∷ [] else rest ++ ((n % 10 + b'0') ∷ [])

-- 20 digits hold every 64-bit number.
unfoldable pub decimal : ℕ → List ℕ
unfolding decimal_on
decimal n = decimal_on 20 n
