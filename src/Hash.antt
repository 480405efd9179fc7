-- ===== src/Hash.antt =====
-- fnv1a.h: the FNV1a hashes over the bytes from `metric` to `firstspace`.
use Prim.Native.Nat.{bit_xor}
use carbon_c_relay.Prelude.{
  ℕ, ◌+◌, ◌-◌, ◌*◌, ◌%◌, ◌^◌, ◌<◌, List, [], ◌∷◌, arith, ltb, if◌then◌else◌,
}

abbrev pub fnv1a_32_offset : ℕ
fnv1a_32_offset = 2166136261

abbrev pub fnv1a_32_prime : ℕ
fnv1a_32_prime = 16777619

abbrev pub fnv1a_64_offset : ℕ
fnv1a_64_offset = 14695981039346656037

abbrev pub fnv1a_64_prime : ℕ
fnv1a_64_prime = 1099511628211

-- `(unsigned int)*p` for a signed `char`: the byte with its sign extended to `w` bits.
unfoldable pub extend : ℕ → ℕ → ℕ
extend w c = if ltb c 128 then c else c + 2 ^ w - 256

-- the loop of the macro `fnv1a_32`, from the hash `h`
unfoldable pub fnv1a_32_from : ℕ → List ℕ → ℕ
unfolding extend
fnv1a_32_from h [] = h
fnv1a_32_from h (c ∷ s) = fnv1a_32_from (bit_xor h (extend 32 c) * fnv1a_32_prime % 2 ^ 32) s

unfoldable pub fnv1a_32 : List ℕ → ℕ
unfolding fnv1a_32_from
fnv1a_32 s = fnv1a_32_from fnv1a_32_offset s

-- the loop of the macro `fnv1a_64`
unfoldable pub fnv1a_64_from : ℕ → List ℕ → ℕ
unfolding extend
fnv1a_64_from h [] = h
fnv1a_64_from h (c ∷ s) = fnv1a_64_from (bit_xor h (extend 64 c) * fnv1a_64_prime % 2 ^ 64) s

unfoldable pub fnv1a_64 : List ℕ → ℕ
unfolding fnv1a_64_from
fnv1a_64 s = fnv1a_64_from fnv1a_64_offset s

fnv1a_32_from-lt : (s : List ℕ) (h : ℕ) → h < 2 ^ 32 → fnv1a_32_from h s < 2 ^ 32
unfolding fnv1a_32_from
fnv1a_32_from-lt [] h b = b
fnv1a_32_from-lt (c ∷ s) h b =
    fnv1a_32_from-lt s (bit_xor h (extend 32 c) * fnv1a_32_prime % 2 ^ 32) (omega arith)

pub fnv1a_32-lt : (s : List ℕ) → fnv1a_32 s < 2 ^ 32
unfolding fnv1a_32
fnv1a_32-lt s = fnv1a_32_from-lt s fnv1a_32_offset (omega arith)

fnv1a_64_from-lt : (s : List ℕ) (h : ℕ) → h < 2 ^ 64 → fnv1a_64_from h s < 2 ^ 64
unfolding fnv1a_64_from
fnv1a_64_from-lt [] h b = b
fnv1a_64_from-lt (c ∷ s) h b =
    fnv1a_64_from-lt s (bit_xor h (extend 64 c) * fnv1a_64_prime % 2 ^ 64) (omega arith)

pub fnv1a_64-lt : (s : List ℕ) → fnv1a_64 s < 2 ^ 64
unfolding fnv1a_64
fnv1a_64-lt s = fnv1a_64_from-lt s fnv1a_64_offset (omega arith)
