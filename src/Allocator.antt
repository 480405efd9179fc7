-- ===== src/Allocator.antt =====
-- allocator.c: memory in regions that only grow. An allocator is the list of its regions, and a
-- pointer is the number of a region and an offset into it. `granted` says whether the calls of malloc
-- for a new region succeed. A `size_t` has 64 bits.
pub mod Fresh
mod Tests
use carbon_c_relay.Prelude.{
  ℕ, zero, suc, ◌+◌, ◌-◌, ◌*◌, ◌/◌, ◌%◌, ◌^◌, Bool, true, false, Option, none, some, List, [], ◌∷◌,
  if◌then◌else◌, ◌==◌, ltb, leb, length,
}

-- `struct _cr_allocator`: `sz`, and `nextp - memory_region`
pub record Region : Type 0 where
  pub size : ℕ
  pub used : ℕ

-- `nsz` in `ra_alloc`
unfoldable pub region_size : ℕ → ℕ
region_size sz = if ltb 262144 sz then (sz / 1024 + 1) * 1024 % 2 ^ 64 else 262144

unfoldable pub ra_alloc : Bool → ℕ → Option Region
unfolding region_size
ra_alloc false sz = none
ra_alloc true sz = some (record { size = region_size sz; used = 0 })

unfoldable pub ra_new : Bool → Option (List Region)
unfolding ra_alloc
ra_new granted = elim (ra_alloc granted 0) [ none ↦ none | some r ↦ some (r ∷ []) ]

-- a difference of two numbers of type `size_t`
abbrev pub minus : ℕ → ℕ → ℕ
minus a b = (a + 2 ^ 64 - b) % 2 ^ 64

-- `sz` rounded up to a multiple of `sizeof(size_t)`
unfoldable pub align : ℕ → ℕ
align sz = if sz % 8 == 0 then sz else sz + (8 - sz % 8)

abbrev pub Pointer : Type 0
Pointer = ℕ × ℕ

abbrev pub with_region :
    Region → Option (Option Pointer × List Region) → Option (Option Pointer × List Region)
with_region r none = none
with_region r (some (p, rs)) = some (p, r ∷ rs)

-- The loop of `ra_malloc` from region `i` on, on fuel: the pointer, or `none` for NULL, and the
-- regions.
unfoldable pub malloc_from : ℕ → Bool → ℕ → List Region → ℕ → Option (Option Pointer × List Region)
unfolding ra_alloc align
malloc_from zero granted i rs sz = none
malloc_from (suc fuel) granted i [] sz = some (none, [])
malloc_from (suc fuel) granted i (r ∷ []) sz =
    if leb sz (minus r.size r.used)
    then some (some (i, r.used), record r { used = r.used + align sz } ∷ [])
    else (elim (ra_alloc granted sz) [
      | none ↦ some (none, r ∷ [])
      | some r' ↦ with_region r (malloc_from fuel granted (suc i) (r' ∷ []) sz)
    ])
malloc_from (suc fuel) granted i (r ∷ (r' ∷ rs)) sz =
    let rest = with_region r (malloc_from fuel granted (suc i) (r' ∷ rs) sz) in
    if leb sz (minus r.size r.used)
    then some (some (i, r.used), record r { used = r.used + align sz } ∷ (r' ∷ rs))
    else rest

-- `ra_malloc`: one round for each region and one for a new one
unfoldable pub ra_malloc : Bool → List Region → ℕ → Option (Option Pointer × List Region)
unfolding malloc_from
ra_malloc granted rs sz = malloc_from (suc (length rs)) granted 0 rs sz
