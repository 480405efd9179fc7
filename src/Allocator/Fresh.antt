-- ===== src/Allocator/Fresh.antt =====
-- What `ra_malloc` hands out is memory of its own.
use carbon_c_relay.Prelude.{
  ℕ, zero, suc, ◌+◌, ◌-◌, ◌%◌, ◌^◌, ◌≤◌, ◌<◌, ◌≡◌, ◌≢◌, refl, ap, Bool, true, false, Option, none,
  some, List, [], ◌∷◌, leb, length, get_elem?, arith, Bool-cases, inl, inr, ◌⊎◌, le→leb, leb→le,
}
use carbon_c_relay.Allocator.{
  Region, region_size, ra_alloc, minus, align, Pointer, with_region, malloc_from, ra_malloc,
}

-- Of a region: what is used lies inside, and both are multiples of 8.
pub record IsSound (r : Region) : Type 0 where
  pub inside : r.used ≤ r.size
  pub size_fits : r.size < 2 ^ 64
  pub size_aligned : r.size % 8 ≡ 0
  pub used_aligned : r.used % 8 ≡ 0

abbrev pub AllSound : List Region → Type 0
AllSound [] = Unit
AllSound (r ∷ rs) = IsSound r × AllSound rs

minus_lem : (r : Region) → IsSound r → minus r.size r.used ≡ r.size - r.used
minus_lem r v = omega arith

align_lem :
    (sz room : ℕ)
    → sz ≤ room
    → room % 8 ≡ 0
    → (sz ≤ align sz) × (align sz ≤ room) × (align sz % 8 ≡ 0)
unfolding align
align_lem sz room h a = ground arith

region_size_lem :
    (sz : ℕ)
    → sz + 1024 < 2 ^ 64
    → (sz ≤ region_size sz) × (region_size sz < 2 ^ 64) × (region_size sz % 8 ≡ 0)
unfolding region_size
region_size_lem sz h = ground arith

take-IsSound :
    (r : Region) (sz : ℕ)
    → IsSound r
    → sz ≤ r.size - r.used
    → IsSound (record r { used = r.used + align sz }) × (r.used + sz ≤ r.used + align sz)
take-IsSound r sz v h = omega (arith, align_lem sz (r.size - r.used) h (omega arith))

abbrev pub used_at : List Region → ℕ → ℕ
used_at [] i = 0
used_at (r ∷ rs) zero = r.used
used_at (r ∷ rs) (suc i) = used_at rs i

-- The block of `sz` bytes at offset `off` of region `at` begins at a multiple of 8, where the used
-- bytes of the region ended (at the start of a new region), and belongs to the used bytes from now on;
-- the other regions are as before, and all are sound.
pub record IsBlock (rs rs' : List Region) (sz at off : ℕ) : Type 0 where
  pub fresh : off ≡ used_at rs at
  pub aligned : off % 8 ≡ 0
  pub reserved : off + sz ≤ used_at rs' at
  pub no_gap : at ≤ length rs
  pub others : (j : ℕ) → j ≢ at → get_elem? rs' j ≡ get_elem? rs j
  pub sound : AllSound rs'

-- A call returns NULL and changes nothing, because no memory was granted; or it returns a block.
abbrev pub Answer : Bool → ℕ → List Region → ℕ → Option (Option Pointer × List Region) → Type 0
Answer granted i rs sz o =
    ((granted ≡ false) × (o ≡ some (none, rs)))
    ⊎ ((rs' : List Region) × (at : ℕ) × (off : ℕ) × (o ≡ some (some (i + at, off), rs'))
        × IsBlock rs rs' sz at off)

take_here :
    (r : Region) (rs : List Region) (sz : ℕ)
    → IsSound r
    → AllSound rs
    → sz ≤ r.size - r.used
    → IsBlock (r ∷ rs) (record r { used = r.used + align sz } ∷ rs) sz 0 r.used
take_here r rs sz v vs h = record {
  fresh = refl;
  aligned = v.used_aligned;
  reserved = (take-IsSound r sz v h).1;
  no_gap = omega arith;
  others = other;
  sound = ((take-IsSound r sz v h).0, vs);
}
  where
    other :
        (j : ℕ)
        → j ≢ 0
        → get_elem? (record r { used = r.used + align sz } ∷ rs) j ≡ get_elem? (r ∷ rs) j
    other zero h = absurd (h refl)
    other (suc j) h = refl

-- A block of the regions behind the first.
later :
    (r : Region) {rs rs' : List Region} {sz at off : ℕ}
    → IsSound r
    → IsBlock rs rs' sz at off
    → IsBlock (r ∷ rs) (r ∷ rs') sz (suc at) off
later r {rs} {rs'} {sz} {at} {off} v b = record {
  fresh = b.fresh;
  aligned = b.aligned;
  reserved = b.reserved;
  no_gap = omega (arith, b.no_gap);
  others = other;
  sound = (v, b.sound);
}
  where
    other : (j : ℕ) → j ≢ suc at → get_elem? (r ∷ rs') j ≡ get_elem? (r ∷ rs) j
    other zero h = refl
    other (suc j) h = b.others j (λ e. h (ap suc e))

with_region-Answer :
    (granted : Bool) (i : ℕ) (r : Region) (rs : List Region) (sz : ℕ)
    (o : Option (Option Pointer × List Region))
    → IsSound r
    → Answer granted (suc i) rs sz o
    → Answer granted i (r ∷ rs) sz (with_region r o)
with_region-Answer granted i r rs sz o v h = elim h [
  | inl (denied, same) ↦ inl (denied, rw same refl)
  | inr (rs', at, off, found, b) ↦ inr (
    r ∷ rs',
    suc at,
    off,
    rw found (ap (λ k. some (some (k, off), r ∷ rs')) (omega arith)),
    later r v b,
  )
]

new_region :
    (sz i : ℕ) (r : Region)
    → sz + 1024 < 2 ^ 64
    → IsSound r
    → Answer true i (r ∷ []) sz (
        with_region r
          (malloc_from 1 true (suc i) (record { size = region_size sz; used = 0 } ∷ []) sz))
unfolding malloc_from
new_region sz i r small v = rw (le→leb sz (minus (region_size sz) 0) fits) (
    inr (
      r ∷ (record { size = region_size sz; used = 0 + align sz } ∷ []),
      1,
      0,
      ap (λ k. some (some (k, 0), r ∷ (record { size = region_size sz; used = 0 + align sz } ∷ [])))
          (omega arith),
      block,
    ))
  where
    fits : sz ≤ minus (region_size sz) 0
    fits = omega (arith, region_size_lem sz small)

    others :
        (j : ℕ)
        → j ≢ 1
        → get_elem? (r ∷ (record { size = region_size sz; used = 0 + align sz } ∷ [])) j
          ≡ get_elem? (r ∷ []) j
    others zero h = refl
    others (suc zero) h = absurd (h refl)
    others (suc (suc j)) h = refl

    block :
        IsBlock (r ∷ []) (r ∷ (record { size = region_size sz; used = 0 + align sz } ∷ [])) sz 1 0
    block = record {
      fresh = refl;
      aligned = refl;
      reserved = omega (arith, region_size_lem sz small, align_lem sz (region_size sz));
      no_gap = omega arith;
      others = others;
      sound = (
        v,
        (
          record {
            inside = omega (arith, region_size_lem sz small, align_lem sz (region_size sz));
            size_fits = (region_size_lem sz small).1;
            size_aligned = (region_size_lem sz small).2;
            used_aligned = omega (arith, region_size_lem sz small, align_lem sz (region_size sz));
          },
          tt,
        ),
      );
    }

malloc_from-Answer :
    (granted : Bool) (i : ℕ) (r : Region) (rs : List Region) (sz : ℕ)
    → sz + 1024 < 2 ^ 64
    → AllSound (r ∷ rs)
    → Answer granted i (r ∷ rs) sz (malloc_from (suc (length (r ∷ rs))) granted i (r ∷ rs) sz)
unfolding malloc_from ra_alloc
malloc_from-Answer granted i r [] sz small (v, vs) =
    elim (Bool-cases (leb sz (minus r.size r.used))) [
      | inl here ↦ rw here (
          inr (
            record r { used = r.used + align sz } ∷ [],
            0,
            r.used,
            ap (λ k. some (some (k, r.used), record r { used = r.used + align sz } ∷ []))
                (omega arith),
            take_here r [] sz v tt
                (omega (arith, minus_lem r v, leb→le sz (minus r.size r.used) here)),
          ))
      | inr full ↦ rw full (grown granted)
    ]
  where
    grown :
        (granted : Bool)
        → Answer granted i (r ∷ []) sz (elim (ra_alloc granted sz) [
          | none ↦ some (none, r ∷ [])
          | some r' ↦ with_region r (malloc_from 1 granted (suc i) (r' ∷ []) sz)
        ])
    grown false = inl (refl, refl)
    grown true = new_region sz i r small v
malloc_from-Answer granted i r (r' ∷ rs) sz small (v, vs) =
    elim (Bool-cases (leb sz (minus r.size r.used))) [
      | inl here ↦ rw here (
          inr (
            record r { used = r.used + align sz } ∷ (r' ∷ rs),
            0,
            r.used,
            ap (λ k. some (some (k, r.used), record r { used = r.used + align sz } ∷ (r' ∷ rs)))
                (omega arith),
            take_here r (r' ∷ rs) sz v vs
                (omega (arith, minus_lem r v, leb→le sz (minus r.size r.used) here)),
          ))
      | inr full ↦ rw full (
          with_region-Answer granted i r (r' ∷ rs) sz
            (malloc_from (suc (length (r' ∷ rs))) granted (suc i) (r' ∷ rs) sz) v
            (malloc_from-Answer granted (suc i) r' rs sz small vs))
    ]

-- On sound regions, and for fewer than 2^64 - 1024 bytes, `ra_malloc` returns: either a block that no
-- earlier call has handed out, with the other regions as before, or, only if malloc fails, NULL with
-- all as before.
pub ra_malloc-Answer :
    (granted : Bool) (r : Region) (rs : List Region) (sz : ℕ)
    → sz + 1024 < 2 ^ 64
    → AllSound (r ∷ rs)
    → Answer granted 0 (r ∷ rs) sz (ra_malloc granted (r ∷ rs) sz)
unfolding ra_malloc
ra_malloc-Answer granted r rs sz small v = malloc_from-Answer granted 0 r rs sz small v
