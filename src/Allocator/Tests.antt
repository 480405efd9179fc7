-- ===== src/Allocator/Tests.antt =====
-- Runs of `ra_malloc`, and its theorem at an input.
use carbon_c_relay.Prelude.{◌≡◌, refl, true, some, [], ◌∷◌, arith}
use carbon_c_relay.Allocator.{Region, ra_malloc}
use carbon_c_relay.Allocator.Fresh.{IsSound, Answer, ra_malloc-Answer}

abbrev region : Region
region = record { size = 1024; used = 1000 }

region-IsSound : IsSound region
region-IsSound = omega arith

-- A block of 17 bytes fits; the next does not, and a new region is taken.
run_grows :
    (ra_malloc true (region ∷ []) 17
      ≡ some (some (0, 1000), record { size = 1024; used = 1024 } ∷ []))
    × (ra_malloc true (region ∷ []) 300000
        ≡ some (some (1, 0), region ∷ (record { size = 300032; used = 300000 } ∷ [])))
unfolding ra_malloc
run_grows = (refl, refl)

ra_malloc-Answer_example : Answer true 0 (region ∷ []) 300 (ra_malloc true (region ∷ []) 300)
ra_malloc-Answer_example = ra_malloc-Answer true region [] 300 (omega arith) (region-IsSound, tt)
