-- ===== src/Collector/Since.antt =====
-- What the getters report from one call to the next.
use carbon_c_relay.Prelude.{ℕ, ◌+◌, ◌-◌, ◌%◌, ◌^◌, ◌<◌, ◌≡◌, refl, ◌∙◌, ap, List, [], ◌∷◌, arith}
use carbon_c_relay.Aggregator.Counters.{since}
use carbon_c_relay.Collector.{ColMode, sub, Meter, get, get_sub, get_by}

-- Successive readings of a counter, which has the values `vs` then.
abbrev pub readings : ColMode → Meter → List ℕ → List ℕ × Meter
readings mode m [] = ([], m)
readings mode m (v ∷ vs) =
    let (d, m') = get_by mode (record m { value = v }) in
    let (ds, m'') = readings mode m' vs in (d ∷ ds, m'')

abbrev pub sum_all : List ℕ → ℕ
sum_all [] = 0
sum_all (v ∷ vs) = v + sum_all vs

abbrev pub last_from : ℕ → List ℕ → ℕ
last_from x [] = x
last_from x (v ∷ vs) = last_from v vs

abbrev pub AllInSize : List ℕ → Type 0
AllInSize [] = Unit
AllInSize (v ∷ vs) = (v < 2 ^ 64) × AllInSize vs

-- However a counter changes, also when it goes round: what the getters since the last call return adds up,
-- with what was reported before, to the value at the last call, modulo 2^64, which is what is kept.
pub readings-sub :
    (m : Meter) (vs : List ℕ)
    → m.prev < 2 ^ 64
    → AllInSize vs
    → ((m.prev + sum_all (readings sub m vs).0) % 2 ^ 64 ≡ last_from m.prev vs)
      × ((readings sub m vs).1.prev ≡ last_from m.prev vs)
unfolding get_by get_sub get since
readings-sub m [] h k = (omega (arith, h), refl)
readings-sub m (v ∷ vs) h k =
    let d = (v + (2 ^ 64 - m.prev)) % 2 ^ 64 in
    let m' : Meter = record { value = v; prev = (m.prev + d) % 2 ^ 64 } in
    let here : m'.prev ≡ v = omega (arith, h, k.0) in
    let rest = readings-sub m' vs (omega arith) k.1 in
    (
      regroup m.prev d (sum_all (readings sub m' vs).0) ∙ rest.0 ∙ ap (λ x. last_from x vs) here,
      rest.1 ∙ ap (λ x. last_from x vs) here,
    )
  where
    regroup : (p d n : ℕ) → (p + (d + n)) % 2 ^ 64 ≡ ((p + d) % 2 ^ 64 + n) % 2 ^ 64
    regroup p d n = omega arith
