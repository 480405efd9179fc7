-- ===== src/Aggregator/Values.antt =====
-- What a bucket computes of the values that were put in it.
use mathlib.Core.Path.{subst}
use mathlib.Core.Option.{some_inj}
use mathlib.Core.List.{append_assoc, append-nil, Perm}
use mathlib.Core.List.Perm
use mathlib.Core.List
use mathlib.Core.Nat
use carbon_c_relay.Prelude.{
  ℕ, zero, suc, ◌+◌, ◌≤◌, ◌<◌, ◌≡◌, refl, sym, ◌∙◌, ap, Bool, true, false, Option, some, List, [],
  ◌∷◌, ◌++◌, if◌then◌else◌, ◌==◌, length, get_elem?, arith, length-append, Bool-cases, inl, inr,
  ==_iff, lt→ltb,
}
use carbon_c_relay.Aggregator.{
  Double, ComputeType, sum, cnt, max, min, avg, medn, pctl, var, sdev, Bucket, needs_entries, grown,
  add_value,
}
use carbon_c_relay.Aggregator.Expire.{
  Value, real, count, first_cells, nth, square_sum, variance, compute_value, cmp_entry,
}
use carbon_c_relay.Aggregator.Rank.{IsAt, nth-IsAt, IsRanked}
use carbon_c_relay.Prelude.Int.{ℤ, pos, negsuc}

shift : (i j : ℕ) → i + suc j ≡ i + 1 + j
shift i j = omega arith

suc-ne-zero : (n : ℕ) → (suc n == 0) ≡ false
suc-ne-zero n = ground arith

suc-eq-suc : (m n : ℕ) → (suc m == suc n) ≡ (m == n)
suc-eq-suc m n = ground arith

module _ {V : Type 0} where
  has_room : (b : Bucket V) → b.cnt ≤ b.size → b.cnt + 1 ≤ grown true b
  has_room b h = ground arith

  snoc_old :
      (vs : List V) (val : V) (i : ℕ)
      → i < length vs
      → get_elem? (vs ++ (val ∷ [])) i ≡ get_elem? vs i
  snoc_old [] val i h = absurd (omega arith)
  snoc_old (v ∷ vs) val zero h = refl
  snoc_old (v ∷ vs) val (suc i) h = snoc_old vs val i (omega arith)

  snoc_new : (vs : List V) (val : V) → get_elem? (vs ++ (val ∷ [])) (length vs) ≡ some val
  snoc_new [] val = refl
  snoc_new (v ∷ vs) val = snoc_new vs val

-- a number of the library's `length`
to_native : Nat.ℕ → ℕ
to_native Nat.zero = 0
to_native (Nat.suc n) = suc (to_native n)

length-native : {V : Type 0} (vs : List V) → length vs ≡ to_native (List.length vs)
unfolding to_native
length-native [] = refl
length-native (v ∷ vs) = ap suc (length-native vs)

length-Perm : {V : Type 0} (us vs : List V) → Perm us vs → length us ≡ length vs
length-Perm us vs p = length-native us ∙ ap to_native (Perm.length-eq p) ∙ sym (length-native vs)

abbrev pub is_positive : ℤ → Bool
is_positive (pos zero) = false
is_positive (pos (suc n)) = true
is_positive (negsuc n) = false

module _ {V : Type 0} (d : Double V) where
  abbrev pub fold : (V → V → V) → V → List V → V
  fold f a [] = a
  fold f a (v ∷ vs) = fold f (f a v) vs

  abbrev pub larger : V → V → V
  larger a v = if d.lt a v then v else a

  abbrev pub smaller : V → V → V
  smaller a v = if d.lt v a then v else a

  -- The sums and extremes of a bucket that holds the values.
  abbrev Reduced : Bucket V → List V → Type 0
  Reduced b [] = Unit
  Reduced b (v ∷ vs) =
      (b.sum ≡ fold d.add v vs) × (b.max ≡ fold larger v vs) × (b.min ≡ fold smaller v vs)

  -- A bucket holds the values, in the order in which they came.
  record Holds (needed : Bool) (b : Bucket V) (vs : List V) : Type 0 where
    counted : b.cnt ≡ length vs
    reduced : Reduced b vs
    room : needed ≡ true → b.cnt ≤ b.size
    stored : needed ≡ true → (i : ℕ) → i < length vs → get_elem? vs i ≡ some (b.values i)

  fold-snoc :
      (f : V → V → V) (a : V) (vs : List V) (v : V) → fold f a (vs ++ (v ∷ [])) ≡ f (fold f a vs) v
  fold-snoc f a [] v = refl
  fold-snoc f a (u ∷ vs) v = fold-snoc f (f a u) vs v

  Reduced-add_value :
      (needed : Bool) (val : V) (b : Bucket V) (vs : List V)
      → b.cnt ≡ length vs
      → Reduced b vs
      → Reduced (add_value d needed true val b) (vs ++ (val ∷ []))
  unfolding add_value
  Reduced-add_value needed val b [] c h = rw c (refl, refl, refl)
  Reduced-add_value needed val b (v ∷ vs) c h =
      rw
        (
          c,
          suc-ne-zero (length vs),
          fold-snoc d.add v vs val,
          fold-snoc larger v vs val,
          fold-snoc smaller v vs val,
          ← h.0,
          ← h.1,
          ← h.2,
        )
        (refl, refl, refl)

  stored-add_value :
      (val : V) (b : Bucket V) (vs : List V)
      → b.cnt ≡ length vs
      → b.cnt ≤ b.size
      → ((i : ℕ) → i < length vs → get_elem? vs i ≡ some (b.values i))
      → (i : ℕ) → i < length (vs ++ (val ∷ []))
      → get_elem? (vs ++ (val ∷ [])) i ≡ some ((add_value d true true val b).values i)
  unfolding add_value
  stored-add_value val b vs c le h i l =
      rw (lt→ltb b.cnt (grown true b) (omega (arith, has_room b le)))
        (elim (Bool-cases (i == b.cnt)) [
          | inl last ↦ rw (last, (==_iff i b.cnt).0 last, c) (snoc_new vs val)
          | inr old ↦ rw old (snoc_old vs val i (before old) ∙ h i (before old))
        ])
    where
      before : (i == b.cnt) ≡ false → i < length vs
      before old = ground (arith, length-append vs (val ∷ []))

  add_value-Holds :
      (needed : Bool) (val : V) (b : Bucket V) (vs : List V)
      → Holds needed b vs
      → Holds needed (add_value d needed true val b) (vs ++ (val ∷ []))
  unfolding add_value
  add_value-Holds true val b vs h = record {
    counted = omega (arith, h.counted, length-append vs (val ∷ []));
    reduced = Reduced-add_value true val b vs h.counted h.reduced;
    room = λ e. has_room b (h.room refl);
    stored = λ e. stored-add_value val b vs h.counted (h.room refl) (h.stored refl);
  }
  add_value-Holds false val b vs h = record {
    counted = omega (arith, h.counted, length-append vs (val ∷ []));
    reduced = Reduced-add_value false val b vs h.counted h.reduced;
    room = λ e. cc;
    stored = λ e. cc;
  }

  -- A bucket after the values, where all memory is granted.
  unfoldable pub add_values : Bool → List V → Bucket V → Bucket V
  add_values needed [] b = b
  add_values needed (v ∷ vs) b = add_values needed vs (add_value d needed true v b)

  add_values-Holds :
      (needed : Bool) (us vs : List V) (b : Bucket V)
      → Holds needed b us
      → Holds needed (add_values needed vs b) (us ++ vs)
  unfolding add_values
  add_values-Holds needed us [] b h = rw (append-nil us) h
  add_values-Holds needed us (v ∷ vs) b h =
      subst (Holds needed (add_values needed vs (add_value d needed true v b)))
        (append_assoc us (v ∷ []) vs)
        (add_values-Holds needed (us ++ (v ∷ [])) vs (add_value d needed true v b)
          (add_value-Holds needed v b us h))

  cells_lem :
      (values : ℕ → V) (vs : List V) (i : ℕ)
      → ((j : ℕ) → j < length vs → get_elem? vs j ≡ some (values (i + j)))
      → first_cells values i (length vs) ≡ vs
  unfolding first_cells
  cells_lem values [] i h = refl
  cells_lem values (v ∷ vs) i h =
      let start : i + 0 ≡ i = omega arith in
      let first : v ≡ values i = some_inj.0 (h 0 (omega arith) ∙ ap (λ k. some (values k)) start) in
      let rest =
        cells_lem values vs (i + 1)
          (λ j l. h (suc j) (omega arith) ∙ ap (λ k. some (values k)) (shift i j)) in
      rw (rest, first) refl

  -- the mean of the squares of the distances from the mean
  abbrev spread : V → List V → V
  spread v vs =
      let n = d.of_nat (length (v ∷ vs)) in
      d.div (square_sum d (d.div (fold d.add v vs) n) (d.of_nat 0) (v ∷ vs)) n

  -- no value is above the next one
  abbrev pub Ordered : List V → Type 0
  Ordered [] = Unit
  Ordered (v ∷ []) = Unit
  Ordered (v ∷ u ∷ vs) = (is_positive (cmp_entry d v u) ≡ false) × Ordered (u ∷ vs)

  -- What is asked of a median or a percentile of values: `qsort` leaves them in order, and the rank is
  -- the place of one of them.
  abbrev pub Sortable : ((V → V → ℤ) → List V → List V) → ComputeType → ℕ → List V → Type 0
  Sortable qsort sum p vs = Unit
  Sortable qsort cnt p vs = Unit
  Sortable qsort max p vs = Unit
  Sortable qsort min p vs = Unit
  Sortable qsort avg p vs = Unit
  Sortable qsort medn p vs =
      Perm (qsort (cmp_entry d) vs) vs
      × Ordered (qsort (cmp_entry d) vs)
      × IsRanked d medn p (length vs)
  Sortable qsort pctl p vs =
      Perm (qsort (cmp_entry d) vs) vs
      × Ordered (qsort (cmp_entry d) vs)
      × IsRanked d pctl p (length vs)
  Sortable qsort var p vs = Unit
  Sortable qsort sdev p vs = Unit

  -- The value at the rank of the values, in some order that does not fall.
  pub record Ranked (p : ℕ) (vs : List V) (out : Option (Value V)) : Type 0 where
    pub in_order : List V
    pub permuted : Perm in_order vs
    pub ordered : Ordered in_order
    pub picked : IsAt in_order (d.rank p (length vs)) out

  -- What a line says of the values `v ∷ vs`, in the order in which they came.
  abbrev pub Says : ComputeType → ℕ → V → List V → Option (Value V) → Type 0
  Says sum p v vs out = out ≡ some (real (fold d.add v vs))
  Says cnt p v vs out = out ≡ some (count (length (v ∷ vs)))
  Says max p v vs out = out ≡ some (real (fold larger v vs))
  Says min p v vs out = out ≡ some (real (fold smaller v vs))
  Says avg p v vs out = out ≡ some (real (d.div (fold d.add v vs) (d.of_nat (length (v ∷ vs)))))
  Says medn p v vs out = Ranked p (v ∷ vs) out
  Says pctl p v vs out = Ranked p (v ∷ vs) out
  Says var p v vs out = out ≡ some (real (spread v vs))
  Says sdev p v vs out = out ≡ some (real (d.sqrt (spread v vs)))

  module _ (qsort : (V → V → ℤ) → List V → List V) (p : ℕ) (b : Bucket V) (v : V)
      (vs : List V) where
    stored_cells : Holds true b (v ∷ vs) → first_cells b.values 0 (length (v ∷ vs)) ≡ v ∷ vs
    stored_cells h =
        cells_lem b.values (v ∷ vs) 0
          (λ j l. h.stored refl j l ∙ ap (λ k. some (b.values k)) (omega arith))

    variance-Holds : Holds true b (v ∷ vs) → variance d b ≡ spread v vs
    unfolding variance
    variance-Holds h = rw (variance, h.reduced.0, h.counted, stored_cells h) refl

    -- the value that a median or a percentile picks
    pick-Ranked :
        Holds true b (v ∷ vs)
        → Perm (qsort (cmp_entry d) (v ∷ vs)) (v ∷ vs)
        → Ordered (qsort (cmp_entry d) (v ∷ vs))
        → (0 < d.rank p (length (v ∷ vs))) × (d.rank p (length (v ∷ vs)) ≤ length (v ∷ vs))
        → Ranked p
            (v ∷ vs)
            (nth (qsort (cmp_entry d) (first_cells b.values 0 b.cnt)) (d.rank p b.cnt))
    pick-Ranked h m o r =
        rw (h.counted, stored_cells h)
          (record {
            in_order = qsort (cmp_entry d) (v ∷ vs);
            permuted = m;
            ordered = o;
            picked =
                nth-IsAt (qsort (cmp_entry d) (v ∷ vs)) (d.rank p (length (v ∷ vs))) r.0
                  (omega (arith, r.1, length-Perm _ _ m));
          })

    compute_value-Holds :
        (type : ComputeType)
        → Holds (needs_entries type) b (v ∷ vs)
        → Sortable qsort type p (v ∷ vs)
        → Says type p v vs (compute_value d qsort type p b)
    unfolding compute_value
    compute_value-Holds sum h k = rw h.reduced.0 refl
    compute_value-Holds cnt h k = rw h.counted refl
    compute_value-Holds max h k = rw h.reduced.1 refl
    compute_value-Holds min h k = rw h.reduced.2 refl
    compute_value-Holds avg h k = rw (h.reduced.0, h.counted) refl
    compute_value-Holds medn h k = pick-Ranked h k.0 k.1 k.2
    compute_value-Holds pctl h k = pick-Ranked h k.0 k.1 k.2
    compute_value-Holds var h k = rw (variance-Holds h) refl
    compute_value-Holds sdev h k = rw (variance-Holds h) refl

  -- An empty bucket that gets one value or more, with all memory granted, then says of them, in the
  -- order in which they came: their sum, their number, their largest or smallest, their mean, or their
  -- variance or deviation around it. For a median or a percentile: if qsort leaves the values in an
  -- order in which none is above the next by cmp_entry, and the rank is between 1 and their number, it
  -- says the value at the rank of the values in such an order.
  pub add_values-summary :
      (qsort : (V → V → ℤ) → List V → List V) (type : ComputeType) (p : ℕ) (b : Bucket V) (v : V)
      (vs : List V)
      → b.cnt ≡ 0
      → Sortable qsort type p (v ∷ vs)
      → Says type p v vs (compute_value d qsort type p (add_values (needs_entries type) (v ∷ vs) b))
  add_values-summary qsort type p b v vs empty sortable =
      compute_value-Holds qsort p (add_values (needs_entries type) (v ∷ vs) b) v vs type
        (add_values-Holds (needs_entries type) [] (v ∷ vs) b (record {
          counted = empty;
          reduced = tt;
          room = λ e. omega arith;
          stored = λ e i l. absurd (omega arith);
        }))
        sortable
