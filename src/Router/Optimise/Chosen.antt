-- ===== src/Router/Optimise/Chosen.antt =====
-- The rules that a metric chooses are the same before and after `router_optimise`, if each group's
-- end stands in the metrics that its rules match.
use mathlib.Core.List.{
  append_assoc, Perm, filter_map, filter_map-cons-none, filter_map-cons-some, Mem, mem-cons_self,
  mem-cons_of_mem, mem-append_left, mem-append_right, mem-append, Mem-prop, not-mem-nil,
  eq-or-mem_of_mem-cons,
}
use mathlib.Core.List.Perm
use mathlib.Core.Bool.{Bool-set, true≢false}
use mathlib.Core.Path.{subst}
use mathlib.Core.Logic.Or
use carbon_c_relay.Prelude.{
  ℕ, ◌≡◌, refl, sym, ◌∙◌, ap, Bool, true, false, ◌||◌, Option, none, some, List, [], ◌∷◌, ◌++◌,
  if◌then◌else◌, length, ltb, Bool-cases, inl, inr,
}
use carbon_c_relay.Prelude.Int.{ℤ}
use carbon_c_relay.Router.{Cluster, Routes}
use carbon_c_relay.Router.Route.{is_group}
use carbon_c_relay.Router.Optimise.{
  Item, block_of, group_item, to_items, to_routes, to_size, optimise, router_optimise,
}
use carbon_c_relay.Router.Optimise.Regroup.{
  Regrouped, nothing, fixed, reordered, joined, AllOrdinary, AllNamed,
}
use carbon_c_relay.Router.Optimise.Emit.{Packed, none_left, alone, grouped, optimise-Packed}

-- What rules choose: themselves or no rule, and whether the rules behind them are left out.
abbrev pub Picked : Type 0
Picked = List Item × Bool

abbrev pub and_then : Picked → Picked → Picked
and_then (l, true) k = (l, true)
and_then (l, false) k = (l ++ k.0, k.1)

abbrev pub run : (Item → Picked) → List Item → Picked
run e [] = ([], false)
run e (r ∷ rs) = and_then (e r) (run e rs)

-- What rules make of a metric: whether they match it, and whether a validation among the destinations
-- of one that matches rejects it in a way that stops, which is one with no destinations behind it.
pub record Verdict : Type 0 where
  pub matching : Item → Bool
  pub rejecting : Item → Bool

-- A rule that is not a group; it ends the choice if it has `stop`, or if its validation says so.
abbrev pub try_rule : Verdict → Item → Picked
try_rule v r = if v.matching r then (r ∷ [], r.stop || v.rejecting r) else ([], false)

-- A rule of the optimised list: a group is opened if the metric has its end.
abbrev pub try_any : Verdict → (List ℕ → Bool) → Item → Picked
try_any v inside r = elim (is_group r.cluster) [
  | none ↦ try_rule v r
  | some (name, rs) ↦ if inside name then run (try_rule v) (to_items rs) else ([], false)
]

to_items-to_routes : (rs : List Item) → to_items (to_routes rs) ≡ rs
to_items-to_routes [] = refl
to_items-to_routes (r ∷ rs) = ap (λ l. r ∷ l) (to_items-to_routes rs)

and_then_assoc : (a b c : Picked) → and_then (and_then a b) c ≡ and_then a (and_then b c)
and_then_assoc (l, true) b c = refl
and_then_assoc (l, false) (k, true) c = refl
and_then_assoc (l, false) (k, false) c = ap (λ x. (x, c.1)) (append_assoc l k c.0)

run-append :
    (e : Item → Picked) (rs us : List Item) → run e (rs ++ us) ≡ and_then (run e rs) (run e us)
run-append e [] us = refl
run-append e (r ∷ rs) us =
    ap (λ k. and_then (e r) k) (run-append e rs us)
    ∙ sym (and_then_assoc (e r) (run e rs) (run e us))

-- the same rules in any order
abbrev pub Same : Picked → Picked → Type 0
Same a b = Perm a.0 b.0 × (a.1 ≡ b.1)

Same-and_then : (a b c d : Picked) → Same a b → Same c d → Same (and_then a c) (and_then b d)
Same-and_then (l, true) (k, true) c d h i = h
Same-and_then (l, true) (k, false) c d h i = absurd (cc (h.1))
Same-and_then (l, false) (k, true) c d h i = absurd (cc (h.1))
Same-and_then (l, false) (k, false) c d h i = (Perm.append h.0 i.0, i.1)

AllOrdinary-goes_on : (rs : List Item) → AllOrdinary rs → (r : Item) → Mem r rs → r.stop ≡ false
AllOrdinary-goes_on [] h r m = absurd (not-mem-nil m)
AllOrdinary-goes_on (u ∷ rs) h r m =
    Or.elim (Bool-set r.stop false) (eq-or-mem_of_mem-cons m) (λ e. ap (λ x. x.stop) e ∙ h.0)
      (λ k. AllOrdinary-goes_on rs h.2 r k)

-- A validation that rejects the metric so that it stops is in a rule with `stop`.
abbrev IsMild : Verdict → List Item → Type 0
IsMild v rs = (r : Item) → Mem r rs → v.matching r ≡ true → v.rejecting r ≡ true → r.stop ≡ true

goes_on :
    (v : Verdict) (rs : List Item) (r : Item)
    → IsMild v rs
    → Mem r rs
    → r.stop ≡ false
    → v.matching r ≡ true
    → (r.stop || v.rejecting r) ≡ false
goes_on v rs r h m s t = elim (Bool-cases (v.rejecting r)) [
  | inl k ↦ absurd (true≢false (sym (h r m t k) ∙ s))
  | inr k ↦ ap (λ t. t || v.rejecting r) s ∙ k
]

module _ (v : Verdict) where
  kept_if : Item → Option Item
  kept_if r = if v.matching r then some r else none

  -- Ordinary rules choose those that match.
  run-AllOrdinary :
      (rs : List Item)
      → ((r : Item) → Mem r rs → v.matching r ≡ true → (r.stop || v.rejecting r) ≡ false)
      → run (try_rule v) rs ≡ (filter_map kept_if rs, false)
  unfolding filter_map kept_if
  run-AllOrdinary [] h = refl
  run-AllOrdinary (r ∷ rs) h = elim (Bool-cases (v.matching r)) [
    | inl e ↦
        ap
          (λ t.
            and_then (if t then (r ∷ [], r.stop || v.rejecting r) else ([], false))
              (run (try_rule v) rs))
          e
        ∙ ap (λ t. and_then (r ∷ [], t) (run (try_rule v) rs)) (h r mem-cons_self e)
        ∙ ap (λ k. and_then (r ∷ [], false) k)
            (run-AllOrdinary rs (λ u m. h u (mem-cons_of_mem r m)))
        ∙ ap (λ l. (l, false))
            (sym (filter_map-cons-some kept_if r rs (ap (λ t. if t then some r else none) e)))
    | inr e ↦
        ap
          (λ t.
            and_then (if t then (r ∷ [], r.stop || v.rejecting r) else ([], false))
              (run (try_rule v) rs))
          e
        ∙ run-AllOrdinary rs (λ u m. h u (mem-cons_of_mem r m))
        ∙ ap (λ l. (l, false))
            (sym (filter_map-cons-none kept_if r rs (ap (λ t. if t then some r else none) e)))
  ]

  Regrouped-Same :
      {rs flat : List Item}
      → Regrouped rs flat
      → IsMild v rs
      → Same (run (try_rule v) rs) (run (try_rule v) flat)
  Regrouped-Same nothing h = (Perm.nil, refl)
  Regrouped-Same (fixed r) h = (Perm.rfl, refl)
  Regrouped-Same (reordered {rs} o p) h =
      let at = λ (r : Item). λ (m : Mem r rs). goes_on v rs r h m (AllOrdinary-goes_on rs o r m) in
      rw (run-AllOrdinary _ at, run-AllOrdinary _ (λ r m. at r ((Perm.mem_iff p).1 m)))
        (Perm.filter_map kept_if p, refl)
  Regrouped-Same (joined {rs} {rs'} {us} {us'} l k) h =
      rw (run-append (try_rule v) rs us, run-append (try_rule v) rs' us')
        (Same-and_then (run (try_rule v) rs) (run (try_rule v) rs') (run (try_rule v) us)
          (run (try_rule v) us') (Regrouped-Same l (λ r m. h r (mem-append_left us m)))
          (Regrouped-Same k (λ r m. h r (mem-append_right rs m))))

abbrev pub is_grouped : Cluster → Bool
is_grouped c = elim (is_group c) [ none ↦ false | some g ↦ true ]

is_grouped-none : (c : Cluster) → is_grouped c ≡ false → is_group c ≡ none
is_grouped-none c h = none_of (is_group c) h
  where
    none_of :
        (o : Option (List ℕ × Routes)) → elim o [ none ↦ false | some g ↦ true ] ≡ false → o ≡ none
    none_of none k = refl
    none_of (some g) k = absurd (true≢false k)

-- What the theorem asks of each rule: it is no group, and if it matches, its end is in the metric, and a
-- validation that rejects the metric so that it stops is in a rule with `stop`.
abbrev pub Sound : Verdict → (List ℕ → Bool) → List Item → Type 0
Sound v inside rs =
    (r : Item)
    → Mem r rs
    → (is_grouped r.cluster ≡ false)
      × (v.matching r ≡ true → (b : List ℕ) → block_of r ≡ some b → inside b ≡ true)
      × (v.matching r ≡ true → v.rejecting r ≡ true → r.stop ≡ true)

pub Sound-nil : (v : Verdict) (inside : List ℕ → Bool) → Sound v inside []
Sound-nil v inside r m = absurd (not-mem-nil m)

pub Sound-cons :
    (v : Verdict) (inside : List ℕ → Bool) (u : Item) (rs : List Item)
    → is_grouped u.cluster ≡ false
    → (v.matching u ≡ true → (b : List ℕ) → block_of u ≡ some b → inside b ≡ true)
    → (v.matching u ≡ true → v.rejecting u ≡ true → u.stop ≡ true)
    → Sound v inside rs
    → Sound v inside (u ∷ rs)
Sound-cons v inside u rs g f k h r m = (
  Or.elim (Bool-set (is_grouped r.cluster) false) (eq-or-mem_of_mem-cons m)
      (λ e. ap (λ x. is_grouped x.cluster) e ∙ g) (λ n. (h r n).0),
  λ t b n.
      Or.elim (Bool-set (inside b) true) (eq-or-mem_of_mem-cons m)
        (λ e. f (ap v.matching (sym e) ∙ t) b (ap block_of (sym e) ∙ n)) (λ a. (h r a).1 t b n),
  λ t n.
      Or.elim (Bool-set r.stop true) (eq-or-mem_of_mem-cons m)
        (λ e. ap (λ x. x.stop) e ∙ k (ap v.matching (sym e) ∙ t) (ap v.rejecting (sym e) ∙ n))
        (λ a. (h r a).2 t n),
)

module _ (v : Verdict) (inside : List ℕ → Bool) where
  try_plain : (r : Item) → is_group r.cluster ≡ none → try_any v inside r ≡ try_rule v r
  try_plain r e = ap group_or_rule e
    where
      group_or_rule : Option (List ℕ × Routes) → Picked
      group_or_rule none = try_rule v r
      group_or_rule (some (name, rs)) =
          if inside name then run (try_rule v) (to_items rs) else ([], false)

  -- Rules whose end is not in the metric choose nothing.
  run_unmatched :
      (b : List ℕ) (rs : List Item)
      → inside b ≡ false
      → AllNamed b rs
      → Sound v inside rs
      → run (try_rule v) rs ≡ ([], false)
  run_unmatched b [] e n h = refl
  run_unmatched b (r ∷ rs) e n h = elim (Bool-cases (v.matching r)) [
    | inl k ↦ absurd (true≢false (sym ((h r mem-cons_self).1 k b n.0) ∙ e))
    | inr k ↦
        ap
          (λ t.
            and_then (if t then (r ∷ [], r.stop || v.rejecting r) else ([], false))
              (run (try_rule v) rs))
          k
        ∙ run_unmatched b rs e n.1 (λ u m. h u (mem-cons_of_mem r m))
  ]

  try_grouped :
      (b : List ℕ) (rs : List Item)
      → AllNamed b rs
      → Sound v inside rs
      → try_any v inside (group_item (some b) rs) ≡ run (try_rule v) rs
  try_grouped b rs n h = elim (Bool-cases (inside b)) [
    | inl e ↦
        ap (λ t. if t then run (try_rule v) (to_items (to_routes rs)) else ([], false)) e
        ∙ ap (λ l. run (try_rule v) l) (to_items-to_routes rs)
    | inr e ↦
        ap (λ t. if t then run (try_rule v) (to_items (to_routes rs)) else ([], false)) e
        ∙ sym (run_unmatched b rs e n h)
  ]

  Packed-run :
      {flat out : List Item}
      → Packed flat out
      → Sound v inside flat
      → run (try_any v inside) out ≡ run (try_rule v) flat
  Packed-run none_left h = refl
  Packed-run (alone r {flat} {out} p) h =
      ap (λ k. and_then k (run (try_any v inside) out))
        (try_plain r (is_grouped-none r.cluster (h r mem-cons_self).0))
      ∙ ap (λ k. and_then (try_rule v r) k) (Packed-run p (λ u m. h u (mem-cons_of_mem r m)))
  Packed-run (grouped b rs {flat} {out} l n p) h =
      ap (λ k. and_then k (run (try_any v inside) out))
        (try_grouped b rs n (λ u m. h u (mem-append_left flat m)))
      ∙ ap (λ k. and_then (run (try_rule v) rs) k)
          (Packed-run p (λ u m. h u (mem-append_right rs m)))
      ∙ sym (run-append (try_rule v) rs flat)

Regrouped-Mem : {rs flat : List Item} → Regrouped rs flat → (r : Item) → Mem r flat → Mem r rs
Regrouped-Mem nothing r m = m
Regrouped-Mem (fixed u) r m = m
Regrouped-Mem (reordered h p) r m = (Perm.mem_iff p).1 m
Regrouped-Mem (joined {rs} {rs'} {us} {us'} h k) r m =
    Or.elim Mem-prop (mem-append.0 m) (λ n. mem-append_left us (Regrouped-Mem h r n))
      (λ n. mem-append_right rs (Regrouped-Mem k r n))

optimise-Same :
    (v : Verdict) (inside : List ℕ → Bool) (rs : List Item)
    → Sound v inside rs
    → Same (run (try_rule v) rs) (run (try_any v inside) (optimise rs))
optimise-Same v inside rs h =
    let (flat, (regrouped, packed)) = optimise-Packed rs in
    subst (Same (run (try_rule v) rs))
      (sym (Packed-run v inside packed (λ r m. h r (Regrouped-Mem regrouped r m))))
      (Regrouped-Same v regrouped (λ r m. (h r m).2))

Packed-all : (rs : List Item) → Packed rs rs
Packed-all [] = none_left
Packed-all (r ∷ rs) = alone r (Packed-all rs)

-- For any threshold: if no rule is a group yet, every rule that matches a metric has its end in the
-- metric, and only rules with `stop` have a validation that rejects the metric and stops, then the rules
-- that router_optimise leaves choose the same rules for the metric as the rules did, in some order, and
-- leave out the rules behind them if those did.
pub router_optimise-Same :
    (v : Verdict) (inside : List ℕ → Bool) (routes : Routes) (threshold : ℤ)
    → Sound v inside (to_items routes)
    → Same
        (run (try_rule v) (to_items routes))
        (run (try_any v inside) (to_items (router_optimise routes threshold)))
unfolding router_optimise
router_optimise-Same v inside routes threshold h =
    elim (Bool-cases (ltb (length rs) (to_size threshold))) [
      | inl e ↦
          subst same_out (sym (ap out e))
            (rw (Packed-run v inside (Packed-all rs) h) (Perm.rfl, refl))
      | inr e ↦
          subst same_out (sym (ap out e ∙ to_items-to_routes (optimise rs)))
            (optimise-Same v inside rs h)
    ]
  where
    rs : List Item
    rs = to_items routes

    same_out : List Item → Type 0
    same_out l = Same (run (try_rule v) rs) (run (try_any v inside) l)

    out : Bool → List Item
    out t = to_items (if t then routes else to_routes (optimise rs))
