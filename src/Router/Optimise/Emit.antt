-- ===== src/Router/Optimise/Emit.antt =====
-- `router_optimise` keeps the rules and puts three or more with the same end in a group.
use carbon_c_relay.Prelude.{
  ℕ, ◌≤◌, ◌≡◌, refl, sym, Bool, true, false, Option, none, some, List, [], ◌∷◌, ◌++◌, if◌then◌else◌,
  length, arith, ltb, ◌==◌,
}
use carbon_c_relay.Router.Optimise.{
  Item, Block, Grouping, add_rules, group_item, make_groups, optimise,
}
use carbon_c_relay.Router.Optimise.Regroup.{
  Regrouped, nothing, rules_of, AllNamed, Named, AllBlocks, Rising, settle_all, Rising-all,
  AllBlocks-append, all_settled,
}
use carbon_c_relay.Router.Optimise.Steps.{add_rules-IsGrouping}

-- The rules `flat` with some runs of them in groups: each group has three rules or more, all of
-- them with its end.
pub data Packed : List Item → List Item → Type 0 where
  none_left : Packed [] []
  alone : (r : Item) {flat out : List Item} → Packed flat out → Packed (r ∷ flat) (r ∷ out)
  grouped :
      (b : List ℕ) (rs : List Item) {flat out : List Item}
      → 3 ≤ length rs
      → AllNamed b rs
      → Packed flat out
      → Packed (rs ++ flat) (group_item (some b) rs ∷ out)

plain_all : (rs flat out : List Item) → Packed flat out → Packed (rs ++ flat) (rs ++ out)
plain_all [] flat out p = p
plain_all (r ∷ rs) flat out p = alone r (plain_all rs flat out p)

group_named :
    (o : Option (List ℕ)) (rs flat out : List Item)
    → 3 ≤ length rs
    → Named o rs
    → Packed flat out
    → Packed (rs ++ flat) (group_item o rs ∷ out)
group_named none rs flat out l n p = absurd (omega (arith, l, n))
group_named (some b) rs flat out l n p = grouped b rs l n p

make_groups-Packed :
    (seq high : ℕ) (bs : List Block)
    → Rising seq bs high
    → AllBlocks bs
    → Packed (rules_of bs) (make_groups seq bs)
unfolding make_groups
make_groups-Packed seq high [] ri al = none_left
make_groups-Packed seq high (b ∷ bs) ri al =
    emit (ltb b.seqnr seq) (b.refcnt == 0) (ltb b.refcnt 3) refl refl refl
      (make_groups-Packed b.seqnr high bs ri.1 al.1)
  where
    emit :
        (t u v : Bool)
        → ltb b.seqnr seq ≡ t
        → (b.refcnt == 0) ≡ u
        → ltb b.refcnt 3 ≡ v
        → Packed (rules_of bs) (make_groups b.seqnr bs)
        → Packed (b.routes ++ rules_of bs) (
            if t
            then []
            else if u
            then make_groups b.seqnr bs
            else if v
            then b.routes ++ make_groups b.seqnr bs
            else group_item b.pattern b.routes ∷ make_groups b.seqnr bs)
    emit true u v h k l rest = absurd (ground (arith, ri.0))
    emit false true v h k l rest = absurd (ground (arith, al.0.counted, al.0.filled))
    emit false false true h k l rest =
        plain_all b.routes (rules_of bs) (make_groups b.seqnr bs) rest
    emit false false false h k l rest =
        group_named b.pattern b.routes (rules_of bs) (make_groups b.seqnr bs)
          (rw (sym al.0.counted) (ground arith)) al.0.named rest

-- Whatever the rules are, the optimised ones are the same rules in an order that moves ordinary rules
-- only, and none of them past a rule that stops or has no end, with some runs of them in groups:
-- each group has three rules or more, all of them with its end. No rule is lost or comes twice.
pub optimise-Packed :
    (rs : List Item) → (flat : List Item) × (Regrouped rs flat × Packed flat (optimise rs))
unfolding optimise
optimise-Packed rs =
    let g0 : Grouping = record { front = []; back = []; searched = true; seq = 1; rlast = none } in
    let g = add_rules g0 rs in
    let h =
      add_rules-IsGrouping [] rs g0
        (all_settled [] [] true 1 none (λ e. refl) nothing (omega arith) tt) in
    (
      rules_of (g.front ++ g.back),
      (
        settle_all rs g h,
        make_groups-Packed 1 g.seq (g.front ++ g.back) (Rising-all rs g h)
            (AllBlocks-append g.front g.back h.front_blocks h.back_blocks),
      ),
    )
