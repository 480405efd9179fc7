-- ===== src/Router/Optimise/Steps.antt =====
-- A round of the loop over the rules keeps the blocks in order.
use mathlib.Core.List.{append_assoc, append-nil}
use carbon_c_relay.Prelude.{ℕ, ◌≡◌, refl, sym, Option, none, some, List, [], ◌∷◌, ◌++◌}
use carbon_c_relay.Router.Optimise.{
  Item, Block, Grouping, block_of, add_alone, add_new, find_block, add_existing, add_rule,
  add_rules,
}
use carbon_c_relay.Router.Optimise.Regroup.{IsGrouping}
use carbon_c_relay.Router.Optimise.Added.{add_alone-IsGrouping, add_new-IsGrouping}
use carbon_c_relay.Router.Optimise.Found.{FoundBlock, find_block_lem, add_existing-IsGrouping}

pub add_rule-IsGrouping :
    (done : List Item) (g : Grouping) (r : Item)
    → IsGrouping done g
    → IsGrouping (done ++ (r ∷ [])) (add_rule g r)
unfolding add_rule
add_rule-IsGrouping done g r h = by_block (block_of r) refl
  where
    by_search :
        (b : List ℕ)
        → block_of r ≡ some b
        → (o : Option (List Block × (Block × List Block))) → FoundBlock b g.back o
        → IsGrouping (done ++ (r ∷ [])) (elim o [
          | none ↦ add_new g r b
          | some (before, (blk, behind)) ↦ add_existing g r b before blk behind
        ])
    by_search b e none f = add_new-IsGrouping done g r b h e
    by_search b e (some (before, (blk, behind))) f =
        add_existing-IsGrouping done g r b before behind blk h e f.0 f.1

    by_block :
        (o : Option (List ℕ))
        → block_of r ≡ o
        → IsGrouping (done ++ (r ∷ [])) (elim o [
          | none ↦ add_alone g r
          | some b ↦ elim (find_block b g.back) [
            | none ↦ add_new g r b
            | some (before, (blk, behind)) ↦ add_existing g r b before blk behind
          ]
        ])
    by_block none e = add_alone-IsGrouping done g r h
    by_block (some b) e = by_search b e (find_block b g.back) (find_block_lem b g.back)

-- The loop keeps the blocks in order.
pub add_rules-IsGrouping :
    (done rs : List Item) (g : Grouping)
    → IsGrouping done g
    → IsGrouping (done ++ rs) (add_rules g rs)
unfolding add_rules
add_rules-IsGrouping done [] g h = rw (append-nil done) h
add_rules-IsGrouping done (r ∷ rs) g h =
    rw (sym (append_assoc done (r ∷ []) rs))
      (add_rules-IsGrouping (done ++ (r ∷ [])) rs (add_rule g r) (add_rule-IsGrouping done g r h))
