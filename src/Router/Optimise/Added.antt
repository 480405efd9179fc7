-- ===== src/Router/Optimise/Added.antt =====
-- A rule that stays alone, and a new block, keep the blocks in order.
use mathlib.Core.Path.{subst}
use mathlib.Core.List.{append_assoc, append-nil}
use mathlib.Core.List.Perm
use carbon_c_relay.Prelude.{
  ℕ, ◌+◌, ◌≡◌, refl, sym, Bool, true, false, none, some, List, [], ◌∷◌, ◌++◌, if◌then◌else◌, arith,
  Bool-cases, inl, inr,
}
use carbon_c_relay.Router.Optimise.{
  Item, Block, Grouping, block_of, block_sum, new_block, add_alone, close, add_new,
}
use carbon_c_relay.Router.Optimise.Regroup.{
  AllOrdinary-append, Regrouped, rules_of, rules_of-append, IsBlock, AllBlocks-append, Rising,
  AllAt-append, IsGrouping, Rising-high, settle_with, Rising-with, AllBlocks-with, one_new,
  all_settled,
}

pub add_alone-IsGrouping :
    (done : List Item) (g : Grouping) (r : Item)
    → IsGrouping done g
    → IsGrouping (done ++ (r ∷ [])) (add_alone g r)
add_alone-IsGrouping done g r h =
    let blk = new_block none 0 g.seq r in
    all_settled (done ++ (r ∷ [])) (g.front ++ (g.back ++ (blk ∷ []))) true (g.seq + 1) none
      (λ e. refl) (settle_with done g r blk h refl)
      (Rising-high 1 g.seq (g.seq + 1) (g.front ++ (g.back ++ (blk ∷ []))) (omega arith)
        (Rising-with done g blk h refl))
      (AllBlocks-with done g blk h (one_new none r g.seq 0 refl))

close_new-IsGrouping :
    (done : List Item) (g : Grouping) (r : Item) (b : List ℕ)
    → IsGrouping done g
    → block_of r ≡ some b
    → IsGrouping
        (done ++ (r ∷ []))
        (close g (g.back ++ (new_block (some b) (block_sum b) g.seq r ∷ [])) none)
close_new-IsGrouping done g r b h e =
    let blk = new_block (some b) (block_sum b) g.seq r in
    all_settled (done ++ (r ∷ [])) (g.front ++ (g.back ++ (blk ∷ []))) false (g.seq + 1) none
      (λ k. refl) (settle_with done g r blk h refl)
      (Rising-high 1 g.seq (g.seq + 1) (g.front ++ (g.back ++ (blk ∷ []))) (omega arith)
        (Rising-with done g blk h refl))
      (AllBlocks-with done g blk h (one_new (some b) r g.seq (block_sum b) (e, tt)))

append_searched-IsGrouping :
    (done : List Item) (g : Grouping) (r : Item) (b : List ℕ) (blk : Block)
    → IsGrouping done g
    → block_of r ≡ some b
    → r.stop ≡ false
    → blk.routes ≡ r ∷ []
    → blk.seqnr ≡ g.seq
    → IsBlock blk
    → g.searched ≡ true
    → IsGrouping (done ++ (r ∷ [])) (record g { back = g.back ++ (blk ∷ []) })
append_searched-IsGrouping done g r b blk h e ns er en ib es = record {
  old = h.old;
  run = h.run ++ (r ∷ []);
  split = rw (h.split) (append_assoc h.old h.run (r ∷ []));
  settled = h.settled;
  ordinary = AllOrdinary-append h.run (r ∷ []) h.ordinary (ns, (b, e), tt);
  permuted = rw (rules_of-append g.back (blk ∷ []), er) (Perm.append_right (r ∷ []) h.permuted);
  rising = h.rising;
  level = AllAt-append g.seq g.back (blk ∷ []) h.level (en, tt);
  front_blocks = h.front_blocks;
  back_blocks = AllBlocks-append g.back (blk ∷ []) h.back_blocks (ib, tt);
  no_last = h.no_last;
  shut = λ k. absurd cc;
}

append_shut-IsGrouping :
    (done : List Item) (g : Grouping) (r : Item) (blk : Block)
    → IsGrouping done g
    → blk.routes ≡ r ∷ []
    → blk.seqnr ≡ g.seq
    → IsBlock blk
    → g.searched ≡ false
    → IsGrouping (done ++ (r ∷ [])) (record g { front = g.front ++ (blk ∷ []) })
append_shut-IsGrouping done g r blk h er en ib es = record {
  old = done ++ (r ∷ []);
  run = [];
  split = sym (append-nil (done ++ (r ∷ [])));
  settled =
      subst
        (λ (bs : List Block).
          Regrouped (done ++ (r ∷ [])) (rules_of (g.front ++ (bs ++ (blk ∷ [])))))
        (h.shut es).1 (settle_with done g r blk h er);
  ordinary = tt;
  permuted = rw ((h.shut es).1) Perm.nil;
  rising =
      subst (λ (bs : List Block). Rising 1 (g.front ++ (bs ++ (blk ∷ []))) g.seq) (h.shut es).1
        (Rising-with done g blk h en);
  level = h.level;
  front_blocks = AllBlocks-append g.front (blk ∷ []) h.front_blocks (ib, tt);
  back_blocks = h.back_blocks;
  no_last = h.no_last;
  shut = λ k. (refl, (h.shut es).1);
}

pub add_new-IsGrouping :
    (done : List Item) (g : Grouping) (r : Item) (b : List ℕ)
    → IsGrouping done g
    → block_of r ≡ some b
    → IsGrouping (done ++ (r ∷ [])) (add_new g r b)
add_new-IsGrouping done g r b h e =
    let blk = new_block (some b) (block_sum b) g.seq r in
    let ib : IsBlock blk = one_new (some b) r g.seq (block_sum b) (e, tt) in
    let next = λ (x y : Bool).
      if x
      then close g (g.back ++ (blk ∷ [])) none
      else (if y
          then record g { back = g.back ++ (blk ∷ []) }
          else record g { front = g.front ++ (blk ∷ []) }) in
    elim (Bool-cases r.stop) [
      | inl st ↦
          subst (λ (x : Bool). IsGrouping (done ++ (r ∷ [])) (next x g.searched)) (sym st)
            (close_new-IsGrouping done g r b h e)
      | inr st ↦
          subst (λ (x : Bool). IsGrouping (done ++ (r ∷ [])) (next x g.searched)) (sym st)
            (elim (Bool-cases g.searched) [
              | inl se ↦
                  subst (λ (y : Bool). IsGrouping (done ++ (r ∷ [])) (next false y)) (sym se)
                    (append_searched-IsGrouping done g r b blk h e st refl refl ib se)
              | inr se ↦
                  subst (λ (y : Bool). IsGrouping (done ++ (r ∷ [])) (next false y)) (sym se)
                    (append_shut-IsGrouping done g r blk h refl refl ib se)
            ])
    ]
