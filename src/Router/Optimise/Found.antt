-- ===== src/Router/Optimise/Found.antt =====
-- A rule for a block that is there already keeps the blocks in order.
use mathlib.Core.Path.{subst}
use mathlib.Core.List.{append_assoc, append-nil, Perm, perm_append_comm}
use mathlib.Core.List.Perm
use carbon_c_relay.Prelude.{
  ℕ, ◌+◌, ◌≡◌, refl, sym, ◌∙◌, ap, Bool, true, false, Option, none, some, List, [], ◌∷◌, ◌++◌,
  if◌then◌else◌, arith, Bool-cases, inl, inr, length-append, ◌&&◌, ◌==◌,
}
use carbon_c_relay.Prelude.Bytes.{str_eq, str_eq_iff}
use carbon_c_relay.Router.Optimise.{
  Item, Block, Grouping, block_of, block_sum, close, same_block, find_block, cut_last, ends_like,
  add_existing,
}
use carbon_c_relay.Router.Optimise.Regroup.{
  AllOrdinary-append, Regrouped, fixed, reordered, joined, rules_of, rules_of-append,
  AllNamed-append, Named, IsBlock, AllBlocks, AllBlocks-append, AllBlocks-parts, Rising-append,
  AllAt, AllAt-append, AllAt-parts, AllAt-Rising, IsGrouping, all_settled,
}

-- what a search finds: where the block stands, and that it is the same
abbrev pub FoundBlock : List ℕ → List Block → Option (List Block × (Block × List Block)) → Type 0
FoundBlock b blks none = Unit
FoundBlock b blks (some (before, (blk, behind))) =
    (blks ≡ before ++ (blk ∷ behind)) × (same_block b blk ≡ true)

pub find_block_lem : (b : List ℕ) (blks : List Block) → FoundBlock b blks (find_block b blks)
unfolding find_block
find_block_lem b [] = tt
find_block_lem b (c ∷ blks) = step (same_block b c) refl (find_block b blks) (find_block_lem b blks)
  where
    step :
        (t : Bool)
        → same_block b c ≡ t
        → (o : Option (List Block × (Block × List Block))) → FoundBlock b blks o
        → FoundBlock b (c ∷ blks) (
            if t
            then some ([], (c, blks))
            else (elim o [ none ↦ none | some (before, found) ↦ some (c ∷ before, found) ]))
    step true e o f = (refl, e)
    step false e none f = tt
    step false e (some (before, (blk, behind))) f = (ap (λ l. c ∷ l) f.0, f.1)

same_block-pattern : (b : List ℕ) (blk : Block) → same_block b blk ≡ true → blk.pattern ≡ some b
same_block-pattern b blk h = same (blk.hash == block_sum b) blk.pattern h
  where
    same :
        (t : Bool) (o : Option (List ℕ))
        → (t && elim o [ none ↦ false | some p ↦ str_eq p b ]) ≡ true
        → o ≡ some b
    same false o k = absurd cc
    same true none k = absurd cc
    same true (some p) k = ap some ((str_eq_iff p b).0 k)

-- the block with the rule behind its own
abbrev with_rule : Block → Item → Block
with_rule blk r = record blk { refcnt = blk.refcnt + 1; routes = blk.routes ++ (r ∷ []) }

with_rule-IsBlock :
    (b : List ℕ) (blk : Block) (r : Item)
    → IsBlock blk
    → blk.pattern ≡ some b
    → block_of r ≡ some b
    → IsBlock (with_rule blk r)
with_rule-IsBlock b blk r h p e = record {
  counted = rw (length-append blk.routes (r ∷ []), h.counted) refl;
  filled = rw (length-append blk.routes (r ∷ [])) (omega arith);
  named =
      subst (λ (o : Option (List ℕ)). Named o (blk.routes ++ (r ∷ []))) (sym p)
        (AllNamed-append b blk.routes (r ∷ [])
          (subst (λ (o : Option (List ℕ)). Named o blk.routes) p h.named) (e, tt));
}

swap_end : (xs ys zs us : List Item) → Perm ((xs ++ (ys ++ zs)) ++ us) (xs ++ ((ys ++ us) ++ zs))
swap_end xs ys zs us =
    rw (append_assoc xs (ys ++ zs) us, append_assoc ys zs us, append_assoc ys us zs)
      (Perm.append_left xs (Perm.append_left ys (perm_append_comm zs us)))

swap_last : (xs ys zs : List Item) → Perm (xs ++ (ys ++ zs)) ((xs ++ zs) ++ ys)
swap_last xs ys zs = rw (append_assoc xs zs ys) (Perm.append_left xs (perm_append_comm ys zs))

-- the rules of the blocks, with a rule behind those of its block
grown_rules :
    (before behind : List Block) (blk : Block) (r : Item)
    → Perm
        (rules_of (before ++ (blk ∷ behind)) ++ (r ∷ []))
        (rules_of (before ++ (with_rule blk r ∷ behind)))
grown_rules before behind blk r =
    rw (rules_of-append before (blk ∷ behind), rules_of-append before (with_rule blk r ∷ behind))
      (swap_end (rules_of before) blk.routes (rules_of behind) (r ∷ []))

-- the same with the block moved to the end
moved_rules :
    (before behind : List Block) (blk : Block)
    → Perm (rules_of (before ++ (blk ∷ behind))) (rules_of (before ++ behind) ++ blk.routes)
moved_rules before behind blk =
    rw (rules_of-append before (blk ∷ behind), rules_of-append before behind)
      (swap_last (rules_of before) blk.routes (rules_of behind))

none_behind :
    (before : List Block) (blk : Block) (behind : List Block) → ¬ (before ++ (blk ∷ behind) ≡ [])
none_behind [] blk behind k = absurd cc
none_behind (c ∷ before) blk behind k = absurd cc

module _ (done : List Item) (g : Grouping) (r : Item) (b : List ℕ) (before behind : List Block)
    (blk : Block) (h : IsGrouping done g) (e : block_of r ≡ some b)
    (found : g.back ≡ before ++ (blk ∷ behind)) (same : same_block b blk ≡ true) where
  parts_level : AllAt g.seq before × AllAt g.seq (blk ∷ behind)
  parts_level =
      AllAt-parts g.seq before (blk ∷ behind)
        (subst (λ (l : List Block). AllAt g.seq l) found h.level)

  parts_blocks : AllBlocks before × AllBlocks (blk ∷ behind)
  parts_blocks =
      AllBlocks-parts before (blk ∷ behind)
        (subst (λ (l : List Block). AllBlocks l) found h.back_blocks)

  grown_here : IsBlock (with_rule blk r)
  grown_here = with_rule-IsBlock b blk r parts_blocks.1.0 (same_block-pattern b blk same) e

  go_on-IsGrouping :
      r.stop ≡ false
      → IsGrouping (done ++ (r ∷ [])) (record g { back = before ++ (with_rule blk r ∷ behind) })
  go_on-IsGrouping ns = record {
    old = h.old;
    run = h.run ++ (r ∷ []);
    split = rw (h.split) (append_assoc h.old h.run (r ∷ []));
    settled = h.settled;
    ordinary = AllOrdinary-append h.run (r ∷ []) h.ordinary (ns, (b, e), tt);
    permuted =
        Perm.trans
          (Perm.append_right (r ∷ [])
            (subst (λ (l : List Block). Perm h.run (rules_of l)) found h.permuted))
          (grown_rules before behind blk r);
    rising = h.rising;
    level =
        AllAt-append g.seq before (with_rule blk r ∷ behind) parts_level.0
          (parts_level.1.0, parts_level.1.1);
    front_blocks = h.front_blocks;
    back_blocks =
        AllBlocks-append before (with_rule blk r ∷ behind) parts_blocks.0
          (grown_here, parts_blocks.1.1);
    no_last = h.no_last;
    shut = λ k. absurd (none_behind before blk behind (sym found ∙ (h.shut k).1));
  }

  -- the blocks behind the others, with the one that the rule is for at the end
  moved : List Block
  moved = before ++ behind ++ (with_rule blk r ∷ [])

  settle_moved : Regrouped (done ++ (r ∷ [])) (rules_of (g.front ++ moved))
  unfolding moved
  settle_moved =
      rw
        (
          h.split,
          rules_of-append g.front (before ++ behind ++ (with_rule blk r ∷ [])),
          rules_of-append (before ++ behind) (with_rule blk r ∷ []),
          append-nil (blk.routes ++ (r ∷ [])),
          sym (append_assoc (rules_of (before ++ behind)) blk.routes (r ∷ [])),
          sym (
              append_assoc (rules_of g.front) (rules_of (before ++ behind) ++ blk.routes) (r ∷ [])),
        )
        (joined
          (joined h.settled (
            reordered h.ordinary (
              Perm.trans (subst (λ (l : List Block). Perm h.run (rules_of l)) found h.permuted)
                (moved_rules before behind blk))))
          (fixed r))

  moved_level : AllAt g.seq moved
  unfolding moved
  moved_level =
      AllAt-append g.seq (before ++ behind) (with_rule blk r ∷ [])
        (AllAt-append g.seq before behind parts_level.0 parts_level.1.1) (parts_level.1.0, tt)

  moved_blocks : AllBlocks moved
  unfolding moved
  moved_blocks =
      AllBlocks-append (before ++ behind) (with_rule blk r ∷ [])
        (AllBlocks-append before behind parts_blocks.0 parts_blocks.1.1) (grown_here, tt)

  stop-IsGrouping : IsGrouping (done ++ (r ∷ [])) (close g moved (some r.text))
  stop-IsGrouping =
      all_settled (done ++ (r ∷ [])) (g.front ++ moved) false (g.seq + 1) (some r.text)
        (λ k. absurd cc) settle_moved
        (Rising-append 1 g.seq (g.seq + 1) g.front moved h.rising
          (AllAt-Rising g.seq g.seq (g.seq + 1) moved (omega arith) (omega arith) moved_level))
        (AllBlocks-append g.front moved h.front_blocks moved_blocks)

  no_rlast : g.rlast ≡ none
  no_rlast = elim (Bool-cases g.searched) [
    | inl k ↦ h.no_last k
    | inr k ↦ absurd (none_behind before blk behind (sym found ∙ (h.shut k).1))
  ]

  pub add_existing-IsGrouping : IsGrouping (done ++ (r ∷ [])) (add_existing g r b before blk behind)
  unfolding add_existing moved
  add_existing-IsGrouping =
      let cut = cut_last (before ++ (with_rule blk r ∷ behind)) in
      let next = λ (x y : Bool).
        if x
        then (if y
            then close g (before ++ behind ++ (with_rule blk r ∷ [])) (some r.text)
            else record g { back = before ++ (with_rule blk r ∷ behind) })
        else record {
          front = g.front ++ cut.0;
          back = cut.1;
          searched = true;
          seq = g.seq + 1;
          rlast = none;
        } in
      subst (λ (o : Option (List ℕ)). IsGrouping (done ++ (r ∷ [])) (next (ends_like o b) r.stop))
        (sym no_rlast)
        (elim (Bool-cases r.stop) [
          | inl k ↦
              subst (λ (y : Bool). IsGrouping (done ++ (r ∷ [])) (next true y)) (sym k)
                stop-IsGrouping
          | inr k ↦
              subst (λ (y : Bool). IsGrouping (done ++ (r ∷ [])) (next true y)) (sym k)
                (go_on-IsGrouping k)
        ])
