-- ===== src/Router/Optimise/Regroup.antt =====
-- The blocks hold the rules in an order that keeps every rule in place that stops or stays alone.
use mathlib.Core.List.{append_assoc, append-nil, Perm}
use mathlib.Core.List.Perm
use carbon_c_relay.Prelude.{
  ℕ, ◌≤◌, ◌≡◌, refl, sym, ◌∙◌, ap, Bool, true, false, Option, none, some, List, [], ◌∷◌, ◌++◌,
  length, arith,
}
use carbon_c_relay.Router.Optimise.{Item, Block, Grouping, block_of, new_block}

-- rules that go on and may be in a group
abbrev pub AllOrdinary : List Item → Type 0
AllOrdinary [] = Unit
AllOrdinary (r ∷ rs) = (r.stop ≡ false) × ((b : List ℕ) × (block_of r ≡ some b)) × AllOrdinary rs

-- Rules in another order, which moves ordinary rules only, and none of them past another rule.
pub data Regrouped : List Item → List Item → Type 0 where
  nothing : Regrouped [] []
  fixed : (r : Item) → Regrouped (r ∷ []) (r ∷ [])
  reordered : {rs rs' : List Item} → AllOrdinary rs → Perm rs rs' → Regrouped rs rs'
  joined :
      {rs rs' us us' : List Item}
      → Regrouped rs rs'
      → Regrouped us us'
      → Regrouped (rs ++ us) (rs' ++ us')

-- the rules of blocks
abbrev pub rules_of : List Block → List Item
rules_of [] = []
rules_of (b ∷ bs) = b.routes ++ rules_of bs

pub rules_of-append : (bs cs : List Block) → rules_of (bs ++ cs) ≡ rules_of bs ++ rules_of cs
rules_of-append [] cs = refl
rules_of-append (b ∷ bs) cs =
    ap (λ l. b.routes ++ l) (rules_of-append bs cs)
    ∙ sym (append_assoc b.routes (rules_of bs) (rules_of cs))

pub AllOrdinary-append :
    (rs us : List Item) → AllOrdinary rs → AllOrdinary us → AllOrdinary (rs ++ us)
AllOrdinary-append [] us h k = k
AllOrdinary-append (r ∷ rs) us h k = (h.0, h.1, AllOrdinary-append rs us h.2 k)

-- all rules of a block have its name
abbrev pub AllNamed : List ℕ → List Item → Type 0
AllNamed b [] = Unit
AllNamed b (r ∷ rs) = (block_of r ≡ some b) × AllNamed b rs

pub AllNamed-append :
    (b : List ℕ) (rs us : List Item) → AllNamed b rs → AllNamed b us → AllNamed b (rs ++ us)
AllNamed-append b [] us h k = k
AllNamed-append b (r ∷ rs) us h k = (h.0, AllNamed-append b rs us h.1 k)

-- A block without a name has one rule.
abbrev pub Named : Option (List ℕ) → List Item → Type 0
Named none rs = length rs ≡ 1
Named (some b) rs = AllNamed b rs

pub record IsBlock (b : Block) : Type 0 where
  pub counted : b.refcnt ≡ length b.routes
  pub filled : 1 ≤ length b.routes
  pub named : Named b.pattern b.routes

abbrev pub AllBlocks : List Block → Type 0
AllBlocks [] = Unit
AllBlocks (b ∷ bs) = IsBlock b × AllBlocks bs

pub AllBlocks-append : (bs cs : List Block) → AllBlocks bs → AllBlocks cs → AllBlocks (bs ++ cs)
AllBlocks-append [] cs h k = k
AllBlocks-append (b ∷ bs) cs h k = (h.0, AllBlocks-append bs cs h.1 k)

pub AllBlocks-parts : (bs cs : List Block) → AllBlocks (bs ++ cs) → AllBlocks bs × AllBlocks cs
AllBlocks-parts [] cs h = (tt, h)
AllBlocks-parts (b ∷ bs) cs h = let rest = AllBlocks-parts bs cs h.1 in ((h.0, rest.0), rest.1)

-- The numbers of the blocks do not fall, from `low` to `high`.
abbrev pub Rising : ℕ → List Block → ℕ → Type 0
Rising low [] high = low ≤ high
Rising low (b ∷ bs) high = (low ≤ b.seqnr) × Rising b.seqnr bs high

pub Rising-append :
    (low mid high : ℕ) (bs cs : List Block)
    → Rising low bs mid
    → Rising mid cs high
    → Rising low (bs ++ cs) high
Rising-append low mid high [] cs h k = Rising-low cs h k
  where
    Rising-low : (es : List Block) {a c : ℕ} → a ≤ c → Rising c es high → Rising a es high
    Rising-low [] l h' = omega arith
    Rising-low (e ∷ es) l h' = (omega (arith, l, h'.0), h'.1)
Rising-append low mid high (b ∷ bs) cs h k = (h.0, Rising-append b.seqnr mid high bs cs h.1 k)

-- all blocks have the number
abbrev pub AllAt : ℕ → List Block → Type 0
AllAt n [] = Unit
AllAt n (b ∷ bs) = (b.seqnr ≡ n) × AllAt n bs

pub AllAt-append : (n : ℕ) (bs cs : List Block) → AllAt n bs → AllAt n cs → AllAt n (bs ++ cs)
AllAt-append n [] cs h k = k
AllAt-append n (b ∷ bs) cs h k = (h.0, AllAt-append n bs cs h.1 k)

pub AllAt-parts : (n : ℕ) (bs cs : List Block) → AllAt n (bs ++ cs) → AllAt n bs × AllAt n cs
AllAt-parts n [] cs h = (tt, h)
AllAt-parts n (b ∷ bs) cs h = let rest = AllAt-parts n bs cs h.1 in ((h.0, rest.0), rest.1)

pub AllAt-Rising :
    (low n high : ℕ) (bs : List Block) → low ≤ n → n ≤ high → AllAt n bs → Rising low bs high
AllAt-Rising low n high [] l m h = omega arith
AllAt-Rising low n high (b ∷ bs) l m h =
    (omega (arith, h.0), AllAt-Rising b.seqnr n high bs (omega (arith, h.0)) m h.1)

-- The invariant of the loop behind the rules `done`: those in front of the blocks that are searched
-- are settled, and the others may still change places.
pub record IsGrouping (done : List Item) (g : Grouping) : Type 0 where
  pub old : List Item
  pub run : List Item
  pub split : done ≡ old ++ run
  pub settled : Regrouped old (rules_of g.front)
  pub ordinary : AllOrdinary run
  pub permuted : Perm run (rules_of g.back)
  pub rising : Rising 1 g.front g.seq
  pub level : AllAt g.seq g.back
  pub front_blocks : AllBlocks g.front
  pub back_blocks : AllBlocks g.back
  pub no_last : g.searched ≡ true → g.rlast ≡ none
  pub shut : g.searched ≡ false → (run ≡ []) × (g.back ≡ [])

pub settle_all :
    (done : List Item) (g : Grouping)
    → IsGrouping done g
    → Regrouped done (rules_of (g.front ++ g.back))
settle_all done g h =
    rw (h.split, rules_of-append g.front g.back)
      (joined h.settled (reordered h.ordinary h.permuted))

pub Rising-all :
    (done : List Item) (g : Grouping) → IsGrouping done g → Rising 1 (g.front ++ g.back) g.seq
Rising-all done g h =
    Rising-append 1 g.seq g.seq g.front g.back h.rising
      (AllAt-Rising g.seq g.seq g.seq g.back (omega arith) (omega arith) h.level)

pub Rising-high :
    (low high high' : ℕ) (bs : List Block) → high ≤ high' → Rising low bs high → Rising low bs high'
Rising-high low high high' [] l h = omega arith
Rising-high low high high' (b ∷ bs) l h = (h.0, Rising-high b.seqnr high high' bs l h.1)

-- A block behind all others, which are settled with it.
pub settle_with :
    (done : List Item) (g : Grouping) (r : Item) (blk : Block)
    → IsGrouping done g
    → blk.routes ≡ r ∷ []
    → Regrouped (done ++ (r ∷ [])) (rules_of (g.front ++ (g.back ++ (blk ∷ []))))
settle_with done g r blk h e =
    rw
      (
        sym (append_assoc g.front g.back (blk ∷ [])),
        rules_of-append (g.front ++ g.back) (blk ∷ []),
        e,
      )
      (joined (settle_all done g h) (fixed r))

pub Rising-with :
    (done : List Item) (g : Grouping) (blk : Block)
    → IsGrouping done g
    → blk.seqnr ≡ g.seq
    → Rising 1 (g.front ++ (g.back ++ (blk ∷ []))) g.seq
Rising-with done g blk h e = Rising-append 1 g.seq g.seq g.front (g.back ++ (blk ∷ [])) h.rising (
    AllAt-Rising g.seq g.seq g.seq (g.back ++ (blk ∷ [])) (omega arith) (omega arith)
      (AllAt-append g.seq g.back (blk ∷ []) h.level (e, tt)))

pub AllBlocks-with :
    (done : List Item) (g : Grouping) (blk : Block)
    → IsGrouping done g
    → IsBlock blk
    → AllBlocks (g.front ++ (g.back ++ (blk ∷ [])))
AllBlocks-with done g blk h k =
    AllBlocks-append g.front (g.back ++ (blk ∷ [])) h.front_blocks
      (AllBlocks-append g.back (blk ∷ []) h.back_blocks (k, tt))

pub one_new :
    (b : Option (List ℕ)) (r : Item) (seq hash : ℕ)
    → Named b (r ∷ [])
    → IsBlock (new_block b hash seq r)
one_new b r seq hash n = record { counted = refl; filled = omega arith; named = n }

-- The blocks of `g` and others behind them are settled.
pub all_settled :
    (done : List Item) (front : List Block) (searched : Bool) (seq : ℕ) (rlast : Option (List ℕ))
    → (searched ≡ true → rlast ≡ none)
    → Regrouped done (rules_of front)
    → Rising 1 front seq
    → AllBlocks front
    → IsGrouping done
        (record { front = front; back = []; searched = searched; seq = seq; rlast = rlast })
all_settled done front searched seq rlast n re ri al = record {
  old = done;
  run = [];
  split = sym (append-nil done);
  settled = re;
  ordinary = tt;
  permuted = Perm.nil;
  rising = ri;
  level = tt;
  front_blocks = al;
  back_blocks = tt;
  no_last = n;
  shut = λ e. (refl, refl);
}
