-- ===== src/Router/Optimise.antt =====
-- router.c: `router_optimise`, which puts rules that end in the same word in groups. Memory is granted.
pub mod Regroup
pub mod Added
pub mod Found
pub mod Steps
pub mod Emit
pub mod Chosen
mod Tests
use mathlib.Core.List.{reverse}
use carbon_c_relay.Prelude.{
  ℕ, zero, suc, ◌+◌, ◌-◌, ◌%◌, ◌^◌, Bool, true, false, not, ◌||◌, Option, none, some, List, [], ◌∷◌,
  ◌++◌, if◌then◌else◌, ◌==◌, ltb, leb, ◌&&◌, length,
}
use carbon_c_relay.Prelude.Bytes.{str_eq}
use carbon_c_relay.Prelude.Int.{ℤ, pos, negsuc}
use carbon_c_relay.Router.{
  Pattern, matchall, contains, Cluster, rewrite, group, Dests, last, Routes, end, route,
}

-- a rule without those behind it; `text` is its `pattern`
pub record Item : Type 0 where
  pub matches : Pattern
  pub text : List ℕ
  pub nmatch : ℕ
  pub masq : Option (List ℕ)
  pub stop : Bool
  pub cluster : Cluster
  pub dests : Dests

abbrev pub to_routes : List Item → Routes
to_routes [] = end
to_routes (r ∷ rs) = route r.matches r.text r.nmatch r.masq r.stop r.cluster r.dests (to_routes rs)

abbrev pub to_items : Routes → List Item
to_items end = []
to_items (route m text nmatch masq stop c ds rs) =
    record {
      matches = m;
      text = text;
      nmatch = nmatch;
      masq = masq;
      stop = stop;
      cluster = c;
      dests = ds;
    }
    ∷ to_items rs

-- the `[a-zA-Z_]` of the tests
abbrev pub is_letter : ℕ → Bool
is_letter c = (leb b'a' c && leb c b'z') || ((leb b'A' c && leb c b'Z') || (c == b'_'))

-- Where the loop that strips the end of a pattern is: between characters, with `bsum`; or behind a
-- parenthesis `oe`, with `esc` and `bsum`, among the backslashes in front of it.
pub data Strip : Type 0 where
  outer : ℕ → Strip
  inner : ℕ → Bool → ℕ → Strip

-- `bsum` behind the inner loop
abbrev pub balance : ℕ → Bool → ℕ → ℕ
balance oe esc bsum =
    if esc then bsum else if oe == b')' then (bsum + 1) % 2 ^ 64 else (bsum + (2 ^ 64 - 1)) % 2 ^ 64

-- A round of the outer loop at a character: how it goes on, if it does.
abbrev pub strip_outer : ℕ → ℕ → Option Strip
strip_outer bsum c =
    if ltb 0 bsum || not (is_letter c)
    then some (if (c == b')') || (c == b'(') then inner c false bsum else outer bsum)
    else none

unfoldable pub strip_round : Strip → ℕ → Option Strip
strip_round (outer bsum) c = strip_outer bsum c
strip_round (inner oe esc bsum) c =
    if c == b'\\' then some (inner oe (not esc) bsum) else strip_outer (balance oe esc bsum) c

-- The characters from `p` to the first of the pattern, in this order; both loops end at the first.
unfoldable pub strip_end : Strip → List ℕ → List ℕ
unfolding strip_round
strip_end m [] = []
strip_end m (c ∷ []) = c ∷ []
strip_end m (c ∷ d ∷ cs) = elim (strip_round m c) [
  | none ↦ c ∷ d ∷ cs
  | some m' ↦ strip_end m' (d ∷ cs)
]

-- the letters from `p` back, at most `n`: `pblock`
unfoldable pub take_letters : ℕ → List ℕ → List ℕ
take_letters zero cs = []
take_letters (suc n) [] = []
take_letters (suc n) (c ∷ cs) = let rest = take_letters n cs in if is_letter c then c ∷ rest else []

unfoldable pub block_sum : List ℕ → ℕ
block_sum [] = 0
block_sum (c ∷ cs) = (c + block_sum cs) % 2 ^ 64

abbrev pub at_first : List ℕ → Bool
at_first (c ∷ d ∷ cs) = false
at_first _ = true

-- `pblock` for a pattern, or `none` where it is of no use
unfoldable pub tail_block : List ℕ → Option (List ℕ)
unfolding strip_end take_letters
tail_block text =
    let cs = strip_end (outer 0) (0 ∷ reverse text) in
    let b = take_letters 64 cs in
    if at_first cs then none else if ltb (length b) 3 then none else some b

abbrev pub is_matchall : Pattern → Bool
is_matchall matchall = true
is_matchall _ = false

abbrev pub is_rewrite : Cluster → Bool
is_rewrite (rewrite replacement) = true
is_rewrite _ = false

-- the block of a rule, or `none` for one that stays alone
unfoldable pub block_of : Item → Option (List ℕ)
unfolding tail_block
block_of r = if is_matchall r.matches || is_rewrite r.cluster then none else tail_block r.text

-- `block`; `routes` are the rules from `firstroute` to `lastroute`
pub record Block : Type 0 where
  pub pattern : Option (List ℕ)
  pub hash : ℕ
  pub refcnt : ℕ
  pub seqnr : ℕ
  pub routes : List Item

-- The list of blocks, parted at `bstart`: `back` are those that are searched, none if `bstart` is
-- NULL. A block without a name at `bstart` is never found, and stands in `front`; so does the one that
-- the code begins and ends its list with, which has no rules and is left out. `rlast` is a pattern.
pub record Grouping : Type 0 where
  pub front : List Block
  pub back : List Block
  pub searched : Bool
  pub seq : ℕ
  pub rlast : Option (List ℕ)

abbrev pub new_block : Option (List ℕ) → ℕ → ℕ → Item → Block
new_block pattern hash seq r = record {
  pattern = pattern;
  hash = hash;
  refcnt = 1;
  seqnr = seq;
  routes = r ∷ [];
}

-- a rule that stays alone
abbrev pub add_alone : Grouping → Item → Grouping
add_alone g r = record {
  front = g.front ++ (g.back ++ (new_block none 0 g.seq r ∷ []));
  back = [];
  searched = true;
  seq = g.seq + 1;
  rlast = none;
}

-- no block is searched from here on
abbrev pub close : Grouping → List Block → Option (List ℕ) → Grouping
close g blocks rlast = record {
  front = g.front ++ blocks;
  back = [];
  searched = false;
  seq = g.seq + 1;
  rlast = rlast;
}

abbrev pub append_block : Grouping → Block → Grouping
append_block g blk =
    if g.searched
    then record g { back = g.back ++ (blk ∷ []) }
    else record g { front = g.front ++ (blk ∷ []) }

-- a new group
abbrev pub add_new : Grouping → Item → List ℕ → Grouping
add_new g r b =
    let blk = new_block (some b) (block_sum b) g.seq r in
    if r.stop then close g (g.back ++ (blk ∷ [])) none else append_block g blk

abbrev pub same_block : List ℕ → Block → Bool
same_block b blk =
    (blk.hash == block_sum b) && elim blk.pattern [ none ↦ false | some p ↦ str_eq p b ]

-- The search, which parts the blocks at the one that is found.
unfoldable pub find_block : List ℕ → List Block → Option (List Block × (Block × List Block))
find_block b [] = none
find_block b (blk ∷ blks) =
    let rest = find_block b blks in
    if same_block b blk
    then some ([], (blk, blks))
    else (elim rest [ none ↦ none | some (before, found) ↦ some (blk ∷ before, found) ])

-- `blast` and what is in front of it
unfoldable pub cut_last : List Block → List Block × List Block
cut_last [] = ([], [])
cut_last (b ∷ []) = ([], b ∷ [])
cut_last (b ∷ c ∷ bs) = let (before, end_) = cut_last (c ∷ bs) in (b ∷ before, end_)

abbrev pub ends_like : Option (List ℕ) → List ℕ → Bool
ends_like none b = true
ends_like (some p) b = str_eq p b

-- A rule for the block `blk`; a rule that stops moves the block to the end.
unfoldable pub add_existing : Grouping → Item → List ℕ → List Block → Block → List Block → Grouping
unfolding cut_last
add_existing g r b before blk behind =
    let blk' = record blk { refcnt = blk.refcnt + 1; routes = blk.routes ++ (r ∷ []) } in
    let (before', end_) = cut_last (before ++ (blk' ∷ behind)) in
    if ends_like g.rlast b
    then if r.stop
      then close g (before ++ behind ++ (blk' ∷ [])) (some r.text)
      else record g { back = before ++ (blk' ∷ behind) }
    else record {
      front = g.front ++ before';
      back = end_;
      searched = true;
      seq = g.seq + 1;
      rlast = none;
    }

-- a round of the loop over the rules
unfoldable pub add_rule : Grouping → Item → Grouping
unfolding block_of find_block add_existing
add_rule g r = elim (block_of r) [
  | none ↦ add_alone g r
  | some b ↦ elim (find_block b g.back) [
    | none ↦ add_new g r b
    | some (before, (blk, behind)) ↦ add_existing g r b before blk behind
  ]
]

unfoldable pub add_rules : Grouping → List Item → Grouping
unfolding add_rule
add_rules g [] = g
add_rules g (r ∷ rs) = add_rules (add_rule g r) rs

-- the rule that stands for a group; the fields that the code leaves unset are not read
abbrev pub group_item : Option (List ℕ) → List Item → Item
group_item name routes = record {
  matches = contains [];
  text = [];
  nmatch = 0;
  masq = none;
  stop = false;
  cluster = group (elim name [ none ↦ [] | some b ↦ b ]) (to_routes routes);
  dests = last;
}

-- The loop that makes the groups, from the count `seq` on: it stops when the blocks are out of order.
unfoldable pub make_groups : ℕ → List Block → List Item
make_groups seq [] = []
make_groups seq (b ∷ bs) =
    let rest = make_groups b.seqnr bs in
    if ltb b.seqnr seq
    then []
    else if b.refcnt == 0
    then rest
    else if ltb b.refcnt 3
    then b.routes ++ rest
    else group_item b.pattern b.routes ∷ rest

-- an `int` that is compared with a `size_t`
abbrev pub to_size : ℤ → ℕ
to_size (pos n) = n
to_size (negsuc n) = 2 ^ 64 - 1 - n

unfoldable pub optimise : List Item → List Item
unfolding add_rules make_groups
optimise rs =
    let g =
      add_rules (record { front = []; back = []; searched = true; seq = 1; rlast = none }) rs in
    make_groups 1 (g.front ++ g.back)

unfoldable pub router_optimise : Routes → ℤ → Routes
unfolding optimise
router_optimise routes threshold =
    let rs = to_items routes in
    if ltb (length rs) (to_size threshold) then routes else to_routes (optimise rs)
