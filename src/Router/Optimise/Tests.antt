-- ===== src/Router/Optimise/Tests.antt =====
-- Runs of `router_optimise`, and the theorems at concrete rules.
use carbon_c_relay.Prelude.{ℕ, ◌≡◌, refl, true, false, Bool, Option, none, some, List, [], ◌∷◌}
use carbon_c_relay.Router.{contains, blackhole, last, Routes}
use carbon_c_relay.Prelude.Bytes.{str_eq, str_eq_refl}
use carbon_c_relay.Prelude.Int.{pos}
use mathlib.Core.Path.{subst}
use carbon_c_relay.Router.Optimise.Chosen.{
  Verdict, Same, run, try_rule, try_any, router_optimise-Same, Sound, Sound-cons, Sound-nil,
}
use carbon_c_relay.Router.Optimise.{
  to_routes, to_items, router_optimise, Item, tail_block, optimise, group_item, add_rules,
  make_groups, find_block, add_existing, cut_last, block_of, strip_end, strip_round, take_letters,
  add_rule, block_sum,
}
use carbon_c_relay.Router.Optimise.Regroup.{Regrouped}
use carbon_c_relay.Router.Optimise.Emit.{Packed, optimise-Packed}

abbrev sys_cpu : List ℕ
sys_cpu = b's' ∷ b'y' ∷ b's' ∷ b'.' ∷ b'c' ∷ b'p' ∷ b'u' ∷ []

abbrev app_cpu : List ℕ
app_cpu = b'a' ∷ b'.' ∷ b'c' ∷ b'p' ∷ b'u' ∷ b'\\' ∷ b'.' ∷ b'[' ∷ b'0' ∷ b']' ∷ []

abbrev app_mem : List ℕ
app_mem = b'm' ∷ b'e' ∷ b'm' ∷ []

abbrev upc : List ℕ
upc = b'u' ∷ b'p' ∷ b'c' ∷ []

abbrev rule : List ℕ → Bool → Item
rule text stop = record {
  matches = contains text;
  text = text;
  nmatch = 0;
  masq = none;
  stop = stop;
  cluster = blackhole;
  dests = last;
}

tail_block_cpu : (tail_block sys_cpu ≡ some upc) × (tail_block app_cpu ≡ some upc)
unfolding tail_block strip_end strip_round take_letters
tail_block_cpu = (refl, refl)

-- a rule without an end stays alone
abbrev short_rule : Item
short_rule = rule (b'a' ∷ b'.' ∷ b'b' ∷ []) false

abbrev four_rules : List Item
four_rules =
    rule sys_cpu false
    ∷ rule app_mem false
    ∷ rule app_cpu false
    ∷ rule sys_cpu true
    ∷ short_rule
    ∷ []

optimise_four :
    optimise four_rules
    ≡ rule app_mem false
      ∷ group_item (some upc) (rule sys_cpu false ∷ rule app_cpu false ∷ rule sys_cpu true ∷ [])
      ∷ short_rule
      ∷ []
unfolding optimise add_rules add_rule make_groups find_block add_existing cut_last block_of
    tail_block strip_end strip_round take_letters block_sum str_eq
optimise_four = refl

optimise-Packed_example :
    (flat : List Item) × (Regrouped four_rules flat × Packed flat (optimise four_rules))
optimise-Packed_example = optimise-Packed four_rules

-- The rules of `sys.cpu` match, the metric has their end, and the one with `stop` has a validation that
-- rejects it.
abbrev is_sys_cpu : Verdict
is_sys_cpu = record { matching = λ r. str_eq r.text sys_cpu; rejecting = λ r. r.stop }

abbrev has_upc : List ℕ → Bool
has_upc b = str_eq b upc

four_rules-Sound : Sound is_sys_cpu has_upc four_rules
unfolding block_of tail_block strip_end strip_round take_letters str_eq
four_rules-Sound =
    Sound-cons is_sys_cpu has_upc (rule sys_cpu false) _ refl (λ t b n. is_upc b n) (λ t k. k)
      (Sound-cons is_sys_cpu has_upc (rule app_mem false) _ refl (λ t b n. absurd cc) (λ t k. k)
        (Sound-cons is_sys_cpu has_upc (rule app_cpu false) _ refl (λ t b n. absurd cc) (λ t k. k)
          (Sound-cons is_sys_cpu has_upc (rule sys_cpu true) _ refl (λ t b n. is_upc b n) (λ t k. k)
            (Sound-cons is_sys_cpu has_upc short_rule [] refl (λ t b n. absurd cc) (λ t k. k)
              (Sound-nil is_sys_cpu has_upc)))))
  where
    is_upc : (b : List ℕ) → some upc ≡ some b → str_eq b upc ≡ true
    is_upc b n =
        subst (λ (o : Option (List ℕ)). elim o [ none ↦ true | some x ↦ str_eq x upc ] ≡ true) n
          (str_eq_refl upc)

abbrev four_routes : Routes
four_routes = to_routes four_rules

router_optimise-Same_example :
    Same
      (run (try_rule is_sys_cpu) four_rules)
      (run (try_any is_sys_cpu has_upc) (to_items (router_optimise four_routes (pos 3))))
router_optimise-Same_example =
    router_optimise-Same is_sys_cpu has_upc four_routes (pos 3) four_rules-Sound

-- A validation that stops: `router_optimise` moves the second rule of `cpu` in front of it.
abbrev validated : Verdict
validated = record { matching = λ r. true; rejecting = λ r. str_eq r.text app_mem }

abbrev three_rules : List Item
three_rules = rule sys_cpu false ∷ rule app_mem false ∷ rule app_cpu false ∷ []

run_validated :
    (run (try_rule validated) three_rules ≡ (rule sys_cpu false ∷ rule app_mem false ∷ [], true))
    × (optimise three_rules ≡ rule sys_cpu false ∷ rule app_cpu false ∷ rule app_mem false ∷ [])
unfolding optimise add_rules add_rule make_groups find_block add_existing cut_last block_of
    tail_block strip_end strip_round take_letters block_sum str_eq
run_validated = (refl, refl)
