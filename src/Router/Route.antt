-- ===== src/Router/Route.antt =====
-- router.c: `router_route_intern` and `router_route`.
pub mod Slots
pub mod Depth
pub mod Ends
use mathlib.Core.List.{reverse}
use carbon_c_relay.Prelude.{
  ℕ, zero, suc, Bool, true, false, not, ◌||◌, Option, none, some, List, [], if◌then◌else◌, length,
  take,
}
use carbon_c_relay.Router.{
  Pattern, Cluster, group, Dests, Routes, end, route, router_metric_matches, group_matches,
}
use carbon_c_relay.Router.Send.{Routing, Env, Frame, Flow, full, go, Call, Rule, destinations_loop}

-- the end of a call
unfoldable pub finish : Routing → Frame → Routing × Bool
finish r f = (record r { blackholed = r.blackholed || not f.wassent }, f.stop)

abbrev pub is_group : Cluster → Option (List ℕ × Routes)
is_group (group name rs) = some (name, rs)
is_group _ = none

-- One rule: the rules of a group are a call of their own; any other rule is matched and its
-- destinations get the metric.
unfoldable pub apply_rule :
    Env → Call → Pattern → Rule → Bool → Dests → Routing → Frame → Option Flow
unfolding destinations_loop router_metric_matches group_matches
apply_rule env call pattern rule stop ds r f = elim (is_group rule.head) [
  | some (name, rs) ↦
      if group_matches name (reverse (take f.firstspace r.metric))
      then (elim (call f.before r f.firstspace rs) [
        | none ↦ none
        | some (r', stopped) ↦ some (go r' (record f { stop = stopped }))
      ])
      else some (go r f)
  | none ↦
      (let (matches, pmatch) =
          router_metric_matches env.regexec f.before pattern r.metric f.firstspace f.pmatch in
        if matches
        then destinations_loop env call rule rule.head ds r
            (record f { pmatch = pmatch; stop = stop })
        else some (go r (record f { pmatch = pmatch })))
]

-- The loop over the rules.
unfoldable pub rules_loop : Env → Call → Routes → Routing → Frame → Option (Routing × Bool)
unfolding apply_rule finish
rules_loop env call end r f = some (finish r f)
rules_loop env call (route pattern written nmatch masq stop c ds rs) r f =
    let rule : Rule = record { nmatch = nmatch; masq = masq; len = length written; head = c } in
    elim (apply_rule env call pattern rule stop ds r f) [
      | none ↦ none
      | some w ↦ elim w [
        | full r' ↦ some (r', true)
        | go r' f' ↦ elim f'.stop [
          | true ↦ some (finish r' f')
          | false ↦ rules_loop env call rs r' f'
        ]
      ]
    ]

-- `router_route_intern`, on fuel for the depth of groups and stubs.
unfoldable pub router_route_intern : Env → ℕ → Call
unfolding rules_loop
router_route_intern env zero before r n rs = none
router_route_intern env (suc fuel) before r n rs =
    rules_loop env (router_route_intern env fuel) rs r (record {
      before = before;
      firstspace = n;
      pmatch = env.stack;
      stop = false;
      wassent = false;
    })

-- `router_route`: the destinations, whether the metric was blackholed, and the aggregators' calls.
unfoldable pub router_route : Env → ℕ → List ℕ → Routes → List ℕ → ℕ → Option Routing
unfolding router_route_intern
router_route env fuel before rs metric n =
    elim (router_route_intern env fuel before
      (record { metric = metric; ret = []; blackholed = false; aggregated = [] }) n rs) [
        | none ↦ none
        | some (r, stop) ↦ some r
      ]
