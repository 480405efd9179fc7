-- ===== src/Router/Route/Ends.antt =====
-- Routing ends: the recursion into groups and stubs goes no deeper than the rules nest.
use mathlib.Core.List.{reverse}
use carbon_c_relay.Prelude.{
  ℕ, zero, suc, ◌+◌, ◌-◌, ◌≤◌, ◌≡◌, refl, Bool, true, false, Option, none, some, List, [], ◌++◌,
  arith, length, take, drop, Bool-cases, inl, inr, if◌then◌else◌,
}
use carbon_c_relay.Router.{
  RegMatch, Cluster, blackhole, group, aggrstub, statstub, validation, forward, filelog, filelogip,
  hashring, anyof, failover, lb, aggregation, rewrite, router_metric_matches, group_matches, Dests,
  last, dest, Routes, end, route, Pattern, Action,
}
use carbon_c_relay.Router.Send.{
  Routing, Env, Frame, Flow, full, go, Call, Rule, Turn, next, leave, fault, reroute, send_to,
  destinations_loop, stub_routes, unless_blackholed, validate, validation_of,
}
use carbon_c_relay.Router.Route.{
  finish, is_group, apply_rule, rules_loop, router_route_intern, router_route,
}
use carbon_c_relay.Router.Route.Depth.{
  is_some, served, all_served, depth, depth_in, IsServed, IsServedIn, Returns, IsTurn, InReach,
  GroupInReach, le_larger, and-true, turn-IsTurn, stub_routes-InReach, is_group-InReach, depth-pos,
}

module _ (env : Env) where
  module _ (fuel : ℕ) (call : Call)
      (returns : (before : List ℕ) (r : Routing) (n : ℕ) (rs : Routes)
        → IsServed rs
        → depth rs ≤ fuel
        → Returns (call before r n rs)) where
    reroute-Returns :
        (len : ℕ) (o : Option Routes) (r : Routing) (f : Frame)
        → InReach fuel o
        → Returns (reroute call len o r f)
    unfolding reroute
    reroute-Returns len none r f h = h
    reroute-Returns len (some rs) r f h =
        done
          (call (reverse (take len r.metric) ++ f.before) (record r { metric = drop len r.metric })
            (f.firstspace - len) rs)
          (returns (reverse (take len r.metric) ++ f.before)
            (record r { metric = drop len r.metric }) (f.firstspace - len) rs h.0 h.1)
      where
        done :
            (o : Option (Routing × Bool))
            → Returns o
            → Returns (elim o [
              | none ↦ none
              | some (r', stop) ↦ some (
                  go
                    (record r' { metric = take len r.metric ++ r'.metric })
                    (unless_blackholed r' f))
            ])
        done none k = k
        done (some (r', stop)) k = tt

    validate-IsTurn :
        (v : Option (Pattern × Action)) (ends : Bool) (r : Routing) (f : Frame)
        → is_some v ≡ true
        → IsTurn (validate env v ends r f)
    unfolding validate
    validate-IsTurn none ends r f h = cc
    validate-IsTurn (some (p, action)) ends r f h = elim (Bool-cases matched) [
      | inl yes_match ↦ rw yes_match tt
      | inr no_match ↦ rw no_match tt
    ]
      where
        matched : Bool
        matched =
            (router_metric_matches env.regexec
              (reverse (take (f.firstspace + 1) r.metric) ++ f.before) p
              (drop (f.firstspace + 1) r.metric) (length r.metric - f.firstspace - 2) f.pmatch).0

    -- The rule's first destination is in reach of the fuel.
    abbrev HeadInReach : Rule → Type 0
    HeadInReach rule = IsServedIn rule.head × (depth_in rule.head ≤ fuel)

    send_to-IsTurn :
        (rule : Rule) (c : Cluster) (ends : Bool) (r : Routing) (f : Frame)
        → HeadInReach rule
        → served rule.head c ≡ true
        → IsTurn (send_to env call rule c ends r f)
    unfolding send_to
    send_to-IsTurn rule blackhole ends r f h k = tt
    send_to-IsTurn rule (group name rs) ends r f h k = tt
    send_to-IsTurn rule (filelogip ss) ends r f h k = tt
    send_to-IsTurn rule (forward ss) ends r f h k = tt
    send_to-IsTurn rule (filelog ss) ends r f h k = tt
    send_to-IsTurn rule (anyof ss) ends r f h k = tt
    send_to-IsTurn rule (failover ss) ends r f h k = tt
    send_to-IsTurn rule (lb ss) ends r f h k = tt
    send_to-IsTurn rule (hashring ring repl) ends r f h k = tt
    send_to-IsTurn rule (aggregation a) ends r f h k = tt
    send_to-IsTurn rule (rewrite replacement) ends r f h k = tt
    send_to-IsTurn rule (aggrstub rs) ends r f h k = turn-IsTurn _ (
        reroute-Returns rule.len (stub_routes rule.head) r f
          (stub_routes-InReach fuel rule.head k h.0 h.1))
    send_to-IsTurn rule (statstub rs) ends r f h k = turn-IsTurn _ (
        reroute-Returns rule.len (stub_routes rule.head) r f
          (stub_routes-InReach fuel rule.head k h.0 h.1))
    send_to-IsTurn rule (validation p action) ends r f h k =
        validate-IsTurn (validation_of rule.head) ends r f k

    destinations_loop-Returns :
        (ds : Dests) (rule : Rule) (c : Cluster) (r : Routing) (f : Frame)
        → HeadInReach rule
        → all_served rule.head c ds ≡ true
        → Returns (destinations_loop env call rule c ds r f)
    unfolding destinations_loop
    destinations_loop-Returns last rule c r f h k =
        done (send_to env call rule c true r f) (send_to-IsTurn rule c true r f h k)
      where
        done :
            (t : Turn)
            → IsTurn t
            → Returns (elim t [ next w ↦ some w | leave w ↦ some w | fault ↦ none ])
        done (next w) k = tt
        done (leave w) k = tt
        done fault k = k
    destinations_loop-Returns (dest d ds) rule c r f h k =
        done (send_to env call rule c false r f) (send_to-IsTurn rule c false r f h (both.0))
          (λ r' f'. destinations_loop-Returns ds rule d r' f' h both.1)
      where
        both : (served rule.head c ≡ true) × (all_served rule.head d ds ≡ true)
        both = and-true _ _ k

        done :
            (t : Turn)
            → IsTurn t
            → ((r' : Routing) (f' : Frame) → Returns (destinations_loop env call rule d ds r' f'))
            → Returns (elim t [
              | leave w ↦ some w
              | fault ↦ none
              | next w ↦ elim w [
                | full r' ↦ some (full r')
                | go r' f' ↦ destinations_loop env call rule d ds r' f'
              ]
            ])
        done (leave w) k ih = tt
        done fault k ih = k
        done (next (full r')) k ih = tt
        done (next (go r' f')) k ih = ih r' f'

    -- what the call of a group leaves
    group-Returns :
        (o : Option (Routing × Bool)) (f : Frame)
        → Returns o
        → Returns (elim o [
          | none ↦ none
          | some (r', stopped) ↦ some (go r' (record f { stop = stopped }))
        ])
    group-Returns none f k = k
    group-Returns (some (r', stopped)) f k = tt

    apply_rule-Returns :
        (pattern : Pattern) (rule : Rule) (stop : Bool) (ds : Dests) (r : Routing) (f : Frame)
        → HeadInReach rule
        → all_served rule.head rule.head ds ≡ true
        → Returns (apply_rule env call pattern rule stop ds r f)
    unfolding apply_rule
    apply_rule-Returns pattern rule stop ds r f h k =
        by_head (is_group rule.head) (is_group-InReach fuel rule.head h.0 h.1)
      where
        matched : Bool × List RegMatch
        matched = router_metric_matches env.regexec f.before pattern r.metric f.firstspace f.pmatch

        by_head :
            (o : Option (List ℕ × Routes))
            → GroupInReach fuel o
            → Returns (elim o [
              | some (name, rs) ↦
                  if group_matches name (reverse (take f.firstspace r.metric))
                  then (elim (call f.before r f.firstspace rs) [
                    | none ↦ none
                    | some (r', stopped) ↦ some (go r' (record f { stop = stopped }))
                  ])
                  else some (go r f)
              | none ↦
                  if matched.0
                  then destinations_loop env call rule rule.head ds r
                      (record f { pmatch = matched.1; stop = stop })
                  else some (go r (record f { pmatch = matched.1 }))
            ])
        by_head (some (name, rs)) g =
            elim (Bool-cases (group_matches name (reverse (take f.firstspace r.metric)))) [
              | inl inside ↦ rw inside (
                  group-Returns (call f.before r f.firstspace rs) f
                    (returns f.before r f.firstspace rs g.0 g.1))
              | inr outside ↦ rw outside tt
            ]
        by_head none g = elim (Bool-cases matched.0) [
          | inl matches ↦ rw matches (
              destinations_loop-Returns ds rule rule.head r
                (record f { pmatch = matched.1; stop = stop }) h k)
          | inr misses ↦ rw misses tt
        ]

    rules_loop-Returns :
        (rs : Routes) (r : Routing) (f : Frame)
        → IsServed rs
        → depth rs ≤ suc fuel
        → Returns (rules_loop env call rs r f)
    unfolding rules_loop IsServed depth
    rules_loop-Returns end r f s d = tt
    rules_loop-Returns (route pattern written nmatch masq stop c ds rs) r f s d =
        done
          (apply_rule env call pattern
            (record { nmatch = nmatch; masq = masq; len = length written; head = c }) stop ds r f)
          (apply_rule-Returns pattern
            (record { nmatch = nmatch; masq = masq; len = length written; head = c }) stop ds r f
            (s.1.0, omega (arith, le_larger (suc (depth_in c)) (depth rs))) s.0)
          (λ r' f'.
            rules_loop-Returns rs r' f' s.1.1
              (omega (arith, le_larger (suc (depth_in c)) (depth rs))))
      where
        done :
            (o : Option Flow)
            → Returns o
            → ((r' : Routing) (f' : Frame) → Returns (rules_loop env call rs r' f'))
            → Returns {X = Routing × Bool} (elim o [
              | none ↦ none
              | some w ↦ elim w [
                | full r' ↦ some (r', true)
                | go r' f' ↦ elim f'.stop [
                  | true ↦ some (finish r' f')
                  | false ↦ rules_loop env call rs r' f'
                ]
              ]
            ])
        done none k ih = k
        done (some (full r')) k ih = tt
        done (some (go r' f')) k ih = elim (Bool-cases f'.stop) [
          | inl stops ↦ rw stops tt
          | inr goes ↦ rw goes (ih r' f')
        ]

  router_route_intern-Returns :
      (fuel : ℕ) (before : List ℕ) (r : Routing) (n : ℕ) (rs : Routes)
      → IsServed rs
      → depth rs ≤ fuel
      → Returns (router_route_intern env fuel before r n rs)
  unfolding router_route_intern
  router_route_intern-Returns zero before r n rs s d = absurd (omega (arith, depth-pos rs))
  router_route_intern-Returns (suc fuel) before r n rs s d =
      rules_loop-Returns fuel (router_route_intern env fuel) (router_route_intern-Returns fuel) rs r
        (record {
          before = before;
          firstspace = n;
          pmatch = env.stack;
          stop = false;
          wassent = false;
        })
        s d

-- With as much fuel as the rules nest deep, and rules whose stubs and validations stand first in
-- their rules or behind another of their kind, `router_route` ends with a result.
pub router_route-ends :
    (env : Env) (fuel : ℕ) (before : List ℕ) (rs : Routes) (metric : List ℕ) (n : ℕ)
    → IsServed rs
    → depth rs ≤ fuel
    → (result : Routing) × (router_route env fuel before rs metric n ≡ some result)
unfolding router_route
router_route-ends env fuel before rs metric n s d =
    done
      (router_route_intern env fuel before
        (record { metric = metric; ret = []; blackholed = false; aggregated = [] }) n rs)
      (router_route_intern-Returns env fuel before
        (record { metric = metric; ret = []; blackholed = false; aggregated = [] }) n rs s d)
  where
    done :
        (o : Option (Routing × Bool))
        → Returns o
        → (result : Routing) × (elim o [ none ↦ none | some (r, stop) ↦ some r ] ≡ some result)
    done none k = elim k [ ]
    done (some (r, stop)) k = (r, refl)
