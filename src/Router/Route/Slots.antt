-- ===== src/Router/Route/Slots.antt =====
-- Routing never takes more destination slots than there are.
use mathlib.Core.List.{reverse}
use carbon_c_relay.Prelude.{
  ℕ, zero, suc, ◌+◌, ◌≤◌, Bool, true, false, Option, none, some, List, [], ◌∷◌, ◌++◌, map, arith,
  length, length-append, length-map, length-take, take, Bool-cases, inl, inr, ltb, drop, ◌-◌,
  if◌then◌else◌,
}
use carbon_c_relay.Server.{Server}
use carbon_c_relay.Ring.{ChRing}
use carbon_c_relay.Router.{
  RegMatch, Cluster, blackhole, group, aggrstub, statstub, validation, forward, filelog, filelogip,
  hashring, anyof, failover, lb, aggregation, rewrite, router_metric_matches, group_matches, Dests,
  last, dest, Routes, end, route, Pattern, Action,
}
use carbon_c_relay.Router.Send.{
  Destination, Routing, Env, Frame, Flow, full, go, produce, add_one, add_all, add_nodes,
  add_chosen, Call, Rule, Turn, next, leave, fault, turn, reroute, rewrite_back, send_to, validate,
  validation_of, destinations_loop, stub_routes, unless_blackholed,
}
use carbon_c_relay.Router.Route.{
  finish, is_group, apply_rule, rules_loop, router_route_intern, router_route,
}

module _ (env : Env) where
  abbrev pub Fits : Routing → Type 0
  Fits r = length r.ret ≤ env.retsize

  abbrev FlowFits : Flow → Type 0
  FlowFits (full r) = Fits r
  FlowFits (go r f) = Fits r

  add_one-Fits : (r : Routing) (f : Frame) (d : Destination) → Fits r → FlowFits (add_one env r f d)
  unfolding add_one
  add_one-Fits r f d h = ground (arith, length-append r.ret (d ∷ []))

  add_chosen-Fits :
      (r : Routing) (f : Frame) (s : Option Server) → Fits r → FlowFits (add_chosen env r f s)
  unfolding add_chosen
  add_chosen-Fits r f none h = h
  add_chosen-Fits r f (some s) h = add_one-Fits r f (produce env r.metric s) h

  add_all-Fits :
      (text : Server → Destination) (ss : List Server) (r : Routing) (f : Frame)
      → Fits r
      → FlowFits (add_all env text ss r f)
  unfolding add_all
  add_all-Fits text [] r f h = h
  add_all-Fits text (s ∷ ss) r f h = elim (Bool-cases (ltb env.retsize (length r.ret + 1))) [
    | inl no_room ↦ rw no_room h
    | inr room ↦ rw room (
        add_all-Fits text ss (record r { ret = r.ret ++ (text s ∷ []) }) f
          (ground (arith, length-append r.ret (text s ∷ []))))
  ]

  add_nodes-Fits :
      (r : Routing) (f : Frame) (ring : ChRing) (repl : ℕ) (key : Option (List ℕ))
      → Fits r
      → FlowFits (add_nodes env r f ring repl key)
  unfolding add_nodes
  add_nodes-Fits r f ring repl none h = ground arith
  add_nodes-Fits r f ring repl (some k) h =
      elim (Bool-cases (ltb env.retsize (length r.ret + repl))) [
        | inl no_room ↦ rw no_room h
        | inr room ↦ rw room (ground (arith, chosen_le (env.nodes ring repl k)))
      ]
    where
      chosen_le :
          (ss : List Server)
          → length (r.ret ++ map (produce env r.metric) (take repl ss)) ≤ length r.ret + repl
      chosen_le ss = omega (
        arith,
        length-append r.ret (map (produce env r.metric) (take repl ss)),
        length-map (take repl ss) (produce env r.metric),
        length-take repl ss,
      )

  -- A call keeps to the slots.
  abbrev pub CallFits : Option (Routing × Bool) → Type 0
  CallFits none = Unit
  CallFits (some (r, stop)) = Fits r

  abbrev OptionFits : Option Flow → Type 0
  OptionFits none = Unit
  OptionFits (some w) = FlowFits w

  abbrev TurnFits : Turn → Type 0
  TurnFits (next w) = FlowFits w
  TurnFits (leave w) = FlowFits w
  TurnFits fault = Unit

  turn-fits : (o : Option Flow) → OptionFits o → TurnFits (turn o)
  turn-fits none h = tt
  turn-fits (some w) h = h

  rewrite_back-Fits :
      (r : Routing) (f : Frame) (o : Option (List ℕ × ℕ)) → Fits r → FlowFits (rewrite_back r f o)
  unfolding rewrite_back
  rewrite_back-Fits r f none h = h
  rewrite_back-Fits r f (some (line, k)) h = h

  module _ (call : Call)
      (keeps : (before : List ℕ) (r : Routing) (n : ℕ) (rs : Routes)
        → length r.ret ≤ env.retsize
        → CallFits (call before r n rs)) where
    reroute-Fits :
        (len : ℕ) (o : Option Routes) (r : Routing) (f : Frame)
        → Fits r
        → OptionFits (reroute call len o r f)
    unfolding reroute
    reroute-Fits len none r f h = tt
    reroute-Fits len (some rs) r f h =
        done
          (call (reverse (take len r.metric) ++ f.before) (record r { metric = drop len r.metric })
            (f.firstspace - len) rs)
          (keeps (reverse (take len r.metric) ++ f.before) (record r { metric = drop len r.metric })
            (f.firstspace - len) rs h)
      where
        done :
            (o : Option (Routing × Bool))
            → CallFits o
            → OptionFits (elim o [
              | none ↦ none
              | some (r', stop) ↦ some (
                  go
                    (record r' { metric = take len r.metric ++ r'.metric })
                    (unless_blackholed r' f))
            ])
        done none k = tt
        done (some (r', stop)) k = k

    validate-Fits :
        (v : Option (Pattern × Action)) (ends : Bool) (r : Routing) (f : Frame)
        → Fits r
        → TurnFits (validate env v ends r f)
    unfolding validate
    validate-Fits none ends r f h = tt
    validate-Fits (some (p, action)) ends r f h = elim (Bool-cases matched) [
      | inl yes_match ↦ rw yes_match h
      | inr no_match ↦ rw no_match h
    ]
      where
        matched : Bool
        matched =
            (router_metric_matches env.regexec
              (reverse (take (f.firstspace + 1) r.metric) ++ f.before) p
              (drop (f.firstspace + 1) r.metric) (length r.metric - f.firstspace - 2) f.pmatch).0

    send_to-Fits :
        (rule : Rule) (c : Cluster) (ends : Bool) (r : Routing) (f : Frame)
        → Fits r
        → TurnFits (send_to env call rule c ends r f)
    unfolding send_to
    send_to-Fits rule blackhole ends r f h = h
    send_to-Fits rule (group name rs) ends r f h = h
    send_to-Fits rule (filelogip ss) ends r f h = add_all-Fits _ ss r f h
    send_to-Fits rule (forward ss) ends r f h = add_all-Fits _ ss r f h
    send_to-Fits rule (filelog ss) ends r f h = add_all-Fits _ ss r f h
    send_to-Fits rule (anyof ss) ends r f h = add_chosen-Fits r f _ h
    send_to-Fits rule (failover ss) ends r f h = add_chosen-Fits r f _ h
    send_to-Fits rule (lb ss) ends r f h = add_chosen-Fits r f _ h
    send_to-Fits rule (hashring ring repl) ends r f h = add_nodes-Fits r f ring repl _ h
    send_to-Fits rule (aggregation a) ends r f h = h
    send_to-Fits rule (rewrite replacement) ends r f h = rewrite_back-Fits r f _ h
    send_to-Fits rule (aggrstub rs) ends r f h =
        turn-fits _ (reroute-Fits rule.len (stub_routes rule.head) r f h)
    send_to-Fits rule (statstub rs) ends r f h =
        turn-fits _ (reroute-Fits rule.len (stub_routes rule.head) r f h)
    send_to-Fits rule (validation p action) ends r f h =
        validate-Fits (validation_of rule.head) ends r f h

    destinations_loop-Fits :
        (ds : Dests) (rule : Rule) (c : Cluster) (r : Routing) (f : Frame)
        → Fits r
        → OptionFits (destinations_loop env call rule c ds r f)
    unfolding destinations_loop
    destinations_loop-Fits last rule c r f h =
        done (send_to env call rule c true r f) (send_to-Fits rule c true r f h)
      where
        done :
            (t : Turn)
            → TurnFits t
            → OptionFits (elim t [ next w ↦ some w | leave w ↦ some w | fault ↦ none ])
        done (next w) k = k
        done (leave w) k = k
        done fault k = tt
    destinations_loop-Fits (dest d ds) rule c r f h =
        done (send_to env call rule c false r f) (send_to-Fits rule c false r f h)
          (λ r' f' k. destinations_loop-Fits ds rule d r' f' k)
      where
        done :
            (t : Turn)
            → TurnFits t
            → ((r' : Routing) (f' : Frame)
                → Fits r'
                → OptionFits (destinations_loop env call rule d ds r' f'))
            → OptionFits (elim t [
              | leave w ↦ some w
              | fault ↦ none
              | next w ↦ elim w [
                | full r' ↦ some (full r')
                | go r' f' ↦ destinations_loop env call rule d ds r' f'
              ]
            ])
        done (leave w) k ih = k
        done fault k ih = tt
        done (next (full r')) k ih = k
        done (next (go r' f')) k ih = ih r' f' k

    -- what the call of a group leaves
    group-fits :
        (o : Option (Routing × Bool)) (f : Frame)
        → CallFits o
        → OptionFits (elim o [
          | none ↦ none
          | some (r', stopped) ↦ some (go r' (record f { stop = stopped }))
        ])
    group-fits none f k = tt
    group-fits (some (r', stopped)) f k = k

    apply_rule-Fits :
        (pattern : Pattern) (rule : Rule) (stop : Bool) (ds : Dests) (r : Routing) (f : Frame)
        → Fits r
        → OptionFits (apply_rule env call pattern rule stop ds r f)
    unfolding apply_rule
    apply_rule-Fits pattern rule stop ds r f h = by_head (is_group rule.head)
      where
        matched : Bool × List RegMatch
        matched = router_metric_matches env.regexec f.before pattern r.metric f.firstspace f.pmatch

        by_head :
            (o : Option (List ℕ × Routes))
            → OptionFits (elim o [
              | some (name, rs) ↦
                  if group_matches name (reverse (take f.firstspace r.metric))
                  then (elim (call f.before r f.firstspace rs) [
                    | none ↦ none
                    | some (r', stopped) ↦ some (go r' (record f { stop = stopped }))
                  ])
                  else some (go r f)
              | none ↦
                  if matched.0
                  then destinations_loop env call rule rule.head ds r
                      (record f { pmatch = matched.1; stop = stop })
                  else some (go r (record f { pmatch = matched.1 }))
            ])
        by_head (some (name, rs)) =
            elim (Bool-cases (group_matches name (reverse (take f.firstspace r.metric)))) [
              | inl inside ↦ rw inside (
                  group-fits (call f.before r f.firstspace rs) f
                    (keeps f.before r f.firstspace rs h))
              | inr outside ↦ rw outside h
            ]
        by_head none = elim (Bool-cases matched.0) [
          | inl matches ↦ rw matches (
              destinations_loop-Fits ds rule rule.head r
                (record f { pmatch = matched.1; stop = stop }) h)
          | inr misses ↦ rw misses h
        ]

    rules_loop-Fits :
        (rs : Routes) (r : Routing) (f : Frame) → Fits r → CallFits (rules_loop env call rs r f)
    unfolding rules_loop finish
    rules_loop-Fits end r f h = h
    rules_loop-Fits (route pattern written nmatch masq stop c ds rs) r f h =
        done
          (apply_rule env call pattern
            (record { nmatch = nmatch; masq = masq; len = length written; head = c }) stop ds r f)
          (apply_rule-Fits pattern
            (record { nmatch = nmatch; masq = masq; len = length written; head = c }) stop ds r f h)
          (λ r' f' k. rules_loop-Fits rs r' f' k)
      where
        done :
            (o : Option Flow)
            → OptionFits o
            → ((r' : Routing) (f' : Frame) → Fits r' → CallFits (rules_loop env call rs r' f'))
            → CallFits (elim o [
              | none ↦ none
              | some w ↦ elim w [
                | full r' ↦ some (r', true)
                | go r' f' ↦ elim f'.stop [
                  | true ↦ some (finish r' f')
                  | false ↦ rules_loop env call rs r' f'
                ]
              ]
            ])
        done none k ih = tt
        done (some (full r')) k ih = k
        done (some (go r' f')) k ih = elim (Bool-cases f'.stop) [
          | inl stops ↦ rw stops k
          | inr goes ↦ rw goes (ih r' f' k)
        ]

  router_route_intern-Fits :
      (fuel : ℕ) (before : List ℕ) (r : Routing) (n : ℕ) (rs : Routes)
      → Fits r
      → CallFits (router_route_intern env fuel before r n rs)
  unfolding router_route_intern
  router_route_intern-Fits zero before r n rs h = tt
  router_route_intern-Fits (suc fuel) before r n rs h =
      rules_loop-Fits (router_route_intern env fuel) (router_route_intern-Fits fuel) rs r
        (record {
          before = before;
          firstspace = n;
          pmatch = env.stack;
          stop = false;
          wassent = false;
        })
        h

-- What routing leaves takes no more slots than there are.
abbrev pub WithinSlots : ℕ → Option Routing → Type 0
WithinSlots size none = Unit
WithinSlots size (some r) = length r.ret ≤ size

-- For any rules, however groups and stubs nest, any metric, and any behaviour of regular expressions
-- and hash rings, `router_route` fills at most `retsize` destination slots.
pub router_route-slots :
    (env : Env) (fuel : ℕ) (before : List ℕ) (rs : Routes) (metric : List ℕ) (n : ℕ)
    → WithinSlots env.retsize (router_route env fuel before rs metric n)
unfolding router_route
router_route-slots env fuel before rs metric n =
    done
      (router_route_intern env fuel before
        (record { metric = metric; ret = []; blackholed = false; aggregated = [] }) n rs)
      (router_route_intern-Fits env fuel before
        (record { metric = metric; ret = []; blackholed = false; aggregated = [] }) n rs
        (omega arith))
  where
    done :
        (o : Option (Routing × Bool))
        → CallFits env o
        → WithinSlots env.retsize (elim o [ none ↦ none | some (r, stop) ↦ some r ])
    done none k = tt
    done (some (r, stop)) k = k
