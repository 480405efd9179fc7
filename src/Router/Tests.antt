-- ===== src/Router/Tests.antt =====
-- Runs of the router, and each theorem at an input.
use carbon_c_relay.Prelude.Bytes.{codes, str_eq}
use carbon_c_relay.Prelude.Int.{ℤ, pos}
use carbon_c_relay.Router.Address.{address, router_validate_address, router_validate_address-reads}
use carbon_c_relay.Prelude.{
  if◌then◌else◌, ℕ, ◌+◌, ◌-◌, ◌≡◌, refl, true, false, none, some, List, [], ◌∷◌, ◌++◌, arith,
  length, take, drop,
}
use carbon_c_relay.Server.{Server, linemode}
use carbon_c_relay.Router.{
  RegMatch, matchall, regex, prefix, group, forward, rewrite, last, Routes, end, route,
}
use carbon_c_relay.Router.Rewrite.{slice, router_rewrite_metric}
use carbon_c_relay.Router.Rewrite.Bounds.{IsRewritten, router_rewrite_metric-Rewritten}
use carbon_c_relay.Router.Rewrite.Literal.{router_rewrite_metric-literal}
use carbon_c_relay.Router.Send.{Env, Routing}
use carbon_c_relay.Router.Route.{router_route}
use carbon_c_relay.Router.Route.Depth.{IsServed, depth}
use carbon_c_relay.Router.Route.Ends.{router_route-ends}
use carbon_c_relay.Router.Route.Slots.{WithinSlots, router_route-slots}

abbrev host : ℕ → Server
host n = record { id = n; ip = n ∷ []; port = 2003; instance_name = none; type = linemode }

-- one expression, `o\.(b)`, at a fixed place of any metric
abbrev env : Env
env = record {
  regexec = λ rule metric groups. some (some (2, 5) ∷ (some (4, 5) ∷ []));
  nodes = λ ring repl metric. [];
  now = codes "now";
  srcaddr = codes "1.2.3.4";
  retsize = 2;
  stack = none ∷ (none ∷ []);
}

abbrev foo_bar : List ℕ
foo_bar = codes "foo.bar 1" ++ (b'\n' ∷ [])

abbrev groups : List RegMatch
groups = some (2, 5) ∷ (some (4, 5) ∷ [])

-- rewrite, then send to three servers, of which two find a slot
abbrev rules : Routes
rules = route (regex 0) (codes "o\\.(b)") 1 none false (rewrite (codes "-\\^1")) last (
    route (prefix (codes "fo")) (codes "^fo") 0 none false (forward (host 1 ∷ [])) last
      (route matchall (codes "*") 0 none true (forward (host 2 ∷ (host 3 ∷ []))) last end))

rewrite_group :
    router_rewrite_metric foo_bar 7 (codes "-\\^1") 1 groups
    ≡ some (codes "fo-Bar 1" ++ (b'\n' ∷ []), 6)
unfolding router_rewrite_metric
rewrite_group = refl

route_sends :
    router_route env 1 [] rules foo_bar 7
    ≡ some (record {
      metric = codes "fo-Bar 1" ++ (b'\n' ∷ []);
      ret =
          record { server = host 1; text = codes "fo-Bar 1" ++ (b'\n' ∷ []) }
          ∷ (record { server = host 2; text = codes "fo-Bar 1" ++ (b'\n' ∷ []) } ∷ []);
      blackholed = false;
      aggregated = [];
    })
unfolding router_route
route_sends = refl

-- A metric that only the rules of a group send counts as blackholed all the same.
abbrev grouped : Routes
grouped =
    route matchall (codes "*") 0 none false
      (group (codes ".oof")
        (route matchall (codes "*") 0 none false (forward (host 1 ∷ [])) last end))
      last end

route_group :
    router_route env 2 [] grouped foo_bar 7
    ≡ some (record {
      metric = foo_bar;
      ret = record { server = host 1; text = foo_bar } ∷ [];
      blackholed = true;
      aggregated = [];
    })
unfolding router_route
route_group = refl

router_rewrite_metric-Rewritten_example :
    IsRewritten foo_bar 7 (router_rewrite_metric foo_bar 7 (codes "-\\^1") 1 groups)
router_rewrite_metric-Rewritten_example =
    router_rewrite_metric-Rewritten foo_bar 7 (codes "-\\^1") 1 groups

router_rewrite_metric-literal_example :
    router_rewrite_metric foo_bar 7 (codes "--") 1 groups
    ≡ some (
      (take 2 foo_bar ++ (codes "--" ++ slice foo_bar 5 7)) ++ drop 7 foo_bar,
      2 + length (codes "--") + (7 - 5),
    )
router_rewrite_metric-literal_example =
    router_rewrite_metric-literal foo_bar (codes "--") 7 1 groups 2 5 refl (omega arith)
      (omega arith) (omega arith) refl (omega arith)

router_route-slots_example : WithinSlots 2 (router_route env 1 [] rules foo_bar 7)
router_route-slots_example = router_route-slots env 1 [] rules foo_bar 7

grouped-IsServed : IsServed grouped
unfolding IsServed
grouped-IsServed = (refl, ((refl, (tt, tt)), tt))

router_route-ends_example :
    (result : Routing) × (router_route env 2 [] grouped foo_bar 7 ≡ some result)
unfolding depth
router_route-ends_example =
    router_route-ends env 2 [] grouped foo_bar 7 grouped-IsServed (omega arith)

-- a strtol that knows one text
abbrev eighty : List ℕ → ℤ × ℕ
eighty s = if str_eq s (codes "80") then (pos 80, 2) else (pos 0, 0)

router_validate_address-reads_example :
    (router_validate_address eighty (codes "a:80") ≡ address (some (codes "a")) 80)
    × (router_validate_address eighty (codes ":80") ≡ address none 80)
    × (router_validate_address eighty (codes "[::1]:80") ≡ address (some (codes "::1")) 80)
    × (router_validate_address eighty (codes "[::1]") ≡ address (some (codes "::1")) 2003)
unfolding str_eq
router_validate_address-reads_example =
    router_validate_address-reads eighty (codes "80") 80 (refl, (refl, tt)) (refl, (refl, tt)) refl
      (omega arith) (omega arith) b'a' [] (codes "::1") refl
