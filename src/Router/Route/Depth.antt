-- ===== src/Router/Route/Depth.antt =====
-- How deep rules nest in groups and stubs, and the rules whose destinations are served by the first
-- of them.
use carbon_c_relay.Prelude.{
  ℕ, suc, ◌≤◌, ◌<◌, ◌≡◌, Bool, true, false, ◌&&◌, Option, none, some, List, arith, if◌then◌else◌,
  leb,
}
use carbon_c_relay.Router.{
  Cluster, blackhole, group, aggrstub, statstub, validation, forward, filelog, filelogip, hashring,
  anyof, failover, lb, aggregation, rewrite, Dests, last, dest, Routes, end, route,
}
use carbon_c_relay.Router.Send.{Flow, Turn, next, leave, fault, turn, stub_routes, validation_of}
use carbon_c_relay.Router.Route.{is_group}

abbrev pub is_some {ℓ} : {X : Type ℓ} → Option X → Bool
is_some none = false
is_some (some x) = true

-- A stub or a validation finds what it needs in the rule's first destination.
abbrev pub served : Cluster → Cluster → Bool
served head (aggrstub rs) = is_some (stub_routes head)
served head (statstub rs) = is_some (stub_routes head)
served head (validation p action) = is_some (validation_of head)
served head _ = true

abbrev pub all_served : Cluster → Cluster → Dests → Bool
all_served head c last = served head c
all_served head c (dest d ds) = served head c && all_served head d ds

abbrev pub larger : ℕ → ℕ → ℕ
larger a b = if leb a b then b else a

pub le_larger : (a b : ℕ) → (a ≤ larger a b) × (b ≤ larger a b)
le_larger a b = ground arith

pub and-true : (a b : Bool) → a && b ≡ true → (a ≡ true) × (b ≡ true)
and-true a b h = ground arith

unfoldable mutual
  -- How deep the rules nest in groups and stubs, as far as the first destinations of rules go.
  pub depth : Routes → ℕ
  depth end = 1
  depth (route pattern written nmatch masq stop c ds rs) = larger (suc (depth_in c)) (depth rs)

  pub depth_in : Cluster → ℕ
  depth_in (group name rs) = depth rs
  depth_in (aggrstub rs) = depth rs
  depth_in (statstub rs) = depth rs
  depth_in _ = 0

unfoldable mutual
  -- In every rule, also of groups and stubs, the destinations are served by the first of them.
  pub IsServed : Routes → Type 0
  IsServed end = Unit
  IsServed (route pattern written nmatch masq stop c ds rs) =
      (all_served c c ds ≡ true) × (IsServedIn c × IsServed rs)

  pub IsServedIn : Cluster → Type 0
  IsServedIn (group name rs) = IsServed rs
  IsServedIn (aggrstub rs) = IsServed rs
  IsServedIn (statstub rs) = IsServed rs
  IsServedIn _ = Unit

abbrev pub Returns {ℓ} : {X : Type ℓ} → Option X → Type 0
Returns none = ⊥
Returns (some x) = Unit

abbrev pub IsTurn : Turn → Type 0
IsTurn (next w) = Unit
IsTurn (leave w) = Unit
IsTurn fault = ⊥

pub turn-IsTurn : (o : Option Flow) → Returns o → IsTurn (turn o)
turn-IsTurn none h = h
turn-IsTurn (some w) h = tt

-- the rules of a stub, and of a group, within reach of the fuel
abbrev pub InReach : ℕ → Option Routes → Type 0
InReach fuel none = ⊥
InReach fuel (some rs) = IsServed rs × (depth rs ≤ fuel)

pub stub_routes-InReach :
    (fuel : ℕ) (c : Cluster)
    → is_some (stub_routes c) ≡ true
    → IsServedIn c
    → depth_in c ≤ fuel
    → InReach fuel (stub_routes c)
unfolding depth_in IsServedIn
stub_routes-InReach fuel (aggrstub rs) h s d = (s, d)
stub_routes-InReach fuel (statstub rs) h s d = (s, d)
stub_routes-InReach fuel blackhole h s d = cc
stub_routes-InReach fuel (group name rs) h s d = cc
stub_routes-InReach fuel (filelogip ss) h s d = cc
stub_routes-InReach fuel (forward ss) h s d = cc
stub_routes-InReach fuel (filelog ss) h s d = cc
stub_routes-InReach fuel (anyof ss) h s d = cc
stub_routes-InReach fuel (failover ss) h s d = cc
stub_routes-InReach fuel (lb ss) h s d = cc
stub_routes-InReach fuel (hashring ring repl) h s d = cc
stub_routes-InReach fuel (aggregation a) h s d = cc
stub_routes-InReach fuel (rewrite text) h s d = cc
stub_routes-InReach fuel (validation p a) h s d = cc

abbrev pub GroupInReach : ℕ → Option (List ℕ × Routes) → Type 0
GroupInReach fuel none = Unit
GroupInReach fuel (some (name, rs)) = IsServed rs × (depth rs ≤ fuel)

pub is_group-InReach :
    (fuel : ℕ) (c : Cluster) → IsServedIn c → depth_in c ≤ fuel → GroupInReach fuel (is_group c)
unfolding depth_in IsServedIn
is_group-InReach fuel (group name rs) s d = (s, d)
is_group-InReach fuel blackhole s d = tt
is_group-InReach fuel (aggrstub rs) s d = tt
is_group-InReach fuel (statstub rs) s d = tt
is_group-InReach fuel (filelogip ss) s d = tt
is_group-InReach fuel (forward ss) s d = tt
is_group-InReach fuel (filelog ss) s d = tt
is_group-InReach fuel (anyof ss) s d = tt
is_group-InReach fuel (failover ss) s d = tt
is_group-InReach fuel (lb ss) s d = tt
is_group-InReach fuel (hashring ring repl) s d = tt
is_group-InReach fuel (aggregation a) s d = tt
is_group-InReach fuel (rewrite text) s d = tt
is_group-InReach fuel (validation p a) s d = tt

pub depth-pos : (rs : Routes) → 0 < depth rs
unfolding depth
depth-pos end = omega arith
depth-pos (route pattern written nmatch masq stop c ds rs) =
    omega (arith, le_larger (suc (depth_in c)) (depth rs))
