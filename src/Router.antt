-- ===== src/Router.antt =====
-- router.c and cluster.h: rules and clusters, and what a rule's pattern matches. A metric is the
-- whole line, with the offset of its first space. The regular expressions of the C library are a
-- parameter, `regexec rule text`; a match group is a pair of offsets, or `none` where it is unset.
pub mod Rewrite
pub mod Send
pub mod Route
pub mod Classify
pub mod Optimise
pub mod Address
mod Tests
use mathlib.Core.List.{reverse}
use carbon_c_relay.Prelude.Bytes.{str_eq, starts_with}
use carbon_c_relay.Prelude.{
  ℕ, suc, ◌+◌, ◌-◌, Bool, true, false, ◌||◌, Option, none, some, List, [], ◌∷◌, ◌++◌, if◌then◌else◌,
  leb, length, take, drop, set,
}
use carbon_c_relay.Server.{Server}
use carbon_c_relay.Ring.{ChRing}

abbrev pub metric_bufsiz : ℕ
metric_bufsiz = 32768

-- `regmatch_t`
abbrev pub RegMatch : Type 0
RegMatch = Option (ℕ × ℕ)

-- `matchtype`, with the text or the compiled expression that it goes by
pub data Pattern : Type 0 where
  matchall : Pattern
  regex : ℕ → Pattern
  contains : List ℕ → Pattern
  prefix : List ℕ → Pattern
  suffix : List ℕ → Pattern
  equals : List ℕ → Pattern

-- `struct _validate`'s action
pub data Action : Type 0 where
  val_log val_drop : Action

-- `cluster`, `route` and `destinations`; a cluster has the members that its type gives it.
mutual
  pub data Cluster : Type 0 where
    blackhole : Cluster
    group : List ℕ → Routes → Cluster
    aggrstub : Routes → Cluster
    statstub : Routes → Cluster
    validation : Pattern → Action → Cluster
    forward : List Server → Cluster
    filelog : List Server → Cluster
    filelogip : List Server → Cluster
    hashring : ChRing → ℕ → Cluster
    anyof : List Server → Cluster
    failover : List Server → Cluster
    lb : List Server → Cluster
    aggregation : ℕ → Cluster
    rewrite : List ℕ → Cluster

  pub data Dests : Type 0 where
    last : Dests
    dest : Cluster → Dests → Dests

  -- A rule: its pattern as matched and as written, the number of its match groups, `masq`, `stop`,
  -- its destinations, and the rules behind it.
  pub data Routes : Type 0 where
    end : Routes
    route : Pattern → List ℕ → ℕ → Option (List ℕ) → Bool → Cluster → Dests → Routes → Routes

-- `strstr`: the offset of the first occurrence
unfoldable pub strstr : List ℕ → List ℕ → Option ℕ
unfolding starts_with
strstr [] needle = if starts_with [] needle then some 0 else none
strstr (c ∷ s) needle =
    if starts_with (c ∷ s) needle
    then some 0
    else (elim (strstr s needle) [ none ↦ none | some i ↦ some (suc i) ])

-- The `len` bytes in front of `firstspace`. Where the metric is shorter the code reads the memory in
-- front of it: `before`, nearest byte first.
unfoldable pub tail_of : List ℕ → List ℕ → ℕ → ℕ → List ℕ
tail_of before metric firstspace len =
    if leb len firstspace
    then drop (firstspace - len) (take firstspace metric)
    else reverse (take (len - firstspace) before) ++ take firstspace metric

-- `pmatch[0]` for a match of `len` bytes at `so`
abbrev pub whole_match : List RegMatch → ℕ → ℕ → List RegMatch
whole_match pmatch so len = set pmatch 0 (some (so, so + len))

-- `router_metric_matches`: whether the rule matches, and the match groups then.
unfoldable pub router_metric_matches :
    (ℕ → List ℕ → List RegMatch → Option (List RegMatch))
    → List ℕ
    → Pattern
    → List ℕ
    → ℕ
    → List RegMatch
    → Bool × List RegMatch
unfolding strstr tail_of str_eq starts_with
router_metric_matches regexec before matchall metric n pmatch = (true, pmatch)
router_metric_matches regexec before (regex rule) metric n pmatch =
    elim (regexec rule (take n metric) pmatch) [
      | none ↦ (false, pmatch)
      | some groups ↦ (true, groups)
    ]
router_metric_matches regexec before (contains s) metric n pmatch =
    elim (strstr (take n metric) s) [
      | none ↦ (false, pmatch)
      | some i ↦ (true, whole_match pmatch i (length s))
    ]
router_metric_matches regexec before (prefix s) metric n pmatch =
    if starts_with metric s then (true, whole_match pmatch 0 (length s)) else (false, pmatch)
router_metric_matches regexec before (suffix s) metric n pmatch =
    if str_eq (tail_of before metric n (length s)) s
    then (true, whole_match pmatch (n - length s) (length s))
    else (false, pmatch)
router_metric_matches regexec before (equals s) metric n pmatch =
    if str_eq (take n metric) s then (true, whole_match pmatch 0 (length s)) else (false, pmatch)

-- The search of a group's name, which is stored last byte first, in the bytes of the path, last
-- byte first.
unfoldable pub group_matches : List ℕ → List ℕ → Bool
unfolding starts_with
group_matches name [] = false
group_matches name (c ∷ s) = starts_with (c ∷ s) name || group_matches name s
