-- ===== src/Router/Send.antt =====
-- router.c: what `router_route_intern` does for each destination of a rule that matches. Formatted
-- lines are not cut at METRIC_BUFSIZ.
use mathlib.Core.List.{reverse}
use carbon_c_relay.Prelude.{
  ℕ, ◌+◌, ◌-◌, ◌%◌, Bool, true, false, not, ◌||◌, Option, none, some, List, [], ◌∷◌, ◌++◌, map,
  if◌then◌else◌, ltb, length, take, drop, get_elem?,
}
use carbon_c_relay.Prelude.Bytes.{codes}
use carbon_c_relay.Server.{Server, linemode, syslogmode}
use carbon_c_relay.Hash.{fnv1a_32}
use carbon_c_relay.Ring.{ChRing}
use carbon_c_relay.Router.{
  RegMatch, Pattern, Action, val_log, val_drop, Cluster, blackhole, group, aggrstub, statstub,
  validation, forward, filelog, filelogip, hashring, anyof, failover, lb, aggregation, rewrite,
  Dests, last, dest, Routes, router_metric_matches,
}
use carbon_c_relay.Router.Rewrite.{router_rewrite_metric}

-- `destination`: the server and the text that is queued for it
pub record Destination : Type 0 where
  pub server : Server
  pub text : List ℕ

-- What a call of the aggregator gets.
pub record Putmetric : Type 0 where
  pub aggregator : ℕ
  pub metric : List ℕ
  pub firstspace : ℕ
  pub nmatch : ℕ
  pub pmatch : List RegMatch

-- What routing works on: the buffer of the metric, the destinations so far, whether the metric counts
-- as blackholed, and the calls of the aggregators.
pub record Routing : Type 0 where
  pub metric : List ℕ
  pub ret : List Destination
  pub blackholed : Bool
  pub aggregated : List Putmetric

-- What the code takes from elsewhere: regular expressions, the choice of a hash ring
-- (`ch_get_nodes`), the time stamp of a syslog line, the sender's address, the number of destination
-- slots, and what the array of match groups holds before it is written.
pub record Env : Type 0 where
  pub regexec : ℕ → List ℕ → List RegMatch → Option (List RegMatch)
  pub nodes : ChRing → ℕ → List ℕ → List Server
  pub now : List ℕ
  pub srcaddr : List ℕ
  pub retsize : ℕ
  pub stack : List RegMatch

-- The variables of one call of `router_route_intern`. `before` is the memory in front of the metric,
-- nearest byte first.
pub record Frame : Type 0 where
  pub before : List ℕ
  pub firstspace : ℕ
  pub pmatch : List RegMatch
  pub stop : Bool
  pub wassent : Bool

-- The end of a loop: it ran out of destination slots, and the call returns 1 at once; or it goes on.
pub data Flow : Type 0 where
  full : Routing → Flow
  go : Routing → Frame → Flow

unfoldable pub router_format_linemode : List ℕ → List ℕ → List ℕ
router_format_linemode srcaddr metric = metric

unfoldable pub router_format_linemodeip : List ℕ → List ℕ → List ℕ
router_format_linemodeip srcaddr metric = srcaddr ++ (b' ' ∷ metric)

unfoldable pub router_format_syslog : List ℕ → List ℕ → List ℕ → List ℕ
router_format_syslog now srcaddr metric =
    codes "<30>1 " ++ (now ++ (b' ' ∷ (srcaddr ++ (codes " carbon-c-relay - - - " ++ metric))))

-- `produce_metric` and `set_metric`
unfoldable pub produce : Env → List ℕ → Server → Destination
unfolding router_format_syslog router_format_linemode
produce env metric s = record {
  server = s;
  text = elim s.type [
    | syslogmode ↦ router_format_syslog env.now env.srcaddr metric
    | linemode ↦ router_format_linemode env.srcaddr metric
  ];
}

-- One destination, if there is a slot.
unfoldable pub add_one : Env → Routing → Frame → Destination → Flow
add_one env r f d =
    if ltb env.retsize (length r.ret + 1)
    then full r
    else go (record r { ret = r.ret ++ (d ∷ []) }) (record f { wassent = true })

-- The loop over the servers of a forward cluster; it returns from the call when the slots are full.
unfoldable pub add_all : Env → (Server → Destination) → List Server → Routing → Frame → Flow
add_all env text [] r f = go r (record f { wassent = true })
add_all env text (s ∷ ss) r f =
    if ltb env.retsize (length r.ret + 1)
    then full r
    else add_all env text ss (record r { ret = r.ret ++ (text s ∷ []) }) f

-- The metric that a hash ring is asked for: rewritten by `masq`, if the rule has one.
unfoldable pub masked : Option (List ℕ) → List ℕ → ℕ → ℕ → List RegMatch → Option (List ℕ)
unfolding router_rewrite_metric
masked none metric n nmatch pmatch = some (take n metric)
masked (some masq) metric n nmatch pmatch =
    elim (router_rewrite_metric metric n masq nmatch pmatch) [
      | none ↦ none
      | some (line, k) ↦ some (take k line)
    ]

-- A carbon, fnv1a or jump cluster: its ring chooses `repl` servers.
unfoldable pub add_nodes : Env → Routing → Frame → ChRing → ℕ → Option (List ℕ) → Flow
unfolding produce
add_nodes env r f ring repl key =
    if ltb env.retsize (length r.ret + repl) then full r else (elim key [
      | none ↦ go r f
      | some k ↦
          go
            (record r {
              ret = r.ret ++ map (produce env r.metric) (take repl (env.nodes ring repl k));
            })
            (record f { wassent = true })
    ])

-- The server of an any_of cluster that the hash of the path falls to, and the first of a failover or
-- lb cluster.
unfoldable pub add_chosen : Env → Routing → Frame → Option Server → Flow
unfolding add_one produce
add_chosen env r f none = go r f
add_chosen env r f (some s) = add_one env r f (produce env r.metric s)

-- `wassent = 1` unless the metric was blackholed
abbrev pub unless_blackholed : Routing → Frame → Frame
unless_blackholed r f = record f { wassent = f.wassent || not r.blackholed }

-- The rules of a stub, which the code takes from the rule's first destination.
abbrev pub stub_routes : Cluster → Option Routes
stub_routes (aggrstub rs) = some rs
stub_routes (statstub rs) = some rs
stub_routes _ = none

-- The result of a call: what it leaves, and whether to stop.
abbrev pub Call : Type 0
Call = List ℕ → Routing → ℕ → Routes → Option (Routing × Bool)

-- A stub: the metric behind the rule's pattern is routed afresh. `len` is the pattern's length.
unfoldable pub reroute : Call → ℕ → Option Routes → Routing → Frame → Option Flow
reroute call len none r f = none
reroute call len (some rs) r f =
    elim (call (reverse (take len r.metric) ++ f.before) (record r { metric = drop len r.metric })
      (f.firstspace - len) rs) [
        | none ↦ none
        | some (r', stop) ↦
            some
              (go (record r' { metric = take len r.metric ++ r'.metric }) (unless_blackholed r' f))
      ]

-- The write-back of a rewritten line.
unfoldable pub rewrite_back : Routing → Frame → Option (List ℕ × ℕ) → Flow
rewrite_back r f none = go r f
rewrite_back r f (some (line, k)) = go (record r { metric = line }) (record f { firstspace = k })

abbrev pub is_last : Dests → Bool
is_last last = true
is_last (dest c ds) = false

-- A validation that failed: what the call goes on with, behind the loop over the destinations.
unfoldable pub reject : Action → Bool → Frame → Frame
reject val_log ends f = record f { wassent = true; stop = f.stop || ends }
reject val_drop ends f = record f { stop = f.stop || ends }

-- What one destination does: the loop goes on with the next, or it is left.
pub data Turn : Type 0 where
  next : Flow → Turn
  leave : Flow → Turn
  fault : Turn

abbrev pub turn : Option Flow → Turn
turn none = fault
turn (some w) = next w

-- What the destinations of a rule share: its match groups' number, `masq`, the length of its
-- pattern, and its first destination.
pub record Rule : Type 0 where
  pub nmatch : ℕ
  pub masq : Option (List ℕ)
  pub len : ℕ
  pub head : Cluster

-- A validation, which the code, too, takes from the rule's first destination. (A first destination
-- of another type is read as what it is not: no outcome.)
abbrev pub validation_of : Cluster → Option (Pattern × Action)
validation_of (validation p action) = some (p, action)
validation_of _ = none

-- The validation: the data of the metric is matched, up to its last byte.
unfoldable pub validate : Env → Option (Pattern × Action) → Bool → Routing → Frame → Turn
unfolding reject router_metric_matches
validate env none ends r f = fault
validate env (some (p, action)) ends r f =
    let n = f.firstspace in
    let (matches, pmatch) =
      router_metric_matches env.regexec (reverse (take (n + 1) r.metric) ++ f.before) p
        (drop (n + 1) r.metric) (length r.metric - n - 2) f.pmatch in
    let f' = record f { pmatch = pmatch } in
    if matches then next (go r f') else leave (go r (reject action ends f'))

-- The switch over the type of the cluster. `ends` says that no destination follows.
unfoldable pub send_to : Env → Call → Rule → Cluster → Bool → Routing → Frame → Turn
unfolding add_all add_nodes add_chosen reroute rewrite_back validate masked produce
send_to env call rule blackhole ends r f = next (go (record r { blackholed = true }) f)
send_to env call rule (group name rs) ends r f = next (go r f)
send_to env call rule (filelogip ss) ends r f = next (
    add_all env (λ s. record { server = s; text = router_format_linemodeip env.srcaddr r.metric })
      ss r f)
send_to env call rule (forward ss) ends r f = next (add_all env (produce env r.metric) ss r f)
send_to env call rule (filelog ss) ends r f = next (add_all env (produce env r.metric) ss r f)
send_to env call rule (anyof ss) ends r f =
    next (add_chosen env r f (get_elem? ss (fnv1a_32 (take f.firstspace r.metric) % length ss)))
send_to env call rule (failover ss) ends r f = next (add_chosen env r f (get_elem? ss 0))
send_to env call rule (lb ss) ends r f = next (add_chosen env r f (get_elem? ss 0))
send_to env call rule (hashring ring repl) ends r f =
    next (add_nodes env r f ring repl (masked rule.masq r.metric f.firstspace rule.nmatch f.pmatch))
send_to env call rule (aggregation a) ends r f = leave (
    go
      (record r {
        aggregated =
            r.aggregated
            ++ (record {
              aggregator = a;
              metric = r.metric;
              firstspace = f.firstspace;
              nmatch = rule.nmatch;
              pmatch = f.pmatch;
            }
                ∷ []);
      })
      (record f { wassent = true }))
send_to env call rule (rewrite replacement) ends r f = next (
    rewrite_back r f (router_rewrite_metric r.metric f.firstspace replacement rule.nmatch f.pmatch))
send_to env call rule (aggrstub rs) ends r f =
    turn (reroute call rule.len (stub_routes rule.head) r f)
send_to env call rule (statstub rs) ends r f =
    turn (reroute call rule.len (stub_routes rule.head) r f)
send_to env call rule (validation p action) ends r f =
    validate env (validation_of rule.head) ends r f

-- The loop over a rule's destinations, from one of them on.
unfoldable pub destinations_loop :
    Env → Call → Rule → Cluster → Dests → Routing → Frame → Option Flow
unfolding send_to
destinations_loop env call rule c last r f = elim (send_to env call rule c true r f) [
  | next w ↦ some w
  | leave w ↦ some w
  | fault ↦ none
]
destinations_loop env call rule c (dest d ds) r f = elim (send_to env call rule c false r f) [
  | leave w ↦ some w
  | fault ↦ none
  | next w ↦ elim w [
    | full r' ↦ some (full r')
    | go r' f' ↦ destinations_loop env call rule d ds r' f'
  ]
]
