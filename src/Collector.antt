-- ===== src/Collector.antt =====
-- collector.c, and the counters of server.c and dispatcher.c that it reads: the lines that
-- `collector_runner` sends about them in a cycle.
pub mod Cycle
pub mod Sums
pub mod Handled
pub mod Served
pub mod Conns
pub mod Parts
pub mod Totals
pub mod Since
pub mod Writer
pub mod Failures
mod Tests
use carbon_c_relay.Prelude.Bytes.{codes, decimal}
use carbon_c_relay.Prelude.Int.{ℤ, pos, negsuc}
use carbon_c_relay.Prelude.{
  ℕ, ◌+◌, ◌-◌, ◌%◌, ◌^◌, Option, none, some, List, [], ◌∷◌, ◌++◌, if◌then◌else◌, ◌==◌, length, take,
}
use carbon_c_relay.Aggregator.Counters.{since}
use carbon_c_relay.Router.{metric_bufsiz}

-- `col_mode`
pub data ColMode : Type 0 where
  cum sub : ColMode

-- a counter with what was reported of it, as `ticks` and `prevticks`
pub record Meter : Type 0 where
  pub value : ℕ
  pub prev : ℕ

-- the getters: `server_get_metrics`, `dispatch_get_ticks`, and their like
unfoldable pub get : Meter → ℕ
get m = m.value

-- those since the last call: `server_get_metrics_sub`, `dispatch_get_ticks_sub`, and their like
unfoldable pub get_sub : Meter → ℕ × Meter
unfolding since get
get_sub m = let (d, prev) = since (get m) m.prev in (d, record m { prev = prev })

-- the getter that the mode chooses
unfoldable pub get_by : ColMode → Meter → ℕ × Meter
unfolding get get_sub
get_by cum m = (get m, m)
get_by sub m = get_sub m

pub record ConnMeters : Type 0 where
  pub ticks : Meter
  pub metrics : Meter
  pub failure : ℤ

-- `server_get_failure`
unfoldable pub server_get_failure : ConnMeters → ℕ
server_get_failure c = elim c.failure [ pos n ↦ n | negsuc n ↦ 0 ]

-- `serv_ctype`, less the sockets that only a listener has
pub data ServCtype : Type 0 where
  con_tcp con_udp con_pipe con_file : ServCtype

-- `struct _server`, as far as the collector reads it; `conns` has `nconns` entries
pub record ServerMeters : Type 0 where
  pub ctype : ServCtype
  pub ip : List ℕ
  pub port : ℕ
  pub queue_len : ℕ
  pub queue_size : ℕ
  pub conns : List ConnMeters
  pub stalls : Meter
  pub dropped : Meter
  pub requeue : Meter

-- `struct _dispatcher`, as far as the collector reads it
pub record DispatcherMeters : Type 0 where
  pub sleeps : Meter
  pub ticks : Meter
  pub metrics : Meter
  pub blackholes : Meter
  pub discards : Meter

-- a sum of `size_t`
unfoldable pub add_size : ℕ → ℕ → ℕ
add_size a b = (a + b) % 2 ^ 64

unfoldable pub underscores : List ℕ → List ℕ
underscores [] = []
underscores (c ∷ cs) = (if c == b'.' then b'_' else c) ∷ underscores cs

-- `destbuf`
unfoldable pub dest_name : ServerMeters → List ℕ
unfolding underscores decimal
dest_name s = underscores (
    take 1023 (elim s.ctype [
      | con_tcp ↦ s.ip ++ (codes ":" ++ decimal s.port)
      | con_udp ↦ s.ip ++ (codes ":" ++ (decimal s.port ++ codes "-udp"))
      | _ ↦ s.ip
    ]))

-- what a line is about
pub data About : Type 0 where
  dispatcher : ℕ → About
  all_dispatchers : About
  submission : List ℕ → About
  destination : List ℕ → About
  connection : List ℕ → ℕ → About
  all_servers : About
  aggregators : About

pub data Count : Type 0 where
  metrics_received metrics_blackholed metrics_discarded wall_time sleep_time : Count
  sent queued stalls dropped requeue failures : Count
  connections disconnects : Count

-- a line of the collector, at the time of its cycle
pub record Line : Type 0 where
  pub about : About
  pub count : Count
  pub value : ℕ

abbrev pub count_name : Count → List ℕ
count_name metrics_received = codes "metricsReceived"
count_name metrics_blackholed = codes "metricsBlackholed"
count_name metrics_discarded = codes "metricsDiscarded"
count_name wall_time = codes "wallTime_us"
count_name sleep_time = codes "sleepTime_us"
count_name sent = codes "sent"
count_name queued = codes "queued"
count_name stalls = codes "stalls"
count_name dropped = codes "dropped"
count_name requeue = codes "requeue"
count_name failures = codes "failures"
count_name connections = codes "connections"
count_name disconnects = codes "disconnects"

-- the names of the sums over all servers
abbrev pub server_name : Count → List ℕ
server_name sent = codes "metricsSent"
server_name queued = codes "metricsQueued"
server_name stalls = codes "metricStalls"
server_name dropped = codes "metricsDropped"
server_name wall_time = codes "server_wallTime_us"
server_name failures = codes "server_failures"
server_name c = count_name c

abbrev pub dispatcher_name : Count → List ℕ
dispatcher_name wall_time = codes "dispatch_wallTime_us"
dispatcher_name sleep_time = codes "dispatch_sleepTime_us"
dispatcher_name c = count_name c

abbrev pub aggregator_name : Count → List ℕ
aggregator_name sent = codes "metricsSent"
aggregator_name dropped = codes "metricsDropped"
aggregator_name c = count_name c

-- the path of a line behind the prefix
unfoldable pub line_name : Line → List ℕ
unfolding decimal
line_name l = elim l.about [
  | dispatcher i ↦ codes "dispatcher" ++ (decimal i ++ (codes "." ++ count_name l.count))
  | all_dispatchers ↦ dispatcher_name l.count
  | submission d ↦ codes "destinations." ++ (d ++ (codes "." ++ count_name l.count))
  | destination d ↦ codes "destinations." ++ (d ++ (codes "." ++ count_name l.count))
  | connection d n ↦
      codes "destinations."
      ++ (d ++ (codes ".connections." ++ (decimal n ++ (codes "." ++ count_name l.count))))
  | all_servers ↦ server_name l.count
  | aggregators ↦ codes "aggregators." ++ aggregator_name l.count
]

-- The text of a line: `metric`, with the prefix that is written once.
unfoldable pub line_text : List ℕ → ℕ → Line → List ℕ
unfolding line_name decimal
line_text prefix now l =
    let m = prefix ++ codes "." in
    m
    ++ take (metric_bufsiz - length m - 1) (
        line_name l
        ++ (codes " " ++ (decimal l.value ++ (codes " " ++ (decimal now ++ codes "\n")))))
