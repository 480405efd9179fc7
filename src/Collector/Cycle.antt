-- ===== src/Collector/Cycle.antt =====
-- collector.c: a cycle of `collector_runner`. Memory for the lines is granted, and the getters see
-- no change in between; `server_send` takes each line, in the order of the list.
use carbon_c_relay.Prelude.{ℕ, ◌+◌, List, [], ◌∷◌, ◌++◌, if◌then◌else◌, ltb}
use carbon_c_relay.Collector.{
  ColMode, Meter, get_by, ConnMeters, server_get_failure, ServerMeters, DispatcherMeters, add_size,
  dest_name, About, dispatcher, all_dispatchers, submission, destination, connection, all_servers,
  aggregators, Count, metrics_received, metrics_blackholed, metrics_discarded, wall_time,
  sleep_time, sent, queued, stalls, dropped, requeue, failures, connections, disconnects, Line,
}

-- what a dispatcher reports, or the sum of all: `ticks` and `totticks`, and so on
pub record Handled : Type 0 where
  pub sleeps : ℕ
  pub ticks : ℕ
  pub metrics : ℕ
  pub blackholes : ℕ
  pub discards : ℕ

abbrev pub no_handled : Handled
no_handled = record { sleeps = 0; ticks = 0; metrics = 0; blackholes = 0; discards = 0 }

abbrev pub line : About → Count → ℕ → Line
line about count value = record { about = about; count = count; value = value }

unfoldable pub read_dispatcher : ColMode → DispatcherMeters → Handled × DispatcherMeters
unfolding get_by
read_dispatcher mode d =
    let (sl, sleeps) = get_by mode d.sleeps in
    let (ti, ticks) = get_by mode d.ticks in
    let (me, metrics) = get_by mode d.metrics in
    let (bl, blackholes) = get_by mode d.blackholes in
    let (di, discards) = get_by mode d.discards in
    (
      record { sleeps = sl; ticks = ti; metrics = me; blackholes = bl; discards = di },
      record {
        sleeps = sleeps;
        ticks = ticks;
        metrics = metrics;
        blackholes = blackholes;
        discards = discards;
      },
    )

abbrev pub add_handled : Handled → Handled → Handled
add_handled tot h = record {
  sleeps = add_size tot.sleeps h.sleeps;
  ticks = add_size tot.ticks h.ticks;
  metrics = add_size tot.metrics h.metrics;
  blackholes = add_size tot.blackholes h.blackholes;
  discards = add_size tot.discards h.discards;
}

-- the five lines of a dispatcher, or of their sum
abbrev pub handled_lines : About → Handled → List Line
handled_lines about h =
    line about metrics_received h.metrics
    ∷ line about metrics_blackholed h.blackholes
    ∷ line about metrics_discarded h.discards
    ∷ line about wall_time h.ticks
    ∷ line about sleep_time h.sleeps
    ∷ []

-- The loop over the dispatchers, from number `i` and the sum `tot` on.
unfoldable pub dispatchers_loop :
    ColMode → ℕ → Handled → List DispatcherMeters → List DispatcherMeters × (Handled × List Line)
unfolding read_dispatcher add_size
dispatchers_loop mode i tot [] = ([], (tot, []))
dispatchers_loop mode i tot (d ∷ ds) =
    let (h, d') = read_dispatcher mode d in
    let (ds', (tot', lines)) = dispatchers_loop mode (i + 1) (add_handled tot h) ds in
    (d' ∷ ds', (tot', handled_lines (dispatcher i) h ++ lines))

-- what a server reports: `ticks`, `metrics`, and so on
pub record Served : Type 0 where
  pub ticks : ℕ
  pub metrics : ℕ
  pub queued : ℕ
  pub stalls : ℕ
  pub dropped : ℕ
  pub requeue : ℕ
  pub failures : ℕ

-- `send_server_metrics`
abbrev pub send_server_metrics : About → Served → List Line
send_server_metrics about v =
    line about sent v.metrics
    ∷ line about queued v.queued
    ∷ line about stalls v.stalls
    ∷ line about dropped v.dropped
    ∷ line about requeue v.requeue
    ∷ line about wall_time v.ticks
    ∷ line about failures v.failures
    ∷ []

-- what the loop over the connections adds up; `failures` goes on from one server to the next
pub record Sums : Type 0 where
  pub ticks : ℕ
  pub metrics : ℕ
  pub failures : ℕ

-- The loop over the connections, from number `n` on.
unfoldable pub conns_loop :
    ColMode → List ℕ → ℕ → Sums → List ConnMeters → List ConnMeters × (Sums × List Line)
unfolding get_by server_get_failure add_size
conns_loop mode name n v [] = ([], (v, []))
conns_loop mode name n v (c ∷ cs) =
    let (nticks, ticks) = get_by mode c.ticks in
    let nfailures = server_get_failure c in
    let (nmetrics, metrics) = get_by mode c.metrics in
    let (cs', (v', lines)) =
      conns_loop mode name (n + 1)
        (record {
          ticks = add_size v.ticks nticks;
          metrics = add_size v.metrics nmetrics;
          failures = add_size v.failures nfailures;
        })
        cs in
    (
      record c { ticks = ticks; metrics = metrics } ∷ cs',
      (
        v',
        line (connection name n) sent nmetrics
            ∷ line (connection name n) wall_time nticks
            ∷ line (connection name n) failures nfailures
            ∷ lines,
      ),
    )

-- A round of the loop over the servers: what the server reports, with the failures so far.
unfoldable pub read_server : ColMode → ℕ → ServerMeters → ServerMeters × (Served × List Line)
unfolding conns_loop get_by dest_name
read_server mode failed s =
    let name = dest_name s in
    let (st, stalls_) = get_by mode s.stalls in
    let (dr, dropped_) = get_by mode s.dropped in
    let (rq, requeue_) = get_by mode s.requeue in
    let (conns, (v, lines)) =
      conns_loop mode name 0 (record { ticks = 0; metrics = 0; failures = failed }) s.conns in
    let served : Served = record {
      ticks = v.ticks;
      metrics = v.metrics;
      queued = s.queue_len;
      stalls = st;
      dropped = dr;
      requeue = rq;
      failures = v.failures;
    } in
    (
      record s { conns = conns; stalls = stalls_; dropped = dropped_; requeue = requeue_ },
      (served, lines ++ send_server_metrics (destination name) served),
    )

-- the sums over the servers; `requeue` has none
abbrev pub add_served : Served → Served → Served
add_served tot v = record tot {
  ticks = add_size tot.ticks v.ticks;
  metrics = add_size tot.metrics v.metrics;
  queued = add_size tot.queued v.queued;
  stalls = add_size tot.stalls v.stalls;
  dropped = add_size tot.dropped v.dropped;
  failures = add_size tot.failures v.failures;
}

-- The loop over the servers.
unfoldable pub servers_loop :
    ColMode → ℕ → Served → List ServerMeters → List ServerMeters × (Served × List Line)
unfolding read_server add_size
servers_loop mode failed tot [] = ([], (tot, []))
servers_loop mode failed tot (s ∷ ss) =
    let (s', (v, lines)) = read_server mode failed s in
    let (ss', (tot', rest)) = servers_loop mode v.failures (add_served tot v) ss in
    (s' ∷ ss', (tot', lines ++ rest))

-- what is read of the submission server: its first connection, and no `requeue`
unfoldable pub read_submission :
    ColMode → ConnMeters → ServerMeters → ConnMeters × (ServerMeters × Served)
unfolding get_by server_get_failure
read_submission mode c s =
    let (ti, ticks) = get_by mode c.ticks in
    let (me, metrics) = get_by mode c.metrics in
    let (st, stalls_) = get_by mode s.stalls in
    let (dr, dropped_) = get_by mode s.dropped in
    (
      record c { ticks = ticks; metrics = metrics },
      (
        record s { stalls = stalls_; dropped = dropped_ },
        record {
          ticks = ti;
          metrics = me;
          queued = s.queue_len;
          stalls = st;
          dropped = dr;
          requeue = 0;
          failures = server_get_failure c;
        },
      ),
    )

abbrev pub no_served : Served
no_served = record {
  ticks = 0;
  metrics = 0;
  queued = 0;
  stalls = 0;
  dropped = 0;
  requeue = 0;
  failures = 0;
}

-- the sums of the aggregators' counters, and their number
pub record AggregatorMeters : Type 0 where
  pub number : ℕ
  pub received : Meter
  pub sent : Meter
  pub dropped : Meter

-- What the collector reads; `inner` is the first connection of the submission server.
pub record Meters : Type 0 where
  pub dispatchers : List DispatcherMeters
  pub inner : ConnMeters
  pub submission : ServerMeters
  pub servers : List ServerMeters
  pub accepted : ℕ
  pub closed : ℕ
  pub aggregates : AggregatorMeters

unfoldable pub read_aggregators : ColMode → AggregatorMeters → AggregatorMeters × List Line
unfolding get_by
read_aggregators mode a =
    let (re, received) = get_by mode a.received in
    let (se, sent_) = get_by mode a.sent in
    let (dr, dropped_) = get_by mode a.dropped in
    (
      if ltb 0 a.number
          then record a { received = received; sent = sent_; dropped = dropped_ }
          else a,
      if ltb 0 a.number
          then line aggregators metrics_received re
            ∷ line aggregators sent se
            ∷ line aggregators dropped dr
            ∷ []
          else [],
    )

abbrev pub total_lines : Served → ℕ → ℕ → List Line
total_lines tot accepted closed =
    line all_servers sent tot.metrics
    ∷ line all_servers queued tot.queued
    ∷ line all_servers stalls tot.stalls
    ∷ line all_servers dropped tot.dropped
    ∷ line all_servers wall_time tot.ticks
    ∷ line all_servers failures tot.failures
    ∷ line all_servers connections accepted
    ∷ line all_servers disconnects closed
    ∷ []

-- A cycle: what is left of the counters, and the lines.
unfoldable pub cycle : ColMode → Meters → Meters × List Line
unfolding dispatchers_loop read_submission servers_loop read_aggregators
cycle mode m =
    let (ds, (handled, dispatcher_lines)) = dispatchers_loop mode 0 no_handled m.dispatchers in
    let (inner, (sub', v)) = read_submission mode m.inner m.submission in
    let (ss, (tot, server_lines)) = servers_loop mode v.failures no_served m.servers in
    let (ag, aggregator_lines) = read_aggregators mode m.aggregates in
    (
      record m {
        dispatchers = ds;
        inner = inner;
        submission = sub';
        servers = ss;
        aggregates = ag;
      },
      dispatcher_lines
          ++ (handled_lines all_dispatchers handled
              ++ (send_server_metrics (submission m.submission.ip) v
                  ++ (server_lines ++ (total_lines tot m.accepted m.closed ++ aggregator_lines)))),
    )
