-- ===== src/Collector/Tests.antt =====
-- Runs of the collector, and the theorems at concrete counters.
use carbon_c_relay.Prelude.Bytes.{codes}
use carbon_c_relay.Prelude.Int.{pos, negsuc}
use carbon_c_relay.Prelude.{ℕ, ◌+◌, ◌%◌, ◌^◌, ◌≡◌, refl, ltb, none, [], ◌∷◌, arith}
use carbon_c_relay.Aggregator.Counters.{since}
use carbon_c_relay.Collector.{
  cum, sub, Meter, get, get_sub, get_by, ConnMeters, con_tcp, con_file, ServerMeters,
  DispatcherMeters, line_text, line_name, server_get_failure, add_size, sent, failures, wall_time,
  destination, dest_name, underscores,
}
use carbon_c_relay.Collector.Cycle.{
  Meters, cycle, line, servers_loop, read_server, conns_loop, no_served,
}
use carbon_c_relay.Collector.Sums.{
  a_dispatcher, over_dispatchers, a_connection, a_destination, over_servers, sum_of,
}
use carbon_c_relay.Collector.Totals.{cycle-dispatchers, cycle-servers, cycle-connections}
use carbon_c_relay.Collector.Since.{readings, readings-sub, sum_all}
use carbon_c_relay.Collector.Writer.{
  Usage, Writer, Seen, writer_rounds, writer_round, queues_loop, warned, last_total,
  writer_rounds-Tells, dropped_metrics, queuing_up,
}
use carbon_c_relay.Collector.Failures.{values_of, running, servers_loop-failures}

abbrev meter : ℕ → ℕ → Meter
meter value prev = record { value = value; prev = prev }

abbrev conn : ℕ → ConnMeters
conn n = record { ticks = meter 20 5; metrics = meter n 0; failure = pos 2 }

abbrev local_server : ServerMeters
local_server = record {
  ctype = con_tcp;
  ip = codes "10.0.0.1";
  port = 2003;
  queue_len = 90;
  queue_size = 100;
  conns = conn 7 ∷ conn 8 ∷ [];
  stalls = meter 1 0;
  dropped = meter 3 1;
  requeue = meter 0 0;
}

abbrev log_file : ServerMeters
log_file = record local_server {
  ctype = con_file;
  ip = codes "a.log";
  queue_len = 0;
  conns = conn 5 ∷ [];
}

abbrev worker : DispatcherMeters
worker = record {
  sleeps = meter 4 0;
  ticks = meter 9 1;
  metrics = meter 30 10;
  blackholes = meter 2 0;
  discards = meter 1 0;
}

abbrev meters : Meters
meters = record {
  dispatchers = worker ∷ worker ∷ [];
  inner = record { ticks = meter 0 0; metrics = meter 6 0; failure = negsuc 0 };
  submission = record log_file { ip = codes "internal"; conns = [] };
  servers = local_server ∷ log_file ∷ [];
  accepted = 4;
  closed = 2;
  aggregates = record { number = 0; received = meter 0 0; sent = meter 0 0; dropped = meter 0 0 };
}

text_of_line :
    line_text (codes "carbon") 99 (line (destination (dest_name local_server)) sent 15)
    ≡ codes "carbon.destinations.10_0_0_1:2003.sent 15 99\n"
unfolding line_text line_name dest_name underscores
text_of_line = refl

-- The file has one connection with two failures, and is said to have six.
failures_go_on :
    values_of a_destination failures
      (servers_loop sub 0 no_served (local_server ∷ log_file ∷ [])).1.1
    ≡ 4 ∷ 6 ∷ []
unfolding servers_loop read_server conns_loop get_by get_sub get since server_get_failure add_size
failures_go_on = refl

servers_loop-failures_example :
    values_of a_destination failures
      (servers_loop sub 0 no_served (local_server ∷ log_file ∷ [])).1.1
    ≡ running 0 (local_server ∷ log_file ∷ [])
servers_loop-failures_example = servers_loop-failures sub 0 no_served (local_server ∷ log_file ∷ [])

cycle-dispatchers_example :
    sum_of a_dispatcher wall_time (cycle sub meters).1
    ≡ sum_of over_dispatchers wall_time (cycle sub meters).1
cycle-dispatchers_example = cycle-dispatchers wall_time sub meters

cycle-servers_example :
    sum_of a_destination sent (cycle cum meters).1 ≡ sum_of over_servers sent (cycle cum meters).1
cycle-servers_example = cycle-servers sent cum meters refl

cycle-connections_example :
    (sum_of a_connection sent (cycle cum meters).1 ≡ sum_of a_destination sent (cycle cum meters).1)
    × (sum_of a_connection wall_time (cycle cum meters).1
        ≡ sum_of a_destination wall_time (cycle cum meters).1)
cycle-connections_example = cycle-connections cum meters

readings-sub_example :
    ((2 + sum_all (readings sub (meter 2 2) (5 ∷ 9 ∷ 1 ∷ [])).0) % 2 ^ 64 ≡ 1)
    × ((readings sub (meter 2 2) (5 ∷ 9 ∷ 1 ∷ [])).1.prev ≡ 1)
readings-sub_example =
    readings-sub (meter 2 2) (5 ∷ 9 ∷ 1 ∷ []) (omega arith)
      (omega arith, (omega arith, (omega arith, tt)))

abbrev usage : Usage
usage = record { is_high = λ n m. ltb 74 n; percent = λ n m. n }

abbrev writer : Writer
writer = record { i = 0; lastdropped = 1; lastaggrdropped = 0 }

abbrev seen : Seen
seen = record { servers = local_server ∷ log_file ∷ []; aggregated = none }

writer_warns : writer_rounds usage 2 writer (seen ∷ seen ∷ seen ∷ []) ≡ (
  record { i = 1; lastdropped = 6; lastaggrdropped = 0 },
  queuing_up (codes "10.0.0.1") 2003 90 90 ∷ dropped_metrics 5 ∷ [],
)
unfolding writer_rounds writer_round queues_loop get add_size
writer_warns = refl

writer_rounds-Tells_example :
    ((1 + warned (writer_rounds usage 2 writer (seen ∷ seen ∷ seen ∷ [])).1) % 2 ^ 64
      ≡ last_total 2 0 1 (seen ∷ seen ∷ seen ∷ []))
    × ((writer_rounds usage 2 writer (seen ∷ seen ∷ seen ∷ [])).0.lastdropped
        ≡ last_total 2 0 1 (seen ∷ seen ∷ seen ∷ []))
writer_rounds-Tells_example =
    writer_rounds-Tells usage 2 writer (seen ∷ seen ∷ seen ∷ []) (omega arith)
