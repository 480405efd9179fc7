-- ===== src/Collector/Conns.antt =====
-- The lines about connections, and those of other kinds.
use carbon_c_relay.Prelude.{
  ℕ, ◌+◌, ◌%◌, ◌^◌, ◌<◌, ◌≡◌, refl, sym, ◌∙◌, ap, Bool, true, false, List, [], ◌∷◌, arith,
}
use carbon_c_relay.Collector.{
  ColMode, get_by, ConnMeters, server_get_failure, ServerMeters, add_size, dest_name, destination,
  connection, Count, metrics_received, metrics_blackholed, metrics_discarded, wall_time, sleep_time,
  sent, queued, stalls, dropped, requeue, failures, connections, disconnects, Line,
}
use carbon_c_relay.Collector.Cycle.{
  Served, send_server_metrics, Sums, conns_loop, read_server, add_served, servers_loop, line,
}
use carbon_c_relay.Collector.Sums.{a_destination, a_connection, sum_of, sum_of-bound, sum_of-append}
use carbon_c_relay.Collector.Served.{served_value, is_summed, read_server-sum}

-- what a loop over connections adds up for a count
abbrev pub conn_value : Count → Sums → ℕ
conn_value sent v = v.metrics
conn_value wall_time v = v.ticks
conn_value failures v = v.failures
conn_value _ v = 0

-- the counts of a connection
abbrev pub of_conn : Count → Bool
of_conn sent = true
of_conn wall_time = true
of_conn failures = true
of_conn _ = false

conn_round :
    (c : Count) (mode : ColMode) (name : List ℕ) (n : ℕ) (m : ConnMeters) (v : Sums)
    (ls : List Line) (x : ℕ)
    → of_conn c ≡ true
    → x
      ≡ (conn_value c (record {
        ticks = (v.ticks + (get_by mode m.ticks).0) % 2 ^ 64;
        metrics = (v.metrics + (get_by mode m.metrics).0) % 2 ^ 64;
        failures = (v.failures + server_get_failure m) % 2 ^ 64;
      })
          + sum_of a_connection c ls)
        % 2 ^ 64
    → x
      ≡ (conn_value c v
          + sum_of a_connection c (
              line (connection name n) sent (get_by mode m.metrics).0
              ∷ line (connection name n) wall_time (get_by mode m.ticks).0
              ∷ line (connection name n) failures (server_get_failure m)
              ∷ ls))
        % 2 ^ 64
conn_round metrics_received mode name n m v ls x e h = absurd cc
conn_round metrics_blackholed mode name n m v ls x e h = absurd cc
conn_round metrics_discarded mode name n m v ls x e h = absurd cc
conn_round wall_time mode name n m v ls x e h = omega (arith, h)
conn_round sleep_time mode name n m v ls x e h = absurd cc
conn_round sent mode name n m v ls x e h = omega (arith, h)
conn_round queued mode name n m v ls x e h = absurd cc
conn_round stalls mode name n m v ls x e h = absurd cc
conn_round dropped mode name n m v ls x e h = absurd cc
conn_round requeue mode name n m v ls x e h = absurd cc
conn_round failures mode name n m v ls x e h = omega (arith, h)
conn_round connections mode name n m v ls x e h = absurd cc
conn_round disconnects mode name n m v ls x e h = absurd cc

-- A loop over connections adds up the values of its lines.
pub conns_loop-sum :
    (c : Count) (mode : ColMode) (name : List ℕ) (n : ℕ) (v : Sums) (cs : List ConnMeters)
    → of_conn c ≡ true
    → conn_value c v < 2 ^ 64
    → conn_value c (conns_loop mode name n v cs).1.0
      ≡ (conn_value c v + sum_of a_connection c (conns_loop mode name n v cs).1.1) % 2 ^ 64
unfolding conns_loop add_size
conns_loop-sum c mode name n v [] e b = omega (arith, b)
conns_loop-sum c mode name n v (m ∷ ms) e b =
    let v' : Sums = record {
      ticks = (v.ticks + (get_by mode m.ticks).0) % 2 ^ 64;
      metrics = (v.metrics + (get_by mode m.metrics).0) % 2 ^ 64;
      failures = (v.failures + server_get_failure m) % 2 ^ 64;
    } in
    let rest = conns_loop mode name (n + 1) v' ms in
    conn_round c mode name n m v rest.1.1 (conn_value c rest.1.0) e
      (conns_loop-sum c mode name (n + 1) v' ms e (small c))
  where
    small :
        (k : Count)
        → conn_value k (record {
          ticks = (v.ticks + (get_by mode m.ticks).0) % 2 ^ 64;
          metrics = (v.metrics + (get_by mode m.metrics).0) % 2 ^ 64;
          failures = (v.failures + server_get_failure m) % 2 ^ 64;
        })
          < 2 ^ 64
    small metrics_received = omega arith
    small metrics_blackholed = omega arith
    small metrics_discarded = omega arith
    small wall_time = omega arith
    small sleep_time = omega arith
    small sent = omega arith
    small queued = omega arith
    small stalls = omega arith
    small dropped = omega arith
    small requeue = omega arith
    small failures = omega arith
    small connections = omega arith
    small disconnects = omega arith

-- The lines of a server about its connections are those of the loop over them.
pub read_server-connections :
    (c : Count) (mode : ColMode) (failed : ℕ) (s : ServerMeters)
    → sum_of a_connection c (read_server mode failed s).1.1
      ≡ sum_of a_connection c
          (conns_loop mode
            (dest_name s)
            0
            (record { ticks = 0; metrics = 0; failures = failed })
            s.conns).1.1
unfolding read_server add_size
read_server-connections c mode failed s =
    let v0 : Sums = record { ticks = 0; metrics = 0; failures = failed } in
    let lines = (conns_loop mode (dest_name s) 0 v0 s.conns).1.1 in
    sum_of-append a_connection c lines
      (send_server_metrics (destination (dest_name s)) (read_server mode failed s).1.0)
    ∙ right_zero (sum_of a_connection c lines) (sum_of-bound a_connection c lines)
  where
    right_zero : (n : ℕ) → n < 2 ^ 64 → (n + 0) % 2 ^ 64 ≡ n
    right_zero n b = omega arith

module _ (c : Count) (summed : is_summed c ≡ true) (counted : of_conn c ≡ true)
    (same : (mode : ColMode) (failed : ℕ) (s : ServerMeters)
      → served_value c (read_server mode failed s).1.0
        ≡ conn_value c
            (conns_loop mode
              (dest_name s)
              0
              (record { ticks = 0; metrics = 0; failures = failed })
              s.conns).1.0)
    (from_zero : (failed : ℕ)
      → conn_value c (record { ticks = 0; metrics = 0; failures = failed }) ≡ 0) where
  read_server-agrees :
      (mode : ColMode) (failed : ℕ) (s : ServerMeters)
      → sum_of a_connection c (read_server mode failed s).1.1
        ≡ sum_of a_destination c (read_server mode failed s).1.1
  read_server-agrees mode failed s =
      let v0 : Sums = record { ticks = 0; metrics = 0; failures = failed } in
      let lines = (conns_loop mode (dest_name s) 0 v0 s.conns).1.1 in
      let total : conn_value c (conns_loop mode (dest_name s) 0 v0 s.conns).1.0
          ≡ (conn_value c v0 + sum_of a_connection c lines) % 2 ^ 64 =
        conns_loop-sum c mode (dest_name s) 0 v0 s.conns counted
          (omega (arith, from_zero failed)) in
      read_server-connections c mode failed s
      ∙ omega
          (arith, total, from_zero failed, same mode failed s, sum_of-bound a_connection c lines)
      ∙ sym (read_server-sum c mode failed s summed)

  servers_loop-agrees :
      (mode : ColMode) (failed : ℕ) (tot : Served) (ss : List ServerMeters)
      → sum_of a_connection c (servers_loop mode failed tot ss).1.1
        ≡ sum_of a_destination c (servers_loop mode failed tot ss).1.1
  unfolding servers_loop
  servers_loop-agrees mode failed tot [] = refl
  servers_loop-agrees mode failed tot (s ∷ ss) =
      let v = (read_server mode failed s).1.0 in
      let lines = (read_server mode failed s).1.1 in
      let rest = (servers_loop mode v.failures (add_served tot v) ss).1.1 in
      sum_of-append a_connection c lines rest
      ∙ ap (λ n. add_size n (sum_of a_connection c rest)) (read_server-agrees mode failed s)
      ∙ ap (λ n. add_size (sum_of a_destination c lines) n)
          (servers_loop-agrees mode v.failures (add_served tot v) ss)
      ∙ sym (sum_of-append a_destination c lines rest)

-- For every count of these two, the lines about connections have the sum of those about servers.
pub servers_loop-connections :
    (mode : ColMode) (failed : ℕ) (tot : Served) (ss : List ServerMeters)
    → (sum_of a_connection sent (servers_loop mode failed tot ss).1.1
        ≡ sum_of a_destination sent (servers_loop mode failed tot ss).1.1)
      × (sum_of a_connection wall_time (servers_loop mode failed tot ss).1.1
          ≡ sum_of a_destination wall_time (servers_loop mode failed tot ss).1.1)
unfolding read_server
servers_loop-connections mode failed tot ss = (
  servers_loop-agrees sent refl refl (λ m f s. refl) (λ f. refl) mode failed tot ss,
  servers_loop-agrees wall_time refl refl (λ m f s. refl) (λ f. refl) mode failed tot ss,
)
