-- ===== src/Collector/Served.antt =====
-- The sums over the servers.
use carbon_c_relay.Prelude.{
  ℕ, ◌+◌, ◌%◌, ◌^◌, ◌<◌, ◌≡◌, refl, sym, ◌∙◌, ap, Bool, true, false, List, [], ◌∷◌, ◌==◌, arith,
}
use carbon_c_relay.Collector.{
  ColMode, get_by, ConnMeters, server_get_failure, ServerMeters, add_size, dest_name, destination,
  connection, Count, metrics_received, metrics_blackholed, metrics_discarded, wall_time, sleep_time,
  sent, queued, stalls, dropped, requeue, failures, connections, disconnects,
}
use carbon_c_relay.Collector.Cycle.{
  Served, send_server_metrics, Sums, conns_loop, read_server, add_served, servers_loop, total_lines,
  line,
}
use carbon_c_relay.Collector.Sums.{
  Level, a_destination, a_connection, over_servers, level_code, sum_of, sum_of-append, sum_of-skip,
  regroup_size, twice_size,
}

-- what the line of a count says of a server, or of all
abbrev pub served_value : Count → Served → ℕ
served_value wall_time v = v.ticks
served_value sent v = v.metrics
served_value queued v = v.queued
served_value stalls v = v.stalls
served_value dropped v = v.dropped
served_value failures v = v.failures
served_value _ v = 0

-- the counts that all servers are summed by
abbrev pub is_summed : Count → Bool
is_summed wall_time = true
is_summed sent = true
is_summed queued = true
is_summed stalls = true
is_summed dropped = true
is_summed failures = true
is_summed _ = false

served_value-add :
    (c : Count) (t v : Served)
    → served_value c (add_served t v) ≡ add_size (served_value c t) (served_value c v)
unfolding add_size
served_value-add metrics_received t v = refl
served_value-add metrics_blackholed t v = refl
served_value-add metrics_discarded t v = refl
served_value-add wall_time t v = refl
served_value-add sleep_time t v = refl
served_value-add sent t v = refl
served_value-add queued t v = refl
served_value-add stalls t v = refl
served_value-add dropped t v = refl
served_value-add requeue t v = refl
served_value-add failures t v = refl
served_value-add connections t v = refl
served_value-add disconnects t v = refl

send_server_metrics-sum :
    (c : Count) (name : List ℕ) (v : Served)
    → is_summed c ≡ true
    → sum_of a_destination c (send_server_metrics (destination name) v) ≡ served_value c v % 2 ^ 64
send_server_metrics-sum metrics_received name v e = refl
send_server_metrics-sum metrics_blackholed name v e = refl
send_server_metrics-sum metrics_discarded name v e = refl
send_server_metrics-sum wall_time name v e = omega arith
send_server_metrics-sum sleep_time name v e = refl
send_server_metrics-sum sent name v e = omega arith
send_server_metrics-sum queued name v e = omega arith
send_server_metrics-sum stalls name v e = omega arith
send_server_metrics-sum dropped name v e = omega arith
send_server_metrics-sum requeue name v e = absurd cc
send_server_metrics-sum failures name v e = omega arith
send_server_metrics-sum connections name v e = refl
send_server_metrics-sum disconnects name v e = refl

pub total_lines-sum :
    (c : Count) (v : Served) (accepted closed : ℕ)
    → is_summed c ≡ true
    → sum_of over_servers c (total_lines v accepted closed) ≡ served_value c v % 2 ^ 64
total_lines-sum metrics_received v accepted closed e = refl
total_lines-sum metrics_blackholed v accepted closed e = refl
total_lines-sum metrics_discarded v accepted closed e = refl
total_lines-sum wall_time v accepted closed e = omega arith
total_lines-sum sleep_time v accepted closed e = refl
total_lines-sum sent v accepted closed e = omega arith
total_lines-sum queued v accepted closed e = omega arith
total_lines-sum stalls v accepted closed e = omega arith
total_lines-sum dropped v accepted closed e = omega arith
total_lines-sum requeue v accepted closed e = refl
total_lines-sum failures v accepted closed e = omega arith
total_lines-sum connections v accepted closed e = absurd cc
total_lines-sum disconnects v accepted closed e = absurd cc

-- The lines about connections are of no other kind.
pub conns_loop-other :
    (w : Level) (c : Count) (mode : ColMode) (name : List ℕ) (n : ℕ) (v : Sums)
    (cs : List ConnMeters)
    → (level_code a_connection == level_code w) ≡ false
    → sum_of w c (conns_loop mode name n v cs).1.1 ≡ 0
unfolding conns_loop
conns_loop-other w c mode name n v [] e = refl
conns_loop-other w c mode name n v (m ∷ ms) e =
    let ti = (get_by mode m.ticks).0 in
    let me = (get_by mode m.metrics).0 in
    let fa = server_get_failure m in
    let v' : Sums = record {
      ticks = add_size v.ticks ti;
      metrics = add_size v.metrics me;
      failures = add_size v.failures fa;
    } in
    let ls = (conns_loop mode name (n + 1) v' ms).1.1 in
    let l3 = line (connection name n) failures fa in
    let l2 = line (connection name n) wall_time ti in
    sum_of-skip w c (line (connection name n) sent me) (l2 ∷ l3 ∷ ls) e
    ∙ sum_of-skip w c l2 (l3 ∷ ls) e
    ∙ sum_of-skip w c l3 ls e
    ∙ conns_loop-other w c mode name (n + 1) v' ms e

pub read_server-sum :
    (c : Count) (mode : ColMode) (failed : ℕ) (s : ServerMeters)
    → is_summed c ≡ true
    → sum_of a_destination c (read_server mode failed s).1.1
      ≡ served_value c (read_server mode failed s).1.0 % 2 ^ 64
unfolding read_server add_size
read_server-sum c mode failed s e =
    let v0 : Sums = record { ticks = 0; metrics = 0; failures = failed } in
    let lines = (conns_loop mode (dest_name s) 0 v0 s.conns).1.1 in
    let v = (read_server mode failed s).1.0 in
    sum_of-append a_destination c lines (send_server_metrics (destination (dest_name s)) v)
    ∙ ap
        (λ n.
          (n + sum_of a_destination c (send_server_metrics (destination (dest_name s)) v)) % 2 ^ 64)
        (conns_loop-other a_destination c mode (dest_name s) 0 v0 s.conns refl)
    ∙ ap (λ n. (0 + n) % 2 ^ 64) (send_server_metrics-sum c (dest_name s) v e)
    ∙ twice_size (served_value c v)

pub servers_loop-sum :
    (c : Count) (mode : ColMode) (failed : ℕ) (tot : Served) (ss : List ServerMeters)
    → is_summed c ≡ true
    → served_value c tot < 2 ^ 64
    → served_value c (servers_loop mode failed tot ss).1.0
      ≡ add_size (served_value c tot) (sum_of a_destination c (servers_loop mode failed tot ss).1.1)
unfolding servers_loop add_size
servers_loop-sum c mode failed tot [] e b = omega (arith, b)
servers_loop-sum c mode failed tot (s ∷ ss) e b =
    let v = (read_server mode failed s).1.0 in
    let lines = (read_server mode failed s).1.1 in
    let rest = servers_loop mode v.failures (add_served tot v) ss in
    let add : served_value c (add_served tot v) ≡ add_size (served_value c tot) (served_value c v) =
      served_value-add c tot v in
    servers_loop-sum c mode v.failures (add_served tot v) ss e (rw (add) (omega arith))
    ∙ ap (λ n. (n + sum_of a_destination c rest.1.1) % 2 ^ 64) add
    ∙ sym (
        ap (λ n. (served_value c tot + n) % 2 ^ 64)
          (sum_of-append a_destination c lines rest.1.1
            ∙ ap (λ n. (n + sum_of a_destination c rest.1.1) % 2 ^ 64)
                (read_server-sum c mode failed s e))
        ∙ regroup_size (served_value c tot) (served_value c v) (sum_of a_destination c rest.1.1))
