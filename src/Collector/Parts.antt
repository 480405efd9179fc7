-- ===== src/Collector/Parts.antt =====
-- The parts of a cycle, and the kinds of lines each has.
use carbon_c_relay.Prelude.{
  ℕ, ◌+◌, ◌%◌, ◌^◌, ◌≡◌, refl, ◌∙◌, ap, Bool, true, false, List, [], ◌∷◌, ◌++◌, if◌then◌else◌, ◌==◌,
  ltb,
}
use carbon_c_relay.Collector.{
  ColMode, get_by, ServerMeters, DispatcherMeters, add_size, dest_name, dispatcher, all_dispatchers,
  submission, destination, aggregators, Count, metrics_received, sent, dropped, Line,
}
use carbon_c_relay.Collector.Cycle.{
  Handled, no_handled, read_dispatcher, add_handled, handled_lines, dispatchers_loop, Served,
  send_server_metrics, Sums, conns_loop, read_server, add_served, servers_loop, read_submission,
  no_served, Meters, read_aggregators, total_lines, cycle, AggregatorMeters, line,
}
use carbon_c_relay.Collector.Sums.{
  Level, a_dispatcher, a_destination, a_connection, of_aggregators, level_code, sum_of,
  sum_of-append, sum_of-Without,
}
use carbon_c_relay.Collector.Served.{conns_loop-other}

pub dispatchers_loop-other :
    (w : Level) (c : Count) (mode : ColMode) (i : ℕ) (tot : Handled) (ds : List DispatcherMeters)
    → (level_code a_dispatcher == level_code w) ≡ false
    → sum_of w c (dispatchers_loop mode i tot ds).1.1 ≡ 0
unfolding dispatchers_loop add_size
dispatchers_loop-other w c mode i tot [] e = refl
dispatchers_loop-other w c mode i tot (d ∷ ds) e =
    let h = (read_dispatcher mode d).0 in
    let rest = (dispatchers_loop mode (i + 1) (add_handled tot h) ds).1.1 in
    sum_of-append w c (handled_lines (dispatcher i) h) rest
    ∙ ap (λ n. (n + sum_of w c rest) % 2 ^ 64)
        (sum_of-Without w c (handled_lines (dispatcher i) h) (e, (e, (e, (e, (e, tt))))))
    ∙ ap (λ n. (0 + n) % 2 ^ 64) (dispatchers_loop-other w c mode (i + 1) (add_handled tot h) ds e)

pub read_aggregators-other :
    (w : Level) (c : Count) (mode : ColMode) (a : AggregatorMeters)
    → (level_code of_aggregators == level_code w) ≡ false
    → sum_of w c (read_aggregators mode a).1 ≡ 0
unfolding read_aggregators
read_aggregators-other w c mode a e = by_number (ltb 0 a.number)
  where
    lines : List Line
    lines =
        line aggregators metrics_received (get_by mode a.received).0
        ∷ line aggregators sent (get_by mode a.sent).0
        ∷ line aggregators dropped (get_by mode a.dropped).0
        ∷ []

    by_number : (t : Bool) → sum_of w c (if t then lines else []) ≡ 0
    by_number true = sum_of-Without w c lines (e, (e, (e, tt)))
    by_number false = refl

read_server-other :
    (w : Level) (c : Count) (mode : ColMode) (failed : ℕ) (s : ServerMeters)
    → (level_code a_connection == level_code w) ≡ false
    → (level_code a_destination == level_code w) ≡ false
    → sum_of w c (read_server mode failed s).1.1 ≡ 0
unfolding read_server add_size
read_server-other w c mode failed s d e =
    let v0 : Sums = record { ticks = 0; metrics = 0; failures = failed } in
    let own = send_server_metrics (destination (dest_name s)) (read_server mode failed s).1.0 in
    sum_of-append w c (conns_loop mode (dest_name s) 0 v0 s.conns).1.1 own
    ∙ ap (λ n. (n + sum_of w c own) % 2 ^ 64)
        (conns_loop-other w c mode (dest_name s) 0 v0 s.conns d)
    ∙ ap (λ n. (0 + n) % 2 ^ 64) (sum_of-Without w c own (e, (e, (e, (e, (e, (e, (e, tt))))))))

pub servers_loop-other :
    (w : Level) (c : Count) (mode : ColMode) (failed : ℕ) (tot : Served) (ss : List ServerMeters)
    → (level_code a_connection == level_code w) ≡ false
    → (level_code a_destination == level_code w) ≡ false
    → sum_of w c (servers_loop mode failed tot ss).1.1 ≡ 0
unfolding servers_loop add_size
servers_loop-other w c mode failed tot [] d e = refl
servers_loop-other w c mode failed tot (s ∷ ss) d e =
    let v = (read_server mode failed s).1.0 in
    let rest = (servers_loop mode v.failures (add_served tot v) ss).1.1 in
    sum_of-append w c (read_server mode failed s).1.1 rest
    ∙ ap (λ n. (n + sum_of w c rest) % 2 ^ 64) (read_server-other w c mode failed s d e)
    ∙ ap (λ n. (0 + n) % 2 ^ 64) (servers_loop-other w c mode v.failures (add_served tot v) ss d e)

-- the parts of a cycle
abbrev pub dispatcher_part : ColMode → Meters → Handled × List Line
dispatcher_part mode m = (dispatchers_loop mode 0 no_handled m.dispatchers).1

abbrev pub submission_part : ColMode → Meters → Served
submission_part mode m = (read_submission mode m.inner m.submission).1.1

abbrev pub server_part : ColMode → Meters → Served × List Line
server_part mode m = (servers_loop mode (submission_part mode m).failures no_served m.servers).1

pub cycle-parts :
    (w : Level) (c : Count) (mode : ColMode) (m : Meters)
    → sum_of w c (cycle mode m).1
      ≡ add_size (sum_of w c (dispatcher_part mode m).1) (
          add_size (sum_of w c (handled_lines all_dispatchers (dispatcher_part mode m).0)) (
            add_size
              (sum_of w c
                (send_server_metrics (submission m.submission.ip) (submission_part mode m)))
              (add_size (sum_of w c (server_part mode m).1) (
                add_size
                  (sum_of w c (total_lines (server_part mode m).0 m.accepted m.closed))
                  (sum_of w c (read_aggregators mode m.aggregates).1)))))
unfolding cycle
cycle-parts w c mode m =
    let d = (dispatcher_part mode m).1 in
    let h = handled_lines all_dispatchers (dispatcher_part mode m).0 in
    let u = send_server_metrics (submission m.submission.ip) (submission_part mode m) in
    let v = (server_part mode m).1 in
    let t = total_lines (server_part mode m).0 m.accepted m.closed in
    let a = (read_aggregators mode m.aggregates).1 in
    sum_of-append w c d (h ++ (u ++ (v ++ (t ++ a))))
    ∙ ap (add_size (sum_of w c d)) (
        sum_of-append w c h (u ++ (v ++ (t ++ a)))
        ∙ ap (add_size (sum_of w c h)) (
            sum_of-append w c u (v ++ (t ++ a))
            ∙ ap (add_size (sum_of w c u)) (
                sum_of-append w c v (t ++ a)
                ∙ ap (add_size (sum_of w c v)) (sum_of-append w c t a))))
