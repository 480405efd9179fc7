-- ===== src/Collector/Handled.antt =====
-- The sums over the dispatchers.
use carbon_c_relay.Prelude.{ℕ, ◌+◌, ◌%◌, ◌^◌, ◌<◌, ◌≡◌, refl, sym, ◌∙◌, ap, List, [], ◌∷◌, arith}
use carbon_c_relay.Collector.{
  ColMode, DispatcherMeters, add_size, dispatcher, all_dispatchers, Count, metrics_received,
  metrics_blackholed, metrics_discarded, wall_time, sleep_time, sent, queued, stalls, dropped,
  requeue, failures, connections, disconnects,
}
use carbon_c_relay.Collector.Cycle.{
  Handled, read_dispatcher, add_handled, handled_lines, dispatchers_loop,
}
use carbon_c_relay.Collector.Sums.{
  a_dispatcher, over_dispatchers, sum_of, sum_of-append, regroup_size,
}

-- what the line of a count says of a dispatcher, or of all
abbrev pub handled_value : Count → Handled → ℕ
handled_value metrics_received h = h.metrics
handled_value metrics_blackholed h = h.blackholes
handled_value metrics_discarded h = h.discards
handled_value wall_time h = h.ticks
handled_value sleep_time h = h.sleeps
handled_value _ h = 0

handled_value-add :
    (c : Count) (t h : Handled)
    → handled_value c (add_handled t h) ≡ add_size (handled_value c t) (handled_value c h)
unfolding add_size
handled_value-add metrics_received t h = refl
handled_value-add metrics_blackholed t h = refl
handled_value-add metrics_discarded t h = refl
handled_value-add wall_time t h = refl
handled_value-add sleep_time t h = refl
handled_value-add sent t h = refl
handled_value-add queued t h = refl
handled_value-add stalls t h = refl
handled_value-add dropped t h = refl
handled_value-add requeue t h = refl
handled_value-add failures t h = refl
handled_value-add connections t h = refl
handled_value-add disconnects t h = refl

handled_lines-sum :
    (c : Count) (i : ℕ) (h : Handled)
    → sum_of a_dispatcher c (handled_lines (dispatcher i) h) ≡ handled_value c h % 2 ^ 64
handled_lines-sum metrics_received i h = omega arith
handled_lines-sum metrics_blackholed i h = omega arith
handled_lines-sum metrics_discarded i h = omega arith
handled_lines-sum wall_time i h = omega arith
handled_lines-sum sleep_time i h = omega arith
handled_lines-sum sent i h = refl
handled_lines-sum queued i h = refl
handled_lines-sum stalls i h = refl
handled_lines-sum dropped i h = refl
handled_lines-sum requeue i h = refl
handled_lines-sum failures i h = refl
handled_lines-sum connections i h = refl
handled_lines-sum disconnects i h = refl

pub handled_total-sum :
    (c : Count) (h : Handled)
    → sum_of over_dispatchers c (handled_lines all_dispatchers h) ≡ handled_value c h % 2 ^ 64
handled_total-sum metrics_received h = omega arith
handled_total-sum metrics_blackholed h = omega arith
handled_total-sum metrics_discarded h = omega arith
handled_total-sum wall_time h = omega arith
handled_total-sum sleep_time h = omega arith
handled_total-sum sent h = refl
handled_total-sum queued h = refl
handled_total-sum stalls h = refl
handled_total-sum dropped h = refl
handled_total-sum requeue h = refl
handled_total-sum failures h = refl
handled_total-sum connections h = refl
handled_total-sum disconnects h = refl

pub dispatchers_loop-sum :
    (c : Count) (mode : ColMode) (i : ℕ) (tot : Handled) (ds : List DispatcherMeters)
    → handled_value c tot < 2 ^ 64
    → handled_value c (dispatchers_loop mode i tot ds).1.0
      ≡ add_size (handled_value c tot) (sum_of a_dispatcher c (dispatchers_loop mode i tot ds).1.1)
unfolding dispatchers_loop add_size
dispatchers_loop-sum c mode i tot [] b = omega (arith, b)
dispatchers_loop-sum c mode i tot (d ∷ ds) b =
    let h = (read_dispatcher mode d).0 in
    let rest = dispatchers_loop mode (i + 1) (add_handled tot h) ds in
    let add : handled_value c (add_handled tot h)
        ≡ add_size (handled_value c tot) (handled_value c h) =
      handled_value-add c tot h in
    dispatchers_loop-sum c mode (i + 1) (add_handled tot h) ds (rw (add) (omega arith))
    ∙ ap (λ n. (n + sum_of a_dispatcher c rest.1.1) % 2 ^ 64) add
    ∙ sym (
        ap (λ n. (handled_value c tot + n) % 2 ^ 64)
          (sum_of-append a_dispatcher c (handled_lines (dispatcher i) h) rest.1.1
            ∙ ap (λ n. (n + sum_of a_dispatcher c rest.1.1) % 2 ^ 64) (handled_lines-sum c i h))
        ∙ regroup_size (handled_value c tot) (handled_value c h) (sum_of a_dispatcher c rest.1.1))
