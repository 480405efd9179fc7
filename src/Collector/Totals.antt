-- ===== src/Collector/Totals.antt =====
-- The sums that a cycle reports are those of the lines that it sends.
use carbon_c_relay.Prelude.{ℕ, ◌%◌, ◌^◌, ◌<◌, ◌≡◌, refl, sym, ◌∙◌, true, false, ◌==◌, arith}
use carbon_c_relay.Collector.{
  ColMode, add_size, all_dispatchers, submission, Count, metrics_received, metrics_blackholed,
  metrics_discarded, wall_time, sleep_time, sent, queued, stalls, dropped, requeue, failures,
  connections, disconnects,
}
use carbon_c_relay.Collector.Cycle.{
  no_handled, handled_lines, send_server_metrics, no_served, Meters, total_lines, cycle,
}
use carbon_c_relay.Collector.Sums.{
  Level, a_dispatcher, over_dispatchers, of_submission, a_destination, a_connection, over_servers,
  of_aggregators, level_code, sum_of, sum_of-bound, sum_of-Without,
}
use carbon_c_relay.Collector.Handled.{handled_value, handled_total-sum, dispatchers_loop-sum}
use carbon_c_relay.Collector.Served.{served_value, is_summed, total_lines-sum, servers_loop-sum}
use carbon_c_relay.Collector.Conns.{servers_loop-connections}
use carbon_c_relay.Collector.Parts.{
  dispatchers_loop-other, read_aggregators-other, servers_loop-other, cycle-parts, dispatcher_part,
  submission_part, server_part,
}

-- where the lines of one part only count
first_only :
    {a b c d e f : ℕ}
    → a < 2 ^ 64
    → b ≡ 0
    → c ≡ 0
    → d ≡ 0
    → e ≡ 0
    → f ≡ 0
    → add_size a (add_size b (add_size c (add_size d (add_size e f)))) ≡ a
unfolding add_size
first_only s hb hc hd he hf = omega (arith, s, hb, hc, hd, he, hf)

second_only :
    {a b c d e f : ℕ}
    → b < 2 ^ 64
    → a ≡ 0
    → c ≡ 0
    → d ≡ 0
    → e ≡ 0
    → f ≡ 0
    → add_size a (add_size b (add_size c (add_size d (add_size e f)))) ≡ b
unfolding add_size
second_only s hb hc hd he hf = omega (arith, s, hb, hc, hd, he, hf)

fourth_only :
    {a b c d e f : ℕ}
    → d < 2 ^ 64
    → a ≡ 0
    → b ≡ 0
    → c ≡ 0
    → e ≡ 0
    → f ≡ 0
    → add_size a (add_size b (add_size c (add_size d (add_size e f)))) ≡ d
unfolding add_size
fourth_only s hb hc hd he hf = omega (arith, s, hb, hc, hd, he, hf)

fifth_only :
    {a b c d e f : ℕ}
    → e < 2 ^ 64
    → a ≡ 0
    → b ≡ 0
    → c ≡ 0
    → d ≡ 0
    → f ≡ 0
    → add_size a (add_size b (add_size c (add_size d (add_size e f)))) ≡ e
unfolding add_size
fifth_only s hb hc hd he hf = omega (arith, s, hb, hc, hd, he, hf)

handled_none : (c : Count) → handled_value c no_handled ≡ 0
handled_none metrics_received = refl
handled_none metrics_blackholed = refl
handled_none metrics_discarded = refl
handled_none wall_time = refl
handled_none sleep_time = refl
handled_none sent = refl
handled_none queued = refl
handled_none stalls = refl
handled_none dropped = refl
handled_none requeue = refl
handled_none failures = refl
handled_none connections = refl
handled_none disconnects = refl

served_none : (c : Count) → served_value c no_served ≡ 0
served_none metrics_received = refl
served_none metrics_blackholed = refl
served_none metrics_discarded = refl
served_none wall_time = refl
served_none sleep_time = refl
served_none sent = refl
served_none queued = refl
served_none stalls = refl
served_none dropped = refl
served_none requeue = refl
served_none failures = refl
served_none connections = refl
served_none disconnects = refl

from_zero : {x z y : ℕ} → x ≡ add_size z y → z ≡ 0 → y < 2 ^ 64 → y ≡ x % 2 ^ 64
unfolding add_size
from_zero h e b = omega (arith, h, e, b)

below_size : {z : ℕ} → z ≡ 0 → z < 2 ^ 64
below_size h = omega (arith, h)

module _ (c : Count) (mode : ColMode) (m : Meters) where
  from_dispatchers :
      sum_of a_dispatcher c (cycle mode m).1 ≡ sum_of a_dispatcher c (dispatcher_part mode m).1
  from_dispatchers =
      cycle-parts a_dispatcher c mode m
      ∙ first_only (sum_of-bound a_dispatcher c (dispatcher_part mode m).1) refl refl
          (servers_loop-other a_dispatcher c mode (submission_part mode m).failures no_served
            m.servers refl refl)
          refl (read_aggregators-other a_dispatcher c mode m.aggregates refl)

  from_handled :
      sum_of over_dispatchers c (cycle mode m).1
      ≡ sum_of over_dispatchers c (handled_lines all_dispatchers (dispatcher_part mode m).0)
  from_handled =
      cycle-parts over_dispatchers c mode m
      ∙ second_only
          (sum_of-bound over_dispatchers c
            (handled_lines all_dispatchers (dispatcher_part mode m).0))
          (dispatchers_loop-other over_dispatchers c mode 0 no_handled m.dispatchers refl) refl
          (servers_loop-other over_dispatchers c mode (submission_part mode m).failures no_served
            m.servers refl refl)
          refl (read_aggregators-other over_dispatchers c mode m.aggregates refl)

  from_servers :
      (w : Level)
      → (level_code a_dispatcher == level_code w) ≡ false
      → (level_code over_dispatchers == level_code w) ≡ false
      → (level_code of_submission == level_code w) ≡ false
      → (level_code over_servers == level_code w) ≡ false
      → (level_code of_aggregators == level_code w) ≡ false
      → sum_of w c (cycle mode m).1 ≡ sum_of w c (server_part mode m).1
  from_servers w h0 h1 h2 h5 h6 =
      cycle-parts w c mode m
      ∙ fourth_only (sum_of-bound w c (server_part mode m).1)
          (dispatchers_loop-other w c mode 0 no_handled m.dispatchers h0)
          (sum_of-Without w c (handled_lines all_dispatchers (dispatcher_part mode m).0)
            (h1, (h1, (h1, (h1, (h1, tt))))))
          (sum_of-Without w c
            (send_server_metrics (submission m.submission.ip) (submission_part mode m))
            (h2, (h2, (h2, (h2, (h2, (h2, (h2, tt))))))))
          (sum_of-Without w c (total_lines (server_part mode m).0 m.accepted m.closed)
            (h5, (h5, (h5, (h5, (h5, (h5, (h5, (h5, tt)))))))))
          (read_aggregators-other w c mode m.aggregates h6)

  from_totals :
      sum_of over_servers c (cycle mode m).1
      ≡ sum_of over_servers c (total_lines (server_part mode m).0 m.accepted m.closed)
  from_totals =
      cycle-parts over_servers c mode m
      ∙ fifth_only
          (sum_of-bound over_servers c (total_lines (server_part mode m).0 m.accepted m.closed))
          (dispatchers_loop-other over_servers c mode 0 no_handled m.dispatchers refl) refl refl
          (servers_loop-other over_servers c mode (submission_part mode m).failures no_served
            m.servers refl refl)
          (read_aggregators-other over_servers c mode m.aggregates refl)

  -- For every mode, counters and count: the values in the lines about the single dispatchers add up to
  -- the value in the line about all of them, modulo 2^64.
  pub cycle-dispatchers :
      sum_of a_dispatcher c (cycle mode m).1 ≡ sum_of over_dispatchers c (cycle mode m).1
  cycle-dispatchers =
      from_dispatchers
      ∙ from_zero
          (dispatchers_loop-sum c mode 0 no_handled m.dispatchers (below_size (handled_none c)))
          (handled_none c) (sum_of-bound a_dispatcher c (dispatcher_part mode m).1)
      ∙ sym (from_handled ∙ handled_total-sum c (dispatcher_part mode m).0)

  -- For every mode and counters, and the counts sent, queued, stalls, dropped, wallTime_us and failures:
  -- the values in the lines about the single servers add up to the value in the line about all of
  -- them, modulo 2^64; the submission server is left out.
  pub cycle-servers :
      is_summed c ≡ true
      → sum_of a_destination c (cycle mode m).1 ≡ sum_of over_servers c (cycle mode m).1
  cycle-servers e =
      from_servers a_destination refl refl refl refl refl
      ∙ from_zero
          (servers_loop-sum c mode (submission_part mode m).failures no_served m.servers e
            (below_size (served_none c)))
          (served_none c) (sum_of-bound a_destination c (server_part mode m).1)
      ∙ sym (from_totals ∙ total_lines-sum c (server_part mode m).0 m.accepted m.closed e)

-- For every mode and counters: the metrics sent, and the time, in the lines about the connections add
-- up to those in the lines about the servers, modulo 2^64.
pub cycle-connections :
    (mode : ColMode) (m : Meters)
    → (sum_of a_connection sent (cycle mode m).1 ≡ sum_of a_destination sent (cycle mode m).1)
      × (sum_of a_connection wall_time (cycle mode m).1
          ≡ sum_of a_destination wall_time (cycle mode m).1)
cycle-connections mode m =
    let agrees =
      servers_loop-connections mode (submission_part mode m).failures no_served m.servers in
    (
      from_servers sent mode m a_connection refl refl refl refl refl
          ∙ agrees.0
          ∙ sym (from_servers sent mode m a_destination refl refl refl refl refl),
      from_servers wall_time mode m a_connection refl refl refl refl refl
          ∙ agrees.1
          ∙ sym (from_servers wall_time mode m a_destination refl refl refl refl refl),
    )
