-- ===== src/Collector/Failures.antt =====
-- collector.c: the failures that are reported of servers.
use carbon_c_relay.Prelude.{
  ℕ, ◌+◌, ◌%◌, ◌^◌, ◌≡◌, refl, ◌∙◌, ap, Bool, true, false, List, [], ◌∷◌, ◌++◌, if◌then◌else◌,
}
use carbon_c_relay.Collector.{
  ColMode, get_by, ConnMeters, server_get_failure, ServerMeters, add_size, dest_name, destination,
  Count, failures, Line,
}
use carbon_c_relay.Collector.Cycle.{
  Sums, Served, conns_loop, read_server, servers_loop, add_served, send_server_metrics,
}
use carbon_c_relay.Collector.Sums.{Level, a_destination, is_of}

-- the values of the lines of a kind, in their order
abbrev pub values_of : Level → Count → List Line → List ℕ
values_of v c [] = []
values_of v c (l ∷ ls) = if is_of v c l then l.value ∷ values_of v c ls else values_of v c ls

values_of-append :
    (v : Level) (c : Count) (ls ks : List Line)
    → values_of v c (ls ++ ks) ≡ values_of v c ls ++ values_of v c ks
values_of-append v c [] ks = refl
values_of-append v c (l ∷ ls) ks =
    ap (λ n. if is_of v c l then l.value ∷ n else n) (values_of-append v c ls ks)
    ∙ step (is_of v c l)
  where
    step :
        (t : Bool)
        → (if t
            then l.value ∷ (values_of v c ls ++ values_of v c ks)
            else values_of v c ls ++ values_of v c ks)
          ≡ (if t then l.value ∷ values_of v c ls else values_of v c ls) ++ values_of v c ks
    step true = refl
    step false = refl

-- the failures of some connections, as a `size_t`
abbrev pub failed_of : ℕ → List ConnMeters → ℕ
failed_of n [] = n
failed_of n (c ∷ cs) = failed_of ((n + server_get_failure c) % 2 ^ 64) cs

-- the sums of the failures of each server and of all in front of it
abbrev pub running : ℕ → List ServerMeters → List ℕ
running n [] = []
running n (s ∷ ss) = failed_of n s.conns ∷ running (failed_of n s.conns) ss

conns_loop-failures :
    (mode : ColMode) (name : List ℕ) (n : ℕ) (v : Sums) (cs : List ConnMeters)
    → (conns_loop mode name n v cs).1.0.failures ≡ failed_of v.failures cs
unfolding conns_loop add_size
conns_loop-failures mode name n v [] = refl
conns_loop-failures mode name n v (c ∷ cs) =
    conns_loop-failures mode name (n + 1)
      (record {
        ticks = (v.ticks + (get_by mode c.ticks).0) % 2 ^ 64;
        metrics = (v.metrics + (get_by mode c.metrics).0) % 2 ^ 64;
        failures = (v.failures + server_get_failure c) % 2 ^ 64;
      })
      cs

conns_loop-values :
    (c : Count) (mode : ColMode) (name : List ℕ) (n : ℕ) (v : Sums) (cs : List ConnMeters)
    → values_of a_destination c (conns_loop mode name n v cs).1.1 ≡ []
unfolding conns_loop add_size
conns_loop-values c mode name n v [] = refl
conns_loop-values c mode name n v (m ∷ ms) =
    conns_loop-values c mode name (n + 1)
      (record {
        ticks = (v.ticks + (get_by mode m.ticks).0) % 2 ^ 64;
        metrics = (v.metrics + (get_by mode m.metrics).0) % 2 ^ 64;
        failures = (v.failures + server_get_failure m) % 2 ^ 64;
      })
      ms

read_server-failures :
    (mode : ColMode) (failed : ℕ) (s : ServerMeters)
    → (values_of a_destination failures (read_server mode failed s).1.1
        ≡ failed_of failed s.conns ∷ [])
      × ((read_server mode failed s).1.0.failures ≡ failed_of failed s.conns)
unfolding read_server
read_server-failures mode failed s =
    let v0 : Sums = record { ticks = 0; metrics = 0; failures = failed } in
    let own = send_server_metrics (destination (dest_name s)) (read_server mode failed s).1.0 in
    let total = conns_loop-failures mode (dest_name s) 0 v0 s.conns in
    (
      values_of-append a_destination failures (conns_loop mode (dest_name s) 0 v0 s.conns).1.1 own
          ∙ ap (λ l. l ++ values_of a_destination failures own)
              (conns_loop-values failures mode (dest_name s) 0 v0 s.conns)
          ∙ ap (λ n. n ∷ []) total,
      total,
    )

-- For every mode and any servers: each line about the failures of a server has the failures of the
-- connections of this server and of all servers in front of it, and those `failed` of the submission
-- server, modulo 2^64.
pub servers_loop-failures :
    (mode : ColMode) (failed : ℕ) (tot : Served) (ss : List ServerMeters)
    → values_of a_destination failures (servers_loop mode failed tot ss).1.1 ≡ running failed ss
unfolding servers_loop
servers_loop-failures mode failed tot [] = refl
servers_loop-failures mode failed tot (s ∷ ss) =
    let v = (read_server mode failed s).1.0 in
    let own = read_server-failures mode failed s in
    values_of-append a_destination failures (read_server mode failed s).1.1
      (servers_loop mode v.failures (add_served tot v) ss).1.1
    ∙ ap
        (λ l.
          l
          ++ values_of a_destination failures
              (servers_loop mode v.failures (add_served tot v) ss).1.1)
        own.0
    ∙ ap (λ l. failed_of failed s.conns ∷ l)
        (servers_loop-failures mode v.failures (add_served tot v) ss)
    ∙ ap (λ n. failed_of failed s.conns ∷ running n ss) own.1
