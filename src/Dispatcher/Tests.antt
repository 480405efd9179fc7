-- ===== src/Dispatcher/Tests.antt =====
-- Runs of `dispatch_received_metrics`, and each theorem at an input.
use carbon_c_relay.Prelude.Bytes.{codes}
use carbon_c_relay.Prelude.{
  ℕ, ◌+◌, ◌≡◌, refl, Bool, true, false, List, [], ◌∷◌, ◌++◌, some, if◌then◌else◌, ◌==◌,
}
use carbon_c_relay.Queue.{Queue}
use carbon_c_relay.Server.Send.{Sender}
use carbon_c_relay.Dispatcher.{Config, Tally, dispatch_received_metrics}
use carbon_c_relay.Dispatcher.Clean.{CleanMetric, dispatch_received_metrics-clean}
use carbon_c_relay.Dispatcher.Chunk.{newlines, dispatch_received_metrics-count}
use carbon_c_relay.Dispatcher.Resume.{dispatch_received_metrics-append}
use carbon_c_relay.Dispatcher.Dests.{
  Connection, is_forced, dispatch_process_dests, Progress, dispatch_process_dests-Progress,
}

abbrev plain_config : Config
plain_config = record {
  tags_supported = false;
  maxinplen = 100;
  maxmetriclen = 40;
  allowed_chars = codes "-_:#";
}

abbrev tag_config : Config
tag_config = record plain_config { tags_supported = true }

abbrev collect : List (List ℕ) → List ℕ → ℕ → List (List ℕ) × Bool
collect s m n = (s ++ (m ∷ []), true)

-- one that takes a single metric
abbrev refuse : List (List ℕ) → List ℕ → ℕ → List (List ℕ) × Bool
refuse s m n = (s ++ (m ∷ []), false)

abbrev empty : Tally (List (List ℕ))
empty = record { state = []; metrics = 0; discards = 0 }

run_cleaned :
    dispatch_received_metrics collect plain_config empty
      (codes "..a..b(. 1  2" ++ (b'\n' ∷ (b'x' ∷ (b'\n' ∷ codes "c 3"))))
    ≡ record {
      tally = record { state = (codes "a.b_ 1 2" ++ (b'\n' ∷ [])) ∷ []; metrics = 1; discards = 1 };
      buf = codes "c 3";
      needmore = true;
    }
unfolding dispatch_received_metrics
run_cleaned = refl

-- A value that begins with a dot loses it.
run_dot :
    (dispatch_received_metrics collect plain_config empty
      (codes "a .5 1" ++ (b'\n' ∷ []))).tally.state
    ≡ (codes "a 5 1" ++ (b'\n' ∷ [])) ∷ []
unfolding dispatch_received_metrics
run_dot = refl

-- Behind a tagged line that is dropped, the tags of the next metric are not found.
run_tags :
    ((dispatch_received_metrics collect
        (record tag_config { maxmetriclen = 3 })
        empty
        (codes "abcd;t 1" ++ (b'\n' ∷ (codes "b;t 2" ++ (b'\n' ∷ []))))).tally.state
      ≡ (codes "b_t 2" ++ (b'\n' ∷ [])) ∷ [])
    × ((dispatch_received_metrics collect
          (record tag_config { maxmetriclen = 3 })
          empty
          (codes "b;t 2" ++ (b'\n' ∷ []))).tally.state
        ≡ (codes "b;t 2" ++ (b'\n' ∷ [])) ∷ [])
unfolding dispatch_received_metrics
run_tags = (refl, refl)

abbrev AllClean : List (List ℕ) → Type 0
AllClean [] = Unit
AllClean (m ∷ ms) = ((n : ℕ) × CleanMetric plain_config m n) × AllClean ms

AllClean-append :
    (ms : List (List ℕ)) (m : List ℕ)
    → AllClean ms
    → (n : ℕ) × CleanMetric plain_config m n
    → AllClean (ms ++ (m ∷ []))
AllClean-append [] m h k = (k, tt)
AllClean-append (a ∷ ms) m h k = (h.0, AllClean-append ms m h.1 k)

abbrev two_lines : List ℕ
two_lines = codes "..a..b(. 1  2" ++ (b'\n' ∷ (b'x' ∷ (b'\n' ∷ codes "c 3")))

collect-AllClean :
    (s : List (List ℕ)) (m : List ℕ) (n : ℕ)
    → CleanMetric plain_config m n
    → AllClean s
    → AllClean (collect s m n).0
collect-AllClean s m n c h = AllClean-append s m h (n, c)

dispatch_received_metrics-clean_example :
    AllClean (dispatch_received_metrics collect plain_config empty two_lines).tally.state
dispatch_received_metrics-clean_example =
    dispatch_received_metrics-clean collect AllClean plain_config refl collect-AllClean empty
      two_lines tt

dispatch_received_metrics-count_example :
    (let left = dispatch_received_metrics refuse plain_config empty two_lines in
      left.tally.metrics + left.tally.discards + newlines left.buf ≡ 0 + 0 + newlines two_lines)
dispatch_received_metrics-count_example =
    dispatch_received_metrics-count refuse plain_config empty two_lines

dispatch_received_metrics-append_example :
    (let left = dispatch_received_metrics collect plain_config empty (codes "..a..b(. ") in
      dispatch_received_metrics collect plain_config left.tally (left.buf ++ codes "1  2")
      ≡ dispatch_received_metrics collect plain_config empty (codes "..a..b(. " ++ codes "1  2"))
dispatch_received_metrics-append_example =
    dispatch_received_metrics-append plain_config refl collect (λ s m n. refl) empty
      (codes "..a..b(. ") (codes "1  2")

abbrev queues : ℕ → Queue ℕ
queues k = record { buf = some 7 ∷ []; end = 1; write = 1; read = 0; len = 1 }

abbrev servers : ℕ → Sender
servers k = record {
  id = k;
  failures = 0 ∷ [];
  queue = k;
  bsize = 0;
  qfree_threshold = 1;
  maxstalls = if k == 0 then 0 else 4;
  secondaries = [];
  stallseq = 0;
  dropped = 0;
  stalls = 0;
  requeue = 0;
}

abbrev connection : Connection ℕ
connection = record {
  dests = (0, some 1) ∷ ((1, some 2) ∷ ((0, some 3) ∷ []));
  maxsenddelay = 0;
  lastwork = 100;
  isaggr = false;
}

-- The first server takes its metric, and the second stalls.
run_dests :
    (let result =
        dispatch_process_dests (record { servers = servers; queues = queues }) connection 42 200 in
      (result.0 ≡ false)
      × (result.1.1.dests ≡ (1, some 2) ∷ ((0, some 3) ∷ []))
      × (result.1.1.maxsenddelay ≡ 292000))
unfolding dispatch_process_dests
run_dests = (refl, refl, refl)

dispatch_process_dests-Progress_example :
    Progress
      (record { servers = servers; queues = queues })
      connection
      (is_forced connection 42 200)
      (dispatch_process_dests (record { servers = servers; queues = queues }) connection 42 200)
dispatch_process_dests-Progress_example =
    dispatch_process_dests-Progress (record { servers = servers; queues = queues }) connection 42
      200
