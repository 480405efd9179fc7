-- ===== src/Server/Tests.antt =====
-- Runs of `server_send`, and each theorem at an input.
use carbon_c_relay.Prelude.{
  ℕ, ◌≡◌, refl, true, false, none, some, [], ◌∷◌, arith, ◌⊎◌, if◌then◌else◌, ◌==◌,
}
use carbon_c_relay.Queue.{Queue}
use carbon_c_relay.Queue.Inv.{IsValid}
use carbon_c_relay.Server.Send.{Sender, server_send}
use carbon_c_relay.Server.Send.Stall.{Refused, server_send-Refused, insist, insist-accepted}
use carbon_c_relay.Server.Send.Account.{Accepted, server_send-accounts}

-- a full queue at every address but 1, which has an empty one of two cells
abbrev full : Queue ℕ
full = record { buf = some 7 ∷ []; end = 1; write = 1; read = 0; len = 1 }

abbrev roomy : Queue ℕ
roomy = record { buf = none ∷ none ∷ []; end = 2; write = 0; read = 0; len = 0 }

queues : ℕ → Queue ℕ
queues k = if k == 1 then roomy else full

queues-IsValid : (k : ℕ) → IsValid (queues k)
unfolding queues
queues-IsValid k = ground arith

abbrev server : Sender
server = record {
  id = 5;
  failures = 0 ∷ [];
  queue = 0;
  bsize = 0;
  qfree_threshold = 1;
  maxstalls = 2;
  secondaries = [];
  stallseq = 0;
  dropped = 0;
  stalls = 0;
  requeue = 0;
}

abbrev backed_up : Sender
backed_up = record server {
  secondaries = record { id = 6; failures = 0 ∷ []; keep_running = true; queue = 1 } ∷ [];
}

-- A server that has failed does not give its metrics to the one that backs it up: it stalls.
run_failed :
    ((server_send queues backed_up (some 1) false).sender.requeue ≡ 1)
    × ((server_send queues (record backed_up { failures = 3 ∷ [] }) (some 1) false).accepted
        ≡ false)
unfolding server_send queues
run_failed = (refl, refl)

server_send-Refused_example :
    ((server_send queues server (some 1) true).accepted ≡ true)
    ⊎ Refused queues server true (server_send queues server (some 1) true)
server_send-Refused_example = server_send-Refused queues server (some 1) true

server_send-accounts_example :
    Accepted queues backed_up (some 1) (server_send queues backed_up (some 1) false)
    ⊎ Refused queues backed_up false (server_send queues backed_up (some 1) false)
server_send-accounts_example =
    server_send-accounts queues backed_up (some 1) false queues-IsValid (omega arith)

insist-accepted_example : insist 3 queues server (some 1) ≡ true
insist-accepted_example = insist-accepted 2 queues server (some 1) refl (omega arith)
