-- ===== src/Worker/Examples.antt =====
-- The next wake of two chains, one with a deadline in 300 ms.
use oursay.Base.{◌≡◌, ◌≤◌, refl, none, some, List, [], ◌∷◌, All, arith}
use oursay.Worker.{ChainDecision, until_age_deadline, compute_next_wake_ms}
use oursay.Worker.Wake.{InTime, compute_next_wake_ms-InTime}

abbrev decisions : List ChainDecision
decisions =
    record {
      chain_id = "canada";
      pending_count = 3;
      oldest_age_ms = some 700;
      max_pending_age_ms = 1000;
      min_txs = 1;
    }
    ∷ record {
      chain_id = "alberta";
      pending_count = 0;
      oldest_age_ms = none;
      max_pending_age_ms = 1000;
      min_txs = 1;
    }
    ∷ []

wake : compute_next_wake_ms 5000 100 decisions ≡ 300
unfolding compute_next_wake_ms
wake = refl

compute_next_wake_ms-InTime_example :
    (100 ≤ compute_next_wake_ms 5000 100 decisions)
    × (compute_next_wake_ms 5000 100 decisions ≤ 5000)
    × All
        (λ d. InTime 100 (compute_next_wake_ms 5000 100 decisions) (until_age_deadline d))
        decisions
compute_next_wake_ms-InTime_example = compute_next_wake_ms-InTime 5000 100 decisions (omega arith)
