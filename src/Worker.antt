-- ===== src/Worker.antt =====
-- `SettlementWorker.computeNextWakeMs` of public-record/src/worker/settlement-worker.ts.
pub mod Wake
mod Examples
use oursay.Base.{
  ℕ, ◌-◌, String, Bool, true, false, ◌&&◌, Option, none, some, List, [], ◌∷◌, ltb, leb,
  if◌then◌else◌,
}

pub record ChainDecision : Type 0 where
  pub chain_id : String
  pub pending_count : ℕ
  pub oldest_age_ms : Option ℕ
  pub max_pending_age_ms : ℕ
  pub min_txs : ℕ

-- The time until the age deadline of a chain, for a chain that has one.
pub until_age_deadline : ChainDecision → Option ℕ
until_age_deadline d = elim d.oldest_age_ms [
  | none ↦ none
  | some age ↦
      if ltb 0 d.max_pending_age_ms && leb d.min_txs d.pending_count
      then some (d.max_pending_age_ms - age)
      else none
]

-- `none` is `Infinity`.
abbrev pub nearer : Option ℕ → Option ℕ → Option ℕ
nearer none nearest = nearest
nearer (some n) none = some n
nearer (some n) (some m) = if ltb n m then some n else some m

pub nearest_deadline : Option ℕ → List ChainDecision → Option ℕ
unfolding until_age_deadline
nearest_deadline nearest [] = nearest
nearest_deadline nearest (d ∷ rest) = nearest_deadline (nearer (until_age_deadline d) nearest) rest

abbrev pub clamp : ℕ → ℕ → Option ℕ → ℕ
clamp max_idle min_interval none = max_idle
clamp max_idle min_interval (some n) =
    let low = if ltb n min_interval then min_interval else n in
    if ltb max_idle low then max_idle else low

pub compute_next_wake_ms : ℕ → ℕ → List ChainDecision → ℕ
unfolding nearest_deadline
compute_next_wake_ms max_idle min_interval decisions =
    clamp max_idle min_interval (nearest_deadline none decisions)
