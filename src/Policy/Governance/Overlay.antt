-- ===== src/Policy/Governance/Overlay.antt =====
-- When a vote may be changed: the rules of the jurisdiction, overlaid by those of the poll.
use oursay.Base.{ℕ, ◌<◌, ◌≡◌, ◌≢◌, Bool, false, Option, none, some}
use oursay.Policy.Jurisdiction.{Deadline, empty, until, JurisdictionRules}
use oursay.Policy.Governance.{EntityState}

-- The value that is in effect: one of the poll's own stands before that of the jurisdiction.
pub data Effective {ℓ} {A : Type ℓ} (own base : Option A) : Option A → Type ℓ where
  own_value : (x : A) → own ≡ some x → Effective own base (some x)
  base_value : own ≡ none → Effective own base base

-- The deadline has not come, if there is one.
pub data InTime (now : ℕ) : Option Deadline → Type 0 where
  endless : InTime now none
  no_date : InTime now (some empty)
  before : {t : ℕ} → now < t → InTime now (some (until t))

-- A poll that is stored and not deleted, whose rules in effect do not forbid the change, before
-- their deadline.
pub record MayChange (poll : Option EntityState) (now : ℕ) (base : JurisdictionRules) : Type 0 where
  pub state : EntityState
  pub is_stored : poll ≡ some state
  pub alive : state.is_deleted ≡ false
  pub change : Option Bool
  pub change_rule : Effective state.rules.allow_change base.allow_change change
  pub allows : change ≢ some false
  pub deadline : Option Deadline
  pub deadline_rule : Effective state.rules.deadline base.default_deadline deadline
  pub in_time : InTime now deadline
