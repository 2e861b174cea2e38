-- ===== src/Service/Reach.antt =====
-- The states that the operations of the record service lead to, in any order and with any
-- arguments. The helpers (`react`, `vote`, `changeVote`, `sign`, `revoke`, `updateRules`) are among
-- the unsigned operations.
use oursay.Base.{String, Bool, Option, List}
use oursay.Crypto.Hash.{Hasher}
use oursay.Crypto.Canonical.{Json, Codec}
use oursay.Schema.Types.{TxEnvelope, RecordType}
use oursay.Ledger.Store.{StoredTx}
use oursay.Identity.Curve.{Curve}
use oursay.Service.Config.{Config, Db, Moment}
use oursay.Service.Validate.{ParentRef}
use oursay.Service.Signed.{append_signed}
use oursay.Service.Unsigned.{Draw, create, update, delete}
use oursay.Service.Ops.{append_platform_ops}
use oursay.Service.Accepted.{Outcome}
use oursay.Service.Accepted.Signed.{append_signed-Outcome}
use oursay.Service.Accepted.Unsigned.{create-Outcome, update-Outcome, delete-Outcome}
use oursay.Service.Accepted.Ops.{append_platform_ops-Outcome}

module _ (h : Hasher) (codec : Codec) (curve : Curve) (cfg : Config) where
  -- A call of the service, with its arguments.
  pub data Call : Type 0 where
    signed : TxEnvelope → String → Json → Call
    ops : TxEnvelope → String → Json → Bool → Call
    creation : RecordType → String → Json → Option ParentRef → String → Draw → Call
    change : String → String → Json → Draw → Call
    deletion : String → String → Draw → Call

  -- The state after a call.
  unfoldable pub run : Call → Moment → Db → Db
  run (signed env salt content) m db = (append_signed h codec curve cfg env salt content m db).0
  run (ops env salt content verify_admin) m db =
      (append_platform_ops h codec curve cfg env salt content verify_admin m db).0
  run (creation t author content parent entity_id d) m db =
      (create h codec curve cfg t author content parent entity_id d m db).0
  run (change entity_id author content d) m db =
      (update h codec curve cfg entity_id author content d m db).0
  run (deletion entity_id author d) m db = (delete h codec curve cfg entity_id author d m db).0

  pub run-Outcome :
      (call : Call) (m : Moment) (db : Db) → Outcome db.store.rows (run call m db).store.rows
  unfolding run
  run-Outcome (signed env salt content) m db =
      append_signed-Outcome h codec curve cfg env salt content m db
  run-Outcome (ops env salt content verify_admin) m db =
      append_platform_ops-Outcome h codec curve cfg env salt content verify_admin m db
  run-Outcome (creation t author content parent entity_id d) m db =
      create-Outcome h codec curve cfg t author content parent entity_id d m db
  run-Outcome (change entity_id author content d) m db =
      update-Outcome h codec curve cfg entity_id author content d m db
  run-Outcome (deletion entity_id author d) m db =
      delete-Outcome h codec curve cfg entity_id author d m db

  pub data Reach (start : Db) : Db → Type 0 where
    here : Reach start start
    after : {db : Db} → Reach start db → (call : Call) (m : Moment) → Reach start (run call m db)

  -- What every extension of the rows keeps, every state that is reached has.
  pub Reach-invariant {ℓ} :
      (P : List StoredTx → Type ℓ)
      → ((rows rows' : List StoredTx) → Outcome rows rows' → P rows → P rows')
      → {start db : Db} → Reach start db
      → P start.store.rows
      → P db.store.rows
  Reach-invariant P keeps here p = p
  Reach-invariant P keeps (after {db = db} r call m) p =
      keeps db.store.rows (run call m db).store.rows (run-Outcome call m db)
        (Reach-invariant P keeps r p)
