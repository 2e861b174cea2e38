-- ===== src/Service/Attested.antt =====
-- A user has one nullifier on a parent, so one vote: what the gate of `appendSigned` makes of the
-- attested nullifiers.
mod Kept
mod Table
use oursay.Base.{
  ◌≡◌, ◌≢◌, String, true, false, ◌&&◌, some, List, ◌∷◌, All, arith, and_left, and_right, ◌>>=◌,
}
use oursay.Crypto.Hash.{Hasher}
use oursay.Crypto.Canonical.{Codec}
use oursay.Schema.Types.{TxEnvelope, Op, is_singleton}
use oursay.Ledger.Store.{StoredTx}
use oursay.Identity.Curve.{Curve}
use oursay.Identity.Tables.{
  Keys, ThreadKey, NullifierAttestation, find, has, attests, bears, attest_nullifier,
  get_thread_key,
}
use oursay.Service.Config.{Config, guard}
use oursay.Service.Validate.{ParentRef}
use oursay.Service.Signed.{parent_of, unless_taken}
use oursay.Service.State.{has_active_singleton_by_nullifier}
use oursay.Service.Reach.{Reach}
use oursay.Service.Attested.Kept.{IsKept, given_not_empty}
use oursay.Service.Attested.Table.{Has}

-- The envelope creates a vote, a reaction or a signature of this user on this parent.
pub record IsClaim (user parent_id : String) (env : TxEnvelope) (keys : Keys) : Type 0 where
  pub creates : env.op ≡ Op.create
  pub singleton : is_singleton env.type ≡ true
  pub parent : ParentRef
  pub has_parent : parent_of env ≡ some parent
  pub on_parent : parent.id ≡ parent_id
  pub thread_key : ThreadKey
  pub is_registered : get_thread_key env.author_pubkey keys ≡ some thread_key
  pub of_user : thread_key.user_id ≡ user

module _ (h : Hasher) (codec : Codec) (curve : Curve) (cfg : Config) where
  -- What the gate leaves, where it passes.
  pub record Passed (user p n : String) (rows : List StoredTx) (k k' : Keys) : Type 0 where
    pub attested : Has user p n k'
    pub free : has_active_singleton_by_nullifier p n rows ≡ false
    pub same : (m : String) → Has user p m k → m ≡ n
