-- ===== src/Service/Config.antt =====
-- The construction of `RecordService` in public-record/src/record.ts, the state that it works on,
-- and the step in which all its writes end.
use oursay.Base.{ℕ, String, Bool, true, false, Option, none, some, if◌then◌else◌, ◌≡◌, refl}
use oursay.Crypto.Hash.{Hasher, hash_leaf}
use oursay.Crypto.Canonical.{Json, Codec, canonical_json}
use oursay.Schema.Types.{TxEnvelope, envelope_json}
use oursay.Policy.Jurisdiction.{Registry}
use oursay.Ledger.Store.{Store}
use oursay.Ledger.Connector.{Ledger}
use oursay.Record.Append.{NewTx, append}
use oursay.Identity.Tables.{Keys}

-- An absent key is `undefined`; ages and skews are seconds.
pub record Config : Type 0 where
  pub platform_priv_key_hex : Option String
  pub platform_pub_key_hex : Option String
  pub signed_envelope_max_age_sec : ℕ
  pub signed_envelope_future_skew_sec : ℕ
  pub require_device_signer : Bool
  pub enforce_signing_policy : Bool
  pub jurisdictions : Registry
  pub chain_id : String

pub record Db : Type 0 where
  pub store : Store
  pub keys : Keys

pub record Ref : Type 0 where
  pub tx_id : String
  pub entity_id : String
  pub tx_hash : String

-- What the world gives to a call: the time in milliseconds, and the ledger, if it answers.
pub record Moment : Type 0 where
  pub now : ℕ
  pub ledger : Option Ledger

-- The rest of a body behind a test that throws.
abbrev pub guard {ℓ} : {A : Type ℓ} → Bool → Option A → Option A
guard true rest = rest
guard false rest = none

pub guard-eq-some {ℓ} :
    {A : Type ℓ} (b : Bool) (rest : Option A) {a : A}
    → guard b rest ≡ some a
    → (b ≡ true) × (rest ≡ some a)
guard-eq-some true rest e = (refl, e)
guard-eq-some false rest e = absurd (cc)

-- `PublicChain.append` of an envelope, its salt and its content: the row to append.
unfoldable pub new_tx : TxEnvelope → String → Json → NewTx
new_tx env salt content = record {
  tx_id = env.tx_id;
  type = env.type;
  entity_id = env.entity_id;
  op = env.op;
  parent_type = env.parent_type;
  parent_id = env.parent_id;
  parent_revision_tx_id = env.parent_revision_tx_id;
  parent_revision_hash = env.parent_revision_hash;
  author_pubkey = env.author_pubkey;
  nullifier = env.nullifier;
  prev_hash = env.prev_hash;
  content_hash = env.content_hash;
  salt = salt;
  content = content;
  envelope = envelope_json env;
}

module _ (h : Hasher) (codec : Codec) (cfg : Config) where
  abbrev pub ref_of : TxEnvelope → Ref
  ref_of env = record {
    tx_id = env.tx_id;
    entity_id = env.entity_id;
    tx_hash = hash_leaf h (h.utf8 (canonical_json codec (envelope_json env)));
  }

  abbrev pub stored_or_thrown : TxEnvelope → Db → Option Store → Db × Option Ref
  stored_or_thrown env db none = (db, none)
  stored_or_thrown env db (some store) = (record db { store = store }, some (ref_of env))

  -- The end of every operation: behind the checks, the append.
  unfoldable pub commit : Bool → TxEnvelope → String → Json → Moment → Db → Db × Option Ref
  unfolding new_tx
  commit ok env salt content m db =
      if ok
      then stored_or_thrown env db
          (append h codec (new_tx env salt content) cfg.chain_id m.now m.ledger db.store)
      else (db, none)
