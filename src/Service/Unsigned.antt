-- ===== src/Service/Unsigned.antt =====
-- The unsigned path of public-record/src/record.ts, with the helpers over it, and `prepareAppend`.
use oursay.Base.{ℕ, String, Bool, true, Option, none, some, List, str_eq, if◌then◌else◌, ◌>>=◌}
use oursay.Crypto.Hash.{Hasher}
use oursay.Crypto.Canonical.{Json, Members, Codec, content_commitment, str, obj, member, close}
use oursay.Schema.Types.{
  TxEnvelope, RecordType, civic, Op, reaction, vote, poll, petition, petition_signature,
}
use oursay.Schema.Content.{members_of}
use oursay.Ledger.Store.{StoredTx}
use oursay.Identity.Curve.{Curve}
use oursay.Identity.Envelope.{given}
use oursay.Service.State.{get_head_tx, get_entity_state, get_active_singleton}
use oursay.Service.Config.{Config, Db, Ref, Moment, guard, commit}
use oursay.Service.Validate.{ParentRef, Resolved, validate_create, validate_update, validate_delete}
use oursay.Service.Signed.{is_absent, delete_marker}

-- What a call draws: the id of the transaction, the salt, and the id of a new entity; the time of
-- creation and the signature are the caller's, or "unsigned".
pub record Draw : Type 0 where
  pub tx_id : String
  pub salt : String
  pub entity_id : String
  pub created_at : String
  pub signature : String

pub record AppendSpec : Type 0 where
  pub type : RecordType
  pub entity_id : String
  pub op : Op
  pub author : String
  pub parent : Option ParentRef
  pub parent_revision_hash : Option String
  pub parent_revision_tx_id : Option String
  pub prev_hash : Option String
  pub content : Json

-- What `prepareAppend` returns.
pub record Prepared : Type 0 where
  pub prev_hash : Option String
  pub parent_type : Option RecordType
  pub parent_id : Option String
  pub parent_revision_hash : Option String
  pub parent_revision_tx_id : Option String
  pub root_entity_id : String
  pub nullifier_parent_id : Option String
  pub nullifier : Option String

abbrev pub head_parent : StoredTx → Option ParentRef
head_parent head = do
  t ← head.parent_type
  id ← given head.parent_id
  some (record { type = t; id = id })

abbrev pub thrown {ℓ} : {A : Type ℓ} → Db → Db × Option A
thrown db = (db, none)

-- `base` with `rules` set: the member keeps its place, or is the last.
abbrev pub with_rules : Json → Members → Members
with_rules rules close = member "rules" rules close
with_rules rules (member k v rest) =
    let rest' = with_rules rules rest in
    if str_eq k "rules" then member k rules rest else member k v rest'

abbrev pub object_members : Option Json → Members
object_members none = close
object_members (some content) = members_of content

module _ (h : Hasher) (codec : Codec) (curve : Curve) (cfg : Config) where
  -- The envelope of the private `append`.
  unfoldable pub envelope_of : AppendSpec → Draw → TxEnvelope
  envelope_of spec d = record {
    tx_id = d.tx_id;
    type = spec.type;
    entity_id = spec.entity_id;
    op = spec.op;
    parent_type = spec.parent >>= (λ p. some p.type);
    parent_id = spec.parent >>= (λ p. some p.id);
    parent_revision_tx_id = given spec.parent_revision_tx_id;
    parent_revision_hash = given spec.parent_revision_hash;
    author_pubkey = spec.author;
    signer_pubkey = none;
    sign_scheme = none;
    signature = d.signature;
    webauthn = none;
    created_at = d.created_at;
    prev_hash = spec.prev_hash;
    content_hash = content_commitment h codec (some (str d.tx_id)) d.salt spec.content;
    nullifier = none;
    proof = none;
  }

  unfoldable pub append_spec : Bool → AppendSpec → Draw → Moment → Db → Db × Option Ref
  append_spec ok spec d m db = commit h codec cfg ok (envelope_of spec d) d.salt spec.content m db

  -- No active entity of this author is on the parent.
  abbrev pub has_none : RecordType → String → Option ParentRef → List StoredTx → Bool
  has_none t author none rows = true
  has_none t author (some parent) rows = is_absent (get_active_singleton t author parent.id rows)

  abbrev pub may_create : Resolved → RecordType → String → Option ParentRef → List StoredTx → Bool
  may_create r t author parent rows = if r.singleton then has_none t author parent rows else true

  unfoldable pub create :
      RecordType → String → Json → Option ParentRef → String → Draw → Moment → Db → Db × Option Ref
  create t author content parent entity_id d m db =
      elim (guard (is_absent (get_head_tx entity_id db.store.rows))
        (validate_create h codec curve cfg t content parent entity_id none db.store.rows)) [
          | none ↦ thrown db
          | some r ↦
              append_spec (may_create r t author parent db.store.rows)
                (record {
                  type = t;
                  entity_id = entity_id;
                  op = Op.create;
                  author = author;
                  parent = parent;
                  parent_revision_hash = r.parent_revision_hash;
                  parent_revision_tx_id = r.parent_revision_tx_id;
                  prev_hash = none;
                  content = content;
                })
                d m db
        ]

  -- The next revision of a head.
  abbrev pub revision : StoredTx → String → Op → String → Json → AppendSpec
  revision head entity_id op author content = record {
    type = head.type;
    entity_id = entity_id;
    op = op;
    author = author;
    parent = head_parent head;
    parent_revision_hash = head.parent_revision_hash;
    parent_revision_tx_id = head.parent_revision_tx_id;
    prev_hash = some head.tx_hash;
    content = content;
  }

  unfoldable pub update : String → String → Json → Draw → Moment → Db → Db × Option Ref
  update entity_id author content d m db =
      elim (validate_update h codec curve cfg entity_id author (some content) m.now none
        db.store.rows) [
          | none ↦ thrown db
          | some v ↦ append_spec true (revision v.0 entity_id Op.update author content) d m db
        ]

  unfoldable pub delete : String → String → Draw → Moment → Db → Db × Option Ref
  delete entity_id author d m db =
      elim (validate_delete h codec curve cfg entity_id author m.now none db.store.rows) [
        | none ↦ thrown db
        | some v ↦ append_spec true (revision v.0 entity_id Op.delete author delete_marker) d m db
      ]

  unfoldable pub react : String → ParentRef → String → Draw → Moment → Db → Db × Option Ref
  react author parent kind d m db =
      let content = obj (member "kind" (str kind) close) in
      elim (get_active_singleton (civic reaction) author parent.id db.store.rows) [
        | some entity_id ↦ update entity_id author content d m db
        | none ↦ create (civic reaction) author content (some parent) d.entity_id d m db
      ]

  abbrev pub option_content : String → Json
  option_content option = obj (member "option" (str option) close)

  unfoldable pub cast_vote : String → String → String → Draw → Moment → Db → Db × Option Ref
  cast_vote author poll_id option d m db =
      create (civic vote) author (option_content option)
        (some (record { type = civic poll; id = poll_id })) d.entity_id d m db

  unfoldable pub change_vote : String → String → String → Draw → Moment → Db → Db × Option Ref
  change_vote author poll_id option d m db =
      elim (get_active_singleton (civic vote) author poll_id db.store.rows) [
        | none ↦ thrown db
        | some entity_id ↦ update entity_id author (option_content option) d m db
      ]

  unfoldable pub sign : String → String → Option String → Draw → Moment → Db → Db × Option Ref
  sign author petition_id note d m db =
      let content : Json = elim (given note) [
        | none ↦ obj close
        | some text ↦ obj (member "comment" (str text) close)
      ] in
      create (civic petition_signature) author content
        (some (record { type = civic petition; id = petition_id })) d.entity_id d m db

  unfoldable pub revoke : String → String → Draw → Moment → Db → Db × Option Ref
  revoke author petition_id d m db =
      elim (get_active_singleton (civic petition_signature) author petition_id db.store.rows) [
        | none ↦ thrown db
        | some entity_id ↦ delete entity_id author d m db
      ]

  unfoldable pub update_rules : String → Json → String → Draw → Moment → Db → Db × Option Ref
  update_rules parent_entity_id rules author d m db =
      elim (get_entity_state parent_entity_id db.store.rows) [
        | none ↦ thrown db
        | some state ↦
            update parent_entity_id author (obj (with_rules rules (object_members state.content))) d
              m db
      ]

  -- `prepareAppend` of a creation, and of an update or a deletion.
  pub prepare_create :
      RecordType → Option Json → Option ParentRef → String → List StoredTx → Option Prepared
  prepare_create t content parent entity_id rows =
      guard (is_absent (get_head_tx entity_id rows)) (do
        r ←
            validate_create h codec curve cfg t (content_or_empty content) parent entity_id none
              rows
        some (record {
          prev_hash = none;
          parent_type = none;
          parent_id = none;
          parent_revision_hash = r.parent_revision_hash;
          parent_revision_tx_id = r.parent_revision_tx_id;
          root_entity_id = r.root_entity_id;
          nullifier_parent_id =
              if r.singleton then parent >>= (λ (p : ParentRef). some p.id) else none;
          nullifier = none;
        }))
    where
      content_or_empty : Option Json → Json
      content_or_empty none = obj close
      content_or_empty (some c) = c

  pub prepare_edit : Bool → String → String → Option Json → ℕ → List StoredTx → Option Prepared
  prepare_edit deletion entity_id author content now rows = do
    v ←
        if deletion
        then validate_delete h codec curve cfg entity_id author now none rows
        else validate_update h codec curve cfg entity_id author content now none rows
    some (record {
      prev_hash = some v.0.tx_hash;
      parent_type = v.0.parent_type;
      parent_id = v.0.parent_id;
      parent_revision_hash = v.0.parent_revision_hash;
      parent_revision_tx_id = v.0.parent_revision_tx_id;
      root_entity_id = v.1;
      nullifier_parent_id = none;
      nullifier = v.0.nullifier;
    })
