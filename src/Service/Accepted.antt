-- ===== src/Service/Accepted.antt =====
-- What every operation of the record service does to `record_tx`: nothing, or one row more, which
-- begins an entity or goes on from its head.
pub mod Validated
pub mod Signed
pub mod Unsigned
pub mod Ops
use oursay.Base.{
  ℕ, ◌≡◌, ◌≢◌, refl, sym, ap, ◌∙◌, ◌⊎◌, inl, inr, String, Bool, true, false, not, ◌&&◌, Option,
  none, some, List, [], ◌∷◌, ◌++◌, str_eq, str_eq_iff, Bool-cases, Option-cases, some_inj, arith,
  ◌>>=◌, >>=-eq-some, if◌then◌else◌,
}
use oursay.Crypto.Hash.{Hasher}
use oursay.Crypto.Canonical.{Json, Codec}
use oursay.Schema.Types.{
  TxEnvelope, RecordType, GatedAction, civic, platform_ops, Op, same_type, op_allowed,
}
use oursay.Schema.Content.{is_delete}
use oursay.Ledger.Store.{StoredTx}
use oursay.Record.Append.{append, stored_row, same_hash}
use oursay.Record.Append.Linked.{append_rows, same_hash-eq}
use oursay.Identity.Curve.{Curve}
use oursay.Identity.Envelope.{given}
use oursay.Identity.Tables.{Keys, ThreadKey}
use oursay.Service.State.{is_deleted, is_value, get_head_tx, has_active_singleton_by_nullifier}
use oursay.Service.Config.{Config, Db, Ref, Moment, guard, guard-eq-some, commit, new_tx}
use oursay.Service.Validate.{
  ParentRef, Resolved, validate_create, validate_update, validate_delete, assert_author, root_of,
}
use oursay.Service.Signed.{
  is_absent, parent_of, check_create, nullifier_gate, claim_nullifier, unless_taken, attest,
  check_edit, validate_edit, carries_forward, submit_create, submit, authorize, is_intact,
  append_signed,
}

-- The row begins an entity, or goes on from a head that is not deleted, or of a platform operation.
pub record Begins (rows : List StoredTx) (t : StoredTx) : Type 0 where
  pub is_create : t.op ≡ Op.create
  pub is_new : get_head_tx t.entity_id rows ≡ none
  pub unclaimed :
      (p n : String)
      → t.parent_id ≡ some p
      → given t.nullifier ≡ some n
      → has_active_singleton_by_nullifier p n rows ≡ false

pub record GoesOn (rows : List StoredTx) (t : StoredTx) : Type 0 where
  pub head : StoredTx
  pub is_head : get_head_tx t.entity_id rows ≡ some head
  pub alive : (is_deleted head ≡ false) ⊎ (same_type head.type platform_ops ≡ true)
  pub no_create : t.op ≢ Op.create
  pub carried :
      (given t.nullifier ≡ none) ⊎ ((t.nullifier ≡ head.nullifier) × (t.parent_id ≡ head.parent_id))

pub record Extends (rows : List StoredTx) (t : StoredTx) : Type 0 where
  pub from : Begins rows t ⊎ GoesOn rows t
  pub deletes_no_ops : is_deleted t ≡ true → same_type t.type platform_ops ≡ false

pub data Outcome (rows rows' : List StoredTx) : Type 0 where
  kept : rows' ≡ rows → Outcome rows rows'
  grown : (t : StoredTx) → rows' ≡ rows ++ (t ∷ []) → Extends rows t → Outcome rows rows'

pub is_absent-none {ℓ} : {A : Type ℓ} (o : Option A) → is_absent o ≡ true → o ≡ none
is_absent-none none e = refl
is_absent-none (some x) e = absurd (cc)

civic_is_no_ops : (a : GatedAction) → same_type (civic a) platform_ops ≡ false
civic_is_no_ops GatedAction.post = refl
civic_is_no_ops GatedAction.petition = refl
civic_is_no_ops GatedAction.poll = refl
civic_is_no_ops GatedAction.result = refl
civic_is_no_ops GatedAction.comment = refl
civic_is_no_ops GatedAction.reaction = refl
civic_is_no_ops GatedAction.vote = refl
civic_is_no_ops GatedAction.petition_signature = refl

pub op_allowed-delete :
    (t : RecordType) → op_allowed t Op.delete ≡ true → same_type t platform_ops ≡ false
unfolding op_allowed
op_allowed-delete platform_ops e = absurd (cc)
op_allowed-delete (civic a) e = civic_is_no_ops a

-- The empty text is none, and another text is itself.
pub given-some : (o : Option String) (s : String) → given o ≡ some s → o ≡ some s
given-some none s e = absurd (cc)
given-some (some t) s e = elim (Bool-cases (str_eq t "")) [
  | inl y ↦ let absent : none ≡ some s = rw y at e in absurd (cc)
  | inr n ↦ rw n at e
]

module _ (h : Hasher) (codec : Codec) (cfg : Config) where
  -- An operation that commits extends the rows, if the row that it appends does.
  pub commit-Outcome :
      (ok : Bool) (env : TxEnvelope) (salt : String) (content : Json) (m : Moment) (db : Db)
      → ((seq : ℕ)
          → ok ≡ true
          → Extends db.store.rows
              (stored_row h codec (new_tx env salt content) cfg.chain_id seq m.now))
      → Outcome db.store.rows (commit h codec cfg ok env salt content m db).0.store.rows
  unfolding commit
  commit-Outcome false env salt content m db ext = kept refl
  commit-Outcome true env salt content m db ext =
      let x = new_tx env salt content in
      elim (Option-cases (append h codec x cfg.chain_id m.now m.ledger db.store)) [
        | inl e ↦ rw e (kept refl)
        | inr (s', e) ↦
            let rows = append_rows h codec x cfg.chain_id m.now m.ledger db.store s' e in
            rw e (
              grown (stored_row h codec x cfg.chain_id db.store.next_seq m.now) rows.1
                (ext db.store.next_seq refl))
      ]
