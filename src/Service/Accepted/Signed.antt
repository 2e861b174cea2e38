-- ===== src/Service/Accepted/Signed.antt =====
-- `appendSigned` extends the rows by one that begins an entity or goes on from its head.
use oursay.Base.{
  not-true, ℕ, ◌≡◌, ◌≢◌, refl, sym, ap, ◌∙◌, ◌⊎◌, inl, inr, String, Bool, true, false, not, ◌&&◌,
  Option, none, some, List, str_eq, Bool-cases, Option-cases, some_inj, arith, >>=-eq-some,
}
use oursay.Crypto.Hash.{Hasher}
use oursay.Crypto.Canonical.{Json, Codec}
use oursay.Schema.Types.{TxEnvelope, RecordType, platform_ops, Op, same_type, is_singleton}
use oursay.Schema.Content.{is_delete}
use oursay.Ledger.Store.{StoredTx}
use oursay.Record.Append.{stored_row, same_hash, is_null}
use oursay.Record.Append.Linked.{same_hash-eq}
use oursay.Identity.Curve.{Curve}
use oursay.Identity.Envelope.{given, is_given}
use oursay.Identity.Platform.{verify_thread_binding}
use oursay.Identity.Tables.{Keys, ThreadKey, get_attested_nullifier}
use oursay.Service.State.{get_head_tx, has_active_singleton_by_nullifier}
use oursay.Service.Config.{Config, Db, Moment, guard-eq-some, commit, new_tx}
use oursay.Service.Validate.{ParentRef, validate_update, validate_delete}
use oursay.Service.Signed.{
  is_absent, parent_of, check_create, nullifier_gate, claim_nullifier, unless_taken, attest,
  check_edit, validate_edit, same_parent_type, marker_ok, submit, carries_forward, submit_create,
  authorize, append_signed, is_intact, is_fresh,
}
use oursay.Service.Accepted.{
  GoesOn, Extends, Outcome, kept, is_absent-none, given-some, commit-Outcome,
}
use oursay.Service.Accepted.Validated.{IsValid, validate_update-IsValid, validate_delete-IsValid}

-- The nullifier that a creation carries is one that no active entity of its parent bears.
abbrev pub IsClaimed : Option ParentRef → Option String → List StoredTx → Type 0
IsClaimed parent nullifier rows =
    (nullifier ≡ none)
    ⊎ ((p : ParentRef) × (n : String) × (parent ≡ some p)
        × (nullifier ≡ some n)
        × (has_active_singleton_by_nullifier p.id n rows ≡ false))

pub is_given-none : (o : Option String) → not (is_given o) ≡ true → given o ≡ none
is_given-none none e = refl
is_given-none (some s) e = elim (Bool-cases (str_eq s "")) [
  | inl y ↦ rw y refl
  | inr n ↦ let refused : false ≡ true = rw n at e in absurd (cc)
]

parent_of-id :
    (env : TxEnvelope) (p : ParentRef) → parent_of env ≡ some p → given env.parent_id ≡ some p.id
parent_of-id env p e =
    let (t, typed, e') = >>=-eq-some env.parent_type _ e in
    let (id, named, e'') = >>=-eq-some (given env.parent_id) _ e' in
    named ∙ ap some (ap (λ (q : ParentRef). q.id) (some_inj e''))

module _ (h : Hasher) (codec : Codec) (curve : Curve) (cfg : Config) where
  unless_taken-free :
      (p n : String) (rows : List StoredTx) (before : Keys) (o : Option Keys)
      → (unless_taken h codec curve cfg p n rows before o).1 ≡ true
      → has_active_singleton_by_nullifier p n rows ≡ false
  unless_taken-free p n rows before none e = absurd (cc)
  unless_taken-free p n rows before (some keys) e =
      not-true (has_active_singleton_by_nullifier p n rows) e

  claim_nullifier-free :
      (tk : ThreadKey) (p n : String) (rows : List StoredTx) (keys : Keys)
      → (claim_nullifier h codec curve cfg tk p n rows keys).1 ≡ true
      → has_active_singleton_by_nullifier p n rows ≡ false
  unfolding claim_nullifier
  claim_nullifier-free tk p n rows keys e =
      elim (Option-cases (given (get_attested_nullifier tk.user_id p keys))) [
        | inl first ↦
            let tried = attest h codec curve cfg tk.user_id p n keys in
            let e' : (unless_taken h codec curve cfg p n rows keys tried).1 ≡ true =
              rw (first, claim_nullifier) at e in
            unless_taken-free p n rows keys tried e'
        | inr (attested, again) ↦ elim (Bool-cases (str_eq attested n)) [
          | inl same ↦
              let e' : (unless_taken h codec curve cfg p n rows keys (some keys)).1 ≡ true =
                rw (again, same, claim_nullifier) at e in
              unless_taken-free p n rows keys (some keys) e'
          | inr other ↦
              let refused : false ≡ true = rw (again, other, claim_nullifier) at e in absurd (cc)
        ]
      ]

  nullifier_gate-IsClaimed :
      (singleton : Bool) (parent : Option ParentRef) (nullifier : Option String) (tk : ThreadKey)
      (rows : List StoredTx) (keys : Keys)
      → (nullifier_gate h codec curve cfg singleton parent nullifier tk rows keys).1 ≡ true
      → IsClaimed parent nullifier rows
  unfolding nullifier_gate
  nullifier_gate-IsClaimed false parent nullifier tk rows keys e = inl (is_absent-none nullifier e)
  nullifier_gate-IsClaimed true none nullifier tk rows keys e = absurd (cc)
  nullifier_gate-IsClaimed true (some p) none tk rows keys e = absurd (cc)
  nullifier_gate-IsClaimed true (some p) (some n) tk rows keys e =
      inr (p, n, refl, refl, claim_nullifier-free tk p.id n rows keys e)

  check_create-is_new :
      (env : TxEnvelope) (content : Json) (tk : ThreadKey) (rows : List StoredTx) {s : Bool}
      → check_create h codec curve cfg env content tk rows ≡ some s
      → get_head_tx env.entity_id rows ≡ none
  unfolding check_create
  check_create-is_new env content tk rows e =
      let found = is_absent (get_head_tx env.entity_id rows) in
      let (passed, rest) = guard-eq-some (is_null env.prev_hash && found) _ e in
      is_absent-none (get_head_tx env.entity_id rows) (ground (arith, passed))

  -- A creation whose nullifier is claimed begins an entity.
  creation-Extends :
      (env : TxEnvelope) (salt : String) (content : Json) (rows : List StoredTx) (seq now : ℕ)
      → env.op ≡ Op.create
      → get_head_tx env.entity_id rows ≡ none
      → IsClaimed (parent_of env) (given env.nullifier) rows
      → Extends rows (stored_row h codec (new_tx env salt content) cfg.chain_id seq now)
  unfolding stored_row new_tx
  creation-Extends env salt content rows seq now is_create is_new claimed = record {
    from = inl (record {
      is_create = is_create;
      is_new = is_new;
      unclaimed = λ p n at_parent bears. elim claimed [
        | inl no_nullifier ↦ absurd (cc)
        | inr (q, m, named, borne, free) ↦
            let parent : some p ≡ some q.id =
              sym at_parent ∙ given-some env.parent_id q.id (parent_of-id env q named) in
            let same : n ≡ m = some_inj (sym bears ∙ borne) in rw (some_inj parent, same) free
      ];
    });
    deletes_no_ops = λ d. let no_delete : false ≡ true = rw is_create at d in absurd (cc);
  }

  validate_edit-IsValid :
      (env : TxEnvelope) (content : Json) (tk : ThreadKey) (now : ℕ) (rows : List StoredTx)
      {v : StoredTx × String}
      → validate_edit h codec curve cfg env content tk now rows ≡ some v
      → (op : Op) × IsValid env.entity_id env.author_pubkey op rows v
  validate_edit-IsValid env content tk now rows {v = v} e = elim (Bool-cases (is_delete env.op)) [
    | inl d ↦
        let e' : validate_delete h codec curve cfg env.entity_id env.author_pubkey now
              (some tk.jurisdiction) rows
            ≡ some v =
          rw d at e in
        (
          Op.delete,
          validate_delete-IsValid h codec curve cfg env.entity_id env.author_pubkey now
              (some tk.jurisdiction) rows e',
        )
    | inr u ↦
        let e' : validate_update h codec curve cfg env.entity_id env.author_pubkey (some content)
              now (some tk.jurisdiction) rows
            ≡ some v =
          rw u at e in
        (
          Op.update,
          validate_update-IsValid h codec curve cfg env.entity_id env.author_pubkey (some content)
              now (some tk.jurisdiction) rows e',
        )
  ]

  carries_forward-same :
      (t : RecordType) (before after : Option String)
      → carries_forward h codec curve cfg t before after ≡ true
      → (given after ≡ none) ⊎ (after ≡ before)
  unfolding carries_forward
  carries_forward-same t before after e = elim (Bool-cases (is_singleton t)) [
    | inl y ↦
        let e' : (is_given before && same_hash after before) ≡ true = rw y at e in
        inr (same_hash-eq after before (ground (arith, e')))
    | inr n ↦ let e' : not (is_given after) ≡ true = rw n at e in inl (is_given-none after e')
  ]

  -- What a checked update or deletion goes on from.
  check_edit-GoesOn :
      (env : TxEnvelope) (salt : String) (content : Json) (tk : ThreadKey) (rows : List StoredTx)
      (seq now : ℕ)
      → env.op ≢ Op.create
      → check_edit h codec curve cfg env content tk now rows ≡ true
      → GoesOn rows (stored_row h codec (new_tx env salt content) cfg.chain_id seq now)
  unfolding check_edit stored_row new_tx
  check_edit-GoesOn env salt content tk rows seq now no_create e =
      elim (Option-cases (validate_edit h codec curve cfg env content tk now rows)) [
        | inl refused ↦ let stuck : false ≡ true = rw (refused, check_edit) at e in absurd (cc)
        | inr (v, found) ↦
            let kept = carries_forward h codec curve cfg v.0.type v.0.nullifier env.nullifier in
            let parent = same_hash env.parent_id v.0.parent_id in
            let named = same_hash env.prev_hash (some v.0.tx_hash) in
            let types = same_parent_type env.parent_type v.0.parent_type in
            let revisions = same_hash env.parent_revision_hash v.0.parent_revision_hash in
            let marked = marker_ok h codec curve cfg env.op content in
            let scoped = str_eq tk.thread_id v.1 in
            let e' : (named && (scoped && ((types && (parent && revisions)) && (marked && kept))))
                ≡ true =
              rw (found, check_edit) at e in
            let (op, valid) = validate_edit-IsValid env content tk now rows found in
            let same_parent = same_hash-eq env.parent_id v.0.parent_id (ground (arith, e')) in
            record {
              head = v.0;
              is_head = valid.is_head;
              alive = inl valid.alive;
              no_create = no_create;
              carried =
                  elim (carries_forward-same v.0.type v.0.nullifier env.nullifier
                    (ground (arith, e'))) [
                      | inl no_nullifier ↦ inl no_nullifier
                      | inr same ↦ inr (same, same_parent)
                    ];
            }
      ]

  -- The outcome of a creation behind the authorization, and of the other operations.
  submit_create-Outcome :
      (env : TxEnvelope) (salt : String) (content : Json) (tk : ThreadKey) (m : Moment) (db : Db)
      → env.op ≡ Op.create
      → Outcome db.store.rows
          (submit_create h codec curve cfg env salt content tk m db).0.store.rows
  unfolding submit_create
  submit_create-Outcome env salt content tk m db is_create =
      let rows = db.store.rows in
      elim (Option-cases (check_create h codec curve cfg env content tk rows)) [
        | inl refused ↦ rw (refused, submit_create) (kept refl)
        | inr (s, checked) ↦
            let gate =
              nullifier_gate h codec curve cfg s (parent_of env) (given env.nullifier) tk rows
                db.keys in
            rw (checked, submit_create)
              (commit-Outcome h codec cfg gate.1 env salt content m (record db { keys = gate.0 })
                (λ seq passed.
                  creation-Extends env salt content rows seq m.now is_create
                    (check_create-is_new env content tk rows checked)
                    (nullifier_gate-IsClaimed s (parent_of env) (given env.nullifier) tk rows
                      db.keys passed)))
      ]

  edit-Outcome :
      (env : TxEnvelope) (salt : String) (content : Json) (tk : ThreadKey) (m : Moment) (db : Db)
      → env.op ≢ Op.create
      → same_type env.type platform_ops ≡ false
      → Outcome db.store.rows
          (commit h codec cfg
            (check_edit h codec curve cfg env content tk m.now db.store.rows)
            env
            salt
            content
            m
            db).0.store.rows
  unfolding stored_row new_tx
  edit-Outcome env salt content tk m db no_create no_ops =
      let rows = db.store.rows in
      commit-Outcome h codec cfg (check_edit h codec curve cfg env content tk m.now rows) env salt
        content m db
        (λ seq passed. record {
          from = inr (check_edit-GoesOn env salt content tk rows seq m.now no_create passed);
          deletes_no_ops = λ d. no_ops;
        })

  submit-Outcome :
      (op : Op) (env : TxEnvelope) (salt : String) (content : Json) (tk : ThreadKey) (m : Moment)
      (db : Db)
      → env.op ≡ op
      → same_type env.type platform_ops ≡ false
      → Outcome db.store.rows (submit h codec curve cfg op env salt content tk m db).0.store.rows
  submit-Outcome Op.create env salt content tk m db is_op no_ops =
      submit_create-Outcome env salt content tk m db is_op
  submit-Outcome Op.update env salt content tk m db is_op no_ops =
      edit-Outcome env salt content tk m db (λ c. cc (is_op, c)) no_ops
  submit-Outcome Op.delete env salt content tk m db is_op no_ops =
      edit-Outcome env salt content tk m db (λ c. cc (is_op, c)) no_ops

  authorize-no_ops :
      (env : TxEnvelope) (salt : String) (content : Json) (now : ℕ) (keys : Keys) {tk : ThreadKey}
      → authorize h codec curve cfg env salt content now keys ≡ some tk
      → same_type env.type platform_ops ≡ false
  unfolding authorize is_intact
  authorize-no_ops env salt content now keys e =
      let (pub_hex, configured, e') = >>=-eq-some (given cfg.platform_pub_key_hex) _ e in
      let intact = is_intact h codec curve cfg env salt content in
      let bound = verify_thread_binding h codec curve keys env.author_pubkey pub_hex in
      let fresh = is_fresh h codec curve cfg env.created_at now in
      let (passed, e'') = guard-eq-some (intact && (bound && fresh)) _ e' in
      not-true (same_type env.type platform_ops) (ground (arith, passed))

  pub append_signed-Outcome :
      (env : TxEnvelope) (salt : String) (content : Json) (m : Moment) (db : Db)
      → Outcome db.store.rows (append_signed h codec curve cfg env salt content m db).0.store.rows
  unfolding append_signed
  append_signed-Outcome env salt content m db =
      elim (Option-cases (authorize h codec curve cfg env salt content m.now db.keys)) [
        | inl refused ↦ rw (refused, append_signed) (kept refl)
        | inr (tk, passed) ↦
            rw (passed, append_signed)
              (submit-Outcome env.op env salt content tk m db refl
                (authorize-no_ops env salt content m.now db.keys passed))
      ]
