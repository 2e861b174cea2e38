-- ===== src/Service/Attested/Kept.antt =====
-- What every call of the service keeps of the attested nullifiers.
use oursay.Base.{
  ◌∙◌, ◌≡◌, ◌≢◌, refl, inl, inr, String, Bool, true, false, Option, none, some, List, str_eq,
  str_eq_iff, Bool-cases, Option-cases, some_inj, >>=-eq-some,
}
use oursay.Crypto.Hash.{Hasher}
use oursay.Crypto.Canonical.{Json, Codec}
use oursay.Schema.Types.{TxEnvelope, Op, RecordType}
use oursay.Ledger.Store.{StoredTx}
use oursay.Record.Append.{append}
use oursay.Identity.Curve.{Curve}
use oursay.Identity.Envelope.{given}
use oursay.Identity.Platform.{sign_nullifier_attestation}
use oursay.Identity.Tables.{
  Keys, ThreadKey, NullifierAttestation, attest_nullifier, get_attested_nullifier,
}
use oursay.Service.Config.{Config, Db, Moment, commit, new_tx, guard}
use oursay.Service.Validate.{ParentRef, validate_create, validate_update, validate_delete}
use oursay.Service.Signed.{
  is_absent, delete_marker, parent_of, check_create, check_edit, nullifier_gate, claim_nullifier,
  unless_taken, attest, submit_create, submit, authorize, append_signed,
}
use oursay.Service.State.{get_head_tx}
use oursay.Service.Unsigned.{
  AppendSpec, Draw, create, update, delete, append_spec, envelope_of, may_create, revision,
}
use oursay.Service.Ops.{append_platform_ops, ops_ok}
use oursay.Service.Reach.{Call, signed, ops, creation, change, deletion, run, Reach, here, after}

-- A property of the tables of keys that every attestation of a nullifier that is not empty keeps.
abbrev pub IsKept : (Keys → Type 0) → Type 0
IsKept P =
    (row : NullifierAttestation) (k k' : Keys)
    → row.nullifier ≢ ""
    → attest_nullifier row k ≡ some k'
    → P k
    → P k'

pub given_not_empty : (o : Option String) (n : String) → given o ≡ some n → n ≢ ""
given_not_empty none n e empty = absurd (cc)
given_not_empty (some s) n e empty = elim (Bool-cases (str_eq s "")) [
  | inl y ↦ let stuck : none ≡ some n = rw y at e in absurd (cc)
  | inr k ↦
      let same : some s ≡ some n = rw k at e in
      let is_empty : str_eq s "" ≡ true = (str_eq_iff s "").1 (some_inj same ∙ empty) in
      absurd (cc (is_empty, k))
]

module _ (h : Hasher) (codec : Codec) (curve : Curve) (cfg : Config) (P : Keys → Type 0)
    (kept : IsKept P) where
  unless_taken_keeps :
      (p n : String) (rows : List StoredTx) (before : Keys) (o : Option Keys)
      → P before
      → ((k : Keys) → o ≡ some k → P k)
      → P (unless_taken h codec curve cfg p n rows before o).0
  unless_taken_keeps p n rows before none one after_it = one
  unless_taken_keeps p n rows before (some k) one after_it = after_it k refl

  attest_keeps :
      (user p n : String) (k k' : Keys)
      → n ≢ ""
      → attest h codec curve cfg user p n k ≡ some k'
      → P k
      → P k'
  unfolding attest
  attest_keeps user p n k k' filled e one =
      let (priv, configured, e1) = >>=-eq-some (given cfg.platform_priv_key_hex) _ e in
      let (sig, done, e2) = >>=-eq-some (sign_nullifier_attestation h codec curve p n priv) _ e1 in
      kept (record { user_id = user; parent_id = p; nullifier = n; platform_sig = sig }) k k' filled
        e2 one

  claim_nullifier_keeps :
      (tk : ThreadKey) (p n : String) (rows : List StoredTx) (k : Keys)
      → n ≢ ""
      → P k
      → P (claim_nullifier h codec curve cfg tk p n rows k).0
  unfolding claim_nullifier
  claim_nullifier_keeps tk p n rows k filled one =
      elim (Option-cases (given (get_attested_nullifier tk.user_id p k))) [
        | inl first ↦
            rw (first, claim_nullifier)
              (unless_taken_keeps p n rows k (attest h codec curve cfg tk.user_id p n k) one
                (λ k' e. attest_keeps tk.user_id p n k k' filled e one))
        | inr (attested, again) ↦ elim (Bool-cases (str_eq attested n)) [
          | inl same ↦ rw (again, same, claim_nullifier) one
          | inr other ↦ rw (again, other, claim_nullifier) one
        ]
      ]

  nullifier_gate_keeps :
      (singleton : Bool) (parent : Option ParentRef) (nullifier : Option String) (tk : ThreadKey)
      (rows : List StoredTx) (k : Keys)
      → ((n : String) → nullifier ≡ some n → n ≢ "")
      → P k
      → P (nullifier_gate h codec curve cfg singleton parent nullifier tk rows k).0
  unfolding nullifier_gate
  nullifier_gate_keeps false parent nullifier tk rows k filled one = one
  nullifier_gate_keeps true none nullifier tk rows k filled one = one
  nullifier_gate_keeps true (some p) none tk rows k filled one = one
  nullifier_gate_keeps true (some p) (some n) tk rows k filled one =
      claim_nullifier_keeps tk p.id n rows k (filled n refl) one

  -- A commit leaves the tables of keys as they are.
  pub commit-keys :
      (ok : Bool) (env : TxEnvelope) (salt : String) (content : Json) (m : Moment) (db : Db)
      → (commit h codec cfg ok env salt content m db).0.keys ≡ db.keys
  unfolding commit
  commit-keys false env salt content m db = refl
  commit-keys true env salt content m db =
      elim (Option-cases
        (append h codec (new_tx env salt content) cfg.chain_id m.now m.ledger db.store)) [
          | inl e ↦ rw e refl
          | inr (s', e) ↦ rw e refl
        ]

  submit_keeps :
      (op : Op) (env : TxEnvelope) (salt : String) (content : Json) (tk : ThreadKey) (m : Moment)
      (db : Db)
      → P db.keys
      → P (submit h codec curve cfg op env salt content tk m db).0.keys
  unfolding submit_create
  submit_keeps Op.create env salt content tk m db one =
      elim (Option-cases (check_create h codec curve cfg env content tk db.store.rows)) [
        | inl refused ↦ rw (refused, submit_create) one
        | inr (s, checked) ↦
            let gate =
              nullifier_gate h codec curve cfg s (parent_of env) (given env.nullifier) tk
                db.store.rows db.keys in
            rw
              (
                checked,
                submit_create,
                commit-keys gate.1 env salt content m (record db { keys = gate.0 }),
              )
              (nullifier_gate_keeps s (parent_of env) (given env.nullifier) tk db.store.rows db.keys
                (λ n e. given_not_empty env.nullifier n e) one)
      ]
  submit_keeps Op.update env salt content tk m db one =
      rw
        (commit-keys (check_edit h codec curve cfg env content tk m.now db.store.rows) env salt
          content m db)
        one
  submit_keeps Op.delete env salt content tk m db one =
      rw
        (commit-keys (check_edit h codec curve cfg env content tk m.now db.store.rows) env salt
          content m db)
        one

  pub append_signed_keeps :
      (env : TxEnvelope) (salt : String) (content : Json) (m : Moment) (db : Db)
      → P db.keys
      → P (append_signed h codec curve cfg env salt content m db).0.keys
  unfolding append_signed
  append_signed_keeps env salt content m db one =
      elim (Option-cases (authorize h codec curve cfg env salt content m.now db.keys)) [
        | inl refused ↦ rw (refused, append_signed) one
        | inr (tk, passed) ↦
            rw (passed, append_signed) (submit_keeps env.op env salt content tk m db one)
      ]

  -- The other operations leave the tables of keys as they are.
  spec-keys :
      (ok : Bool) (spec : AppendSpec) (d : Draw) (m : Moment) (db : Db)
      → (append_spec h codec curve cfg ok spec d m db).0.keys ≡ db.keys
  unfolding append_spec
  spec-keys ok spec d m db =
      commit-keys ok (envelope_of h codec curve cfg spec d) d.salt spec.content m db

  create-keys :
      (t : RecordType) (author : String) (content : Json) (parent : Option ParentRef)
      (entity_id : String) (d : Draw) (m : Moment) (db : Db)
      → (create h codec curve cfg t author content parent entity_id d m db).0.keys ≡ db.keys
  unfolding create
  create-keys t author content parent entity_id d m db =
      let rows = db.store.rows in
      elim (Option-cases (
        guard (is_absent (get_head_tx entity_id rows))
          (validate_create h codec curve cfg t content parent entity_id none rows))) [
            | inl refused ↦ rw (refused, create) refl
            | inr (r, e) ↦
                rw (e, create)
                  (spec-keys (may_create h codec curve cfg r t author parent rows) _ d m db)
          ]

  update-keys :
      (entity_id author : String) (content : Json) (d : Draw) (m : Moment) (db : Db)
      → (update h codec curve cfg entity_id author content d m db).0.keys ≡ db.keys
  unfolding update
  update-keys entity_id author content d m db =
      elim (Option-cases (
        validate_update h codec curve cfg entity_id author (some content) m.now none
          db.store.rows)) [
            | inl refused ↦ rw (refused, update) refl
            | inr (v, e) ↦
                rw (e, update)
                  (spec-keys true
                    (revision h codec curve cfg v.0 entity_id Op.update author content) d m db)
          ]

  delete-keys :
      (entity_id author : String) (d : Draw) (m : Moment) (db : Db)
      → (delete h codec curve cfg entity_id author d m db).0.keys ≡ db.keys
  unfolding delete
  delete-keys entity_id author d m db =
      elim (Option-cases
        (validate_delete h codec curve cfg entity_id author m.now none db.store.rows)) [
          | inl refused ↦ rw (refused, delete) refl
          | inr (v, e) ↦
              rw (e, delete)
                (spec-keys true
                  (revision h codec curve cfg v.0 entity_id Op.delete author delete_marker) d m db)
        ]

  run_keeps :
      (call : Call h codec curve cfg) (m : Moment) (db : Db)
      → P db.keys
      → P (run h codec curve cfg call m db).keys
  unfolding run append_platform_ops
  run_keeps (signed env salt content) m db one = append_signed_keeps env salt content m db one
  run_keeps (ops env salt content verify_admin) m db one =
      rw
        (commit-keys (ops_ok h codec curve cfg env salt content verify_admin m db) env salt content
          m db)
        one
  run_keeps (creation t author content parent entity_id d) m db one =
      rw (create-keys t author content parent entity_id d m db) one
  run_keeps (change entity_id author content d) m db one =
      rw (update-keys entity_id author content d m db) one
  run_keeps (deletion entity_id author d) m db one = rw (delete-keys entity_id author d m db) one

  pub Reach_keeps : (start db : Db) → P start.keys → Reach h codec curve cfg start db → P db.keys
  Reach_keeps start _ one here = one
  Reach_keeps start db one (after {db = before} r call m) =
      run_keeps call m before (Reach_keeps start before one r)
