-- ===== src/Service/Signed.antt =====
-- `appendSigned` and `verifyCivicCredential` of public-record/src/record.ts.
use oursay.Base.{
  ℕ, ◌+◌, ◌*◌, String, Bool, true, false, not, ◌&&◌, ◌||◌, Option, none, some, List, ltb, ◌==◌,
  str_eq, if◌then◌else◌, ◌>>=◌,
}
use oursay.Crypto.Hash.{Hasher}
use oursay.Crypto.Canonical.{
  Json, Codec, content_commitment, canonical_json, str, bool, obj, member, close,
}
use oursay.Schema.Types.{
  TxEnvelope, RecordType, platform_ops, SignScheme, p256, webauthn_es256, Op, create, update,
  delete, same_type, is_singleton,
}
use oursay.Schema.Content.{is_delete}
use oursay.Policy.Jurisdiction.{required_sign_scheme}
use oursay.Ledger.Store.{StoredTx}
use oursay.Record.Append.{same_hash, is_null}
use oursay.Identity.Curve.{Curve}
use oursay.Identity.Envelope.{given, is_given, scheme_or_p256, verify_envelope}
use oursay.Identity.Platform.{
  verify_thread_binding, verify_credential_auth, sign_nullifier_attestation,
}
use oursay.Identity.Tables.{
  Keys, ThreadKey, ThreadCredential, get_thread_key, get_thread_binding, get_thread_credential,
  get_thread_signer, get_attested_nullifier, attest_nullifier,
}
use oursay.Service.State.{get_head_tx, has_active_singleton_by_nullifier}
use oursay.Service.Config.{Config, Db, Ref, Moment, guard, commit}
use oursay.Service.Validate.{ParentRef, validate_create, validate_update, validate_delete}

abbrev pub is_absent {ℓ} : {A : Type ℓ} → Option A → Bool
is_absent none = true
is_absent (some x) = false

abbrev pub same_scheme : SignScheme → SignScheme → Bool
same_scheme p256 p256 = true
same_scheme webauthn_es256 webauthn_es256 = true
same_scheme _ _ = false

abbrev pub same_parent_type : Option RecordType → Option RecordType → Bool
same_parent_type none none = true
same_parent_type (some a) (some b) = same_type a b
same_parent_type _ _ = false

-- The parent that an envelope names.
abbrev pub parent_of : TxEnvelope → Option ParentRef
parent_of env = do
  t ← env.parent_type
  id ← given env.parent_id
  some (record { type = t; id = id })

-- `DELETE_MARKER`.
abbrev pub delete_marker : Json
delete_marker = obj (member "deleted" (bool true) close)

module _ (h : Hasher) (codec : Codec) (curve : Curve) (cfg : Config) where
  -- The fields that a scheme demands and forbids.
  abbrev pub shape_ok : TxEnvelope → SignScheme → Bool
  shape_ok env webauthn_es256 =
      not (is_absent env.webauthn) && (is_given env.signer_pubkey && str_eq env.signature "")
  shape_ok env p256 =
      is_absent env.webauthn && (not cfg.require_device_signer || is_given env.signer_pubkey)

  abbrev pub in_window : Option ℕ → ℕ → Bool
  in_window none now = false
  in_window (some created_at) now =
      not (ltb (created_at + cfg.signed_envelope_max_age_sec * 1000) now)
      && not (ltb (now + cfg.signed_envelope_future_skew_sec * 1000) created_at)

  -- The freshness gate: an age of 0 turns it off.
  unfoldable pub is_fresh : String → ℕ → Bool
  is_fresh created_at now =
      cfg.signed_envelope_max_age_sec == 0 || in_window (curve.date_parse created_at) now

  abbrev pub meets : Option SignScheme → SignScheme → Bool
  meets none scheme = true
  meets (some need) scheme = same_scheme need scheme

  -- The signing floor of the type in the jurisdiction of the thread.
  unfoldable pub policy_ok : RecordType → String → SignScheme → Bool
  policy_ok t jurisdiction scheme =
      not cfg.enforce_signing_policy
      || meets (required_sign_scheme t (some jurisdiction) cfg.jurisdictions) scheme

  abbrev pub credential_attested : String → ThreadCredential → Keys → Bool
  credential_attested signer_pubkey cred keys = elim (get_thread_binding cred.persona_pubkey keys) [
    | none ↦ false
    | some binding ↦ elim cfg.platform_pub_key_hex [
      | none ↦ false
      | some pub_hex ↦
          verify_credential_auth h codec curve
            (record {
              persona_pubkey = cred.persona_pubkey;
              credential_pubkey = signer_pubkey;
              thread_id = cred.thread_id;
              jurisdiction = cred.jurisdiction;
              commitment = binding.commitment;
            })
            cred.credential_sig pub_hex
    ]
  ]

  abbrev pub credential_ok : String → String → ThreadKey → Keys → ThreadCredential → Bool
  credential_ok signer_pubkey author_pubkey tk keys cred =
      not cred.revoked
      && (str_eq cred.persona_pubkey author_pubkey
          && (str_eq cred.user_id tk.user_id
              && (str_eq cred.thread_id tk.thread_id
                  && credential_attested signer_pubkey cred keys)))

  unfoldable pub verify_civic_credential : String → String → ThreadKey → Keys → Bool
  verify_civic_credential signer_pubkey author_pubkey tk keys =
      elim (get_thread_credential signer_pubkey keys) [
        | none ↦ false
        | some cred ↦ credential_ok signer_pubkey author_pubkey tk keys cred
      ]

  -- The signer of the earlier table: of the user and the thread, and not revoked.
  unfoldable pub legacy_signer_ok : String → ThreadKey → Keys → Bool
  legacy_signer_ok signer_pubkey tk keys = elim (get_thread_signer signer_pubkey keys) [
    | none ↦ false
    | some s ↦ not s.revoked && (str_eq s.user_id tk.user_id && str_eq s.thread_id tk.thread_id)
  ]

  -- A signer of a p256 envelope: by its credential, if it has one.
  abbrev pub p256_signer_ok : String → String → ThreadKey → Keys → Bool
  p256_signer_ok signer author_pubkey tk keys = elim (get_thread_credential signer keys) [
    | none ↦ legacy_signer_ok signer tk keys
    | some cred ↦ verify_civic_credential signer author_pubkey tk keys
  ]

  unfoldable pub signer_ok : SignScheme → Option String → String → ThreadKey → Keys → Bool
  signer_ok webauthn_es256 none author_pubkey tk keys = false
  signer_ok webauthn_es256 (some signer) author_pubkey tk keys =
      verify_civic_credential signer author_pubkey tk keys
  signer_ok p256 none author_pubkey tk keys = true
  signer_ok p256 (some signer) author_pubkey tk keys = p256_signer_ok signer author_pubkey tk keys

  -- The checks before the envelope's author is looked up.
  unfoldable pub is_intact : TxEnvelope → String → Json → Bool
  is_intact env salt content =
      not (same_type env.type platform_ops)
      && (is_absent env.proof
          && (shape_ok env (scheme_or_p256 env.sign_scheme)
              && (verify_envelope h codec curve env
                  && str_eq (content_commitment h codec (some (str env.tx_id)) salt content)
                      env.content_hash)))

  -- The checks that every operation passes: the key of the thread in which it acts.
  unfoldable pub authorize : TxEnvelope → String → Json → ℕ → Keys → Option ThreadKey
  authorize env salt content now keys = do
    pub_hex ← given cfg.platform_pub_key_hex
    guard
        (is_intact env salt content
          && (verify_thread_binding h codec curve keys env.author_pubkey pub_hex
              && is_fresh env.created_at now))
        (do
          tk ← get_thread_key env.author_pubkey keys
          guard
              (policy_ok env.type tk.jurisdiction (scheme_or_p256 env.sign_scheme)
                && signer_ok (scheme_or_p256 env.sign_scheme) (given env.signer_pubkey)
                    env.author_pubkey tk keys)
              (some tk))

  -- The checks of a creation before its nullifier: whether it is a singleton.
  unfoldable pub check_create : TxEnvelope → Json → ThreadKey → List StoredTx → Option Bool
  check_create env content tk rows =
      guard (is_null env.prev_hash && is_absent (get_head_tx env.entity_id rows)) (do
        r ←
            validate_create h codec curve cfg env.type content (parent_of env) env.entity_id
              (some tk.jurisdiction) rows
        guard
            (str_eq tk.thread_id r.root_entity_id
              && same_hash env.parent_revision_hash r.parent_revision_hash)
            (some r.singleton))

  -- The platform's first attestation of a nullifier; `none`: it throws.
  unfoldable pub attest : String → String → String → Keys → Option Keys
  attest user_id parent_id nullifier keys = do
    priv_hex ← given cfg.platform_priv_key_hex
    sig ← sign_nullifier_attestation h codec curve parent_id nullifier priv_hex
    attest_nullifier
        (record {
          user_id = user_id;
          parent_id = parent_id;
          nullifier = nullifier;
          platform_sig = sig;
        })
        keys

  -- No active singleton of the parent bears the nullifier, behind an attestation.
  abbrev pub unless_taken : String → String → List StoredTx → Keys → Option Keys → Keys × Bool
  unless_taken parent_id nullifier rows before none = (before, false)
  unless_taken parent_id nullifier rows before (some keys) =
      (keys, not (has_active_singleton_by_nullifier parent_id nullifier rows))

  -- The gate with a nullifier at hand: the tables after it, and whether it passed.
  unfoldable pub claim_nullifier : ThreadKey → String → String → List StoredTx → Keys → Keys × Bool
  claim_nullifier tk parent_id nullifier rows keys =
      elim (given (get_attested_nullifier tk.user_id parent_id keys)) [
        | none ↦
            unless_taken parent_id nullifier rows keys (attest tk.user_id parent_id nullifier keys)
        | some attested ↦
            if str_eq attested nullifier
            then unless_taken parent_id nullifier rows keys (some keys)
            else (keys, false)
      ]

  unfoldable pub nullifier_gate :
      Bool → Option ParentRef → Option String → ThreadKey → List StoredTx → Keys → Keys × Bool
  nullifier_gate false parent nullifier tk rows keys = (keys, is_absent nullifier)
  nullifier_gate true none nullifier tk rows keys = (keys, false)
  nullifier_gate true (some parent) none tk rows keys = (keys, false)
  nullifier_gate true (some parent) (some nullifier) tk rows keys =
      claim_nullifier tk parent.id nullifier rows keys

  -- The head of a validated update or deletion, with the root.
  abbrev pub validate_edit :
      TxEnvelope → Json → ThreadKey → ℕ → List StoredTx → Option (StoredTx × String)
  validate_edit env content tk now rows =
      if is_delete env.op
      then validate_delete h codec curve cfg env.entity_id env.author_pubkey now
          (some tk.jurisdiction) rows
      else validate_update h codec curve cfg env.entity_id env.author_pubkey (some content) now
          (some tk.jurisdiction) rows

  -- A singleton carries its nullifier on, and nothing else carries one.
  unfoldable pub carries_forward : RecordType → Option String → Option String → Bool
  carries_forward t head_nullifier nullifier =
      if is_singleton t
      then is_given head_nullifier && same_hash nullifier head_nullifier
      else not (is_given nullifier)

  abbrev pub preserves_parent : TxEnvelope → StoredTx → Bool
  preserves_parent env head =
      same_parent_type env.parent_type head.parent_type
      && (same_hash env.parent_id head.parent_id
          && same_hash env.parent_revision_hash head.parent_revision_hash)

  abbrev pub marker_ok : Op → Json → Bool
  marker_ok op content =
      if is_delete op
      then str_eq (canonical_json codec content) (canonical_json codec delete_marker)
      else true

  -- The checks of an update or a deletion.
  unfoldable pub check_edit : TxEnvelope → Json → ThreadKey → ℕ → List StoredTx → Bool
  check_edit env content tk now rows = elim (validate_edit env content tk now rows) [
    | none ↦ false
    | some v ↦
        same_hash env.prev_hash (some v.0.tx_hash)
        && (str_eq tk.thread_id v.1
            && (preserves_parent env v.0
                && (marker_ok env.op content
                    && carries_forward v.0.type v.0.nullifier env.nullifier)))
  ]

  -- A creation: the attestation stays also where a later check throws.
  unfoldable pub submit_create :
      TxEnvelope → String → Json → ThreadKey → Moment → Db → Db × Option Ref
  submit_create env salt content tk m db = elim (check_create env content tk db.store.rows) [
    | none ↦ (db, none)
    | some singleton ↦
        let gate =
          nullifier_gate singleton (parent_of env) (given env.nullifier) tk db.store.rows db.keys in
        commit h codec cfg gate.1 env salt content m (record db { keys = gate.0 })
  ]

  -- The branches of `op`.
  abbrev pub submit : Op → TxEnvelope → String → Json → ThreadKey → Moment → Db → Db × Option Ref
  submit create env salt content tk m db = submit_create env salt content tk m db
  submit update env salt content tk m db =
      commit h codec cfg (check_edit env content tk m.now db.store.rows) env salt content m db
  submit delete env salt content tk m db =
      commit h codec cfg (check_edit env content tk m.now db.store.rows) env salt content m db

  -- The state after the call, and what it returns; `none`: it throws.
  unfoldable pub append_signed : TxEnvelope → String → Json → Moment → Db → Db × Option Ref
  append_signed env salt content m db = elim (authorize env salt content m.now db.keys) [
    | none ↦ (db, none)
    | some tk ↦ submit env.op env salt content tk m db
  ]
