-- ===== src/Service/Authorized.antt =====
-- What a signed operation that is accepted has shown of its author, its signer and its content.
pub mod Facts
use oursay.Base.{
  not-true, ◌+◌, ◌*◌, ◌≤◌, ltb, ◌==◌, ==_iff, Bool-cases, ap, ◌∙◌, ℕ, ◌≡◌, refl, inl, inr, String,
  Bool, true, false, not, ◌&&◌, Option, none, some, [], ◌∷◌, ◌++◌, str_eq, str_eq_iff, Option-cases,
  arith, >>=-eq-some, and_left, and_right,
}
use oursay.Crypto.Hash.{Hasher}
use oursay.Crypto.Canonical.{Json, Codec, str, canonical_json, content_commitment}
use oursay.Schema.Types.{
  TxEnvelope, SignScheme, p256, webauthn_es256, Op, platform_ops, same_type, RecordType,
}
use oursay.Record.Append.{append, stored_row}
use oursay.Record.Append.Linked.{append_rows}
use oursay.Identity.Curve.{Curve}
use oursay.Identity.Envelope.{given, scheme_or_p256, verify_envelope, verify_hex}
use oursay.Identity.Platform.{
  verify_thread_binding, verify_binding, binding_digest, binding_json, binding_from_row,
  credential_auth_json, verify_credential_auth, credential_auth_digest,
}
use oursay.Policy.Jurisdiction.{required_sign_scheme}
use oursay.Identity.Tables.{
  Keys, ThreadKey, ThreadBindingRow, get_thread_binding, ThreadCredential, ThreadSigner,
  get_thread_key, get_thread_credential, get_thread_signer,
}
use oursay.Service.Config.{Config, Db, Ref, Moment, guard-eq-some, commit, new_tx}
use oursay.Service.Signed.{
  is_absent, same_scheme, shape_ok, is_fresh, policy_ok, credential_attested,
  verify_civic_credential, legacy_signer_ok, p256_signer_ok, signer_ok, is_intact, authorize,
  parent_of, check_create, nullifier_gate, check_edit, submit_create, submit, append_signed,
}
use oursay.Service.Authorized.Facts.{
  IsSigner, author, credential, device, IsAuthorized, given_eq, thread_binding-IsBound,
  is_fresh-IsFresh, policy_ok-MeetsFloor, credential_attested-IsAttested,
}

module _ (h : Hasher) (codec : Codec) (curve : Curve) (cfg : Config) where
  credential-IsSigner :
      (env : TxEnvelope) (tk : ThreadKey) (keys : Keys) (s : String)
      → given env.signer_pubkey ≡ some s
      → verify_civic_credential h codec curve cfg s env.author_pubkey tk keys ≡ true
      → IsSigner h codec curve cfg env tk keys
  unfolding verify_civic_credential
  credential-IsSigner env tk keys s named e = elim (Option-cases (get_thread_credential s keys)) [
    | inl missing ↦
        let stuck : false ≡ true = rw (missing, verify_civic_credential) at e in absurd (cc)
    | inr (c, found) ↦
        let attested = credential_attested h codec curve cfg s c keys in
        let user = str_eq c.user_id tk.user_id in
        let thread = str_eq c.thread_id tk.thread_id in
        let persona = str_eq c.persona_pubkey env.author_pubkey in
        let e' : (not c.revoked && (persona && (user && (thread && attested)))) ≡ true =
          rw (found, verify_civic_credential) at e in
        let attested_row : attested ≡ true = ground (arith, e') in
        let (row, has_row, by_platform) =
          credential_attested-IsAttested h codec curve cfg s c keys attested_row in
        credential s c row named found (not-true c.revoked (ground (arith, e')))
          ((str_eq_iff c.persona_pubkey env.author_pubkey).0 (ground (arith, e')))
          ((str_eq_iff c.user_id tk.user_id).0 (ground (arith, e')))
          ((str_eq_iff c.thread_id tk.thread_id).0 (ground (arith, e'))) has_row by_platform
  ]

  legacy-IsSigner :
      (env : TxEnvelope) (tk : ThreadKey) (keys : Keys) (s : String)
      → given env.signer_pubkey ≡ some s
      → scheme_or_p256 env.sign_scheme ≡ p256
      → legacy_signer_ok h codec curve cfg s tk keys ≡ true
      → IsSigner h codec curve cfg env tk keys
  unfolding legacy_signer_ok
  legacy-IsSigner env tk keys s named scheme e = elim (Option-cases (get_thread_signer s keys)) [
    | inl missing ↦ let stuck : false ≡ true = rw (missing, legacy_signer_ok) at e in absurd (cc)
    | inr (d, found) ↦
        let user = str_eq d.user_id tk.user_id in
        let thread = str_eq d.thread_id tk.thread_id in
        let e' : (not d.revoked && (user && thread)) ≡ true = rw (found, legacy_signer_ok) at e in
        device s d named found (not-true d.revoked (ground (arith, e')))
          ((str_eq_iff d.user_id tk.user_id).0 (ground (arith, e')))
          ((str_eq_iff d.thread_id tk.thread_id).0 (ground (arith, e'))) scheme
  ]

  signer_ok-IsSigner :
      (scheme : SignScheme) (signer : Option String) (env : TxEnvelope) (tk : ThreadKey)
      (keys : Keys)
      → scheme_or_p256 env.sign_scheme ≡ scheme
      → given env.signer_pubkey ≡ signer
      → signer_ok h codec curve cfg scheme signer env.author_pubkey tk keys ≡ true
      → IsSigner h codec curve cfg env tk keys
  unfolding signer_ok
  signer_ok-IsSigner webauthn_es256 none env tk keys is_scheme named e = absurd (cc)
  signer_ok-IsSigner webauthn_es256 (some s) env tk keys is_scheme named e =
      credential-IsSigner env tk keys s named e
  signer_ok-IsSigner p256 none env tk keys is_scheme named e = author named is_scheme
  signer_ok-IsSigner p256 (some s) env tk keys is_scheme named e =
      let checked : p256_signer_ok h codec curve cfg s env.author_pubkey tk keys ≡ true = e in
      elim (Option-cases (get_thread_credential s keys)) [
        | inl missing ↦
            let e' : legacy_signer_ok h codec curve cfg s tk keys ≡ true =
              rw (missing, p256_signer_ok) at checked in
            legacy-IsSigner env tk keys s named is_scheme e'
        | inr (c, found) ↦
            let e' : verify_civic_credential h codec curve cfg s env.author_pubkey tk keys ≡ true =
              rw (found, p256_signer_ok) at checked in
            credential-IsSigner env tk keys s named e'
      ]

  authorize-IsAuthorized :
      (env : TxEnvelope) (salt : String) (content : Json) (now : ℕ) (keys : Keys) {tk : ThreadKey}
      → authorize h codec curve cfg env salt content now keys ≡ some tk
      → IsAuthorized h codec curve cfg env salt content now keys
  unfolding authorize is_intact
  authorize-IsAuthorized env salt content now keys e =
      let (platform_key, configured, e1) = >>=-eq-some (given cfg.platform_pub_key_hex) _ e in
      let civic = not (same_type env.type platform_ops) in
      let no_proof = is_absent env.proof in
      let shaped = shape_ok h codec curve cfg env (scheme_or_p256 env.sign_scheme) in
      let verified = verify_envelope h codec curve env in
      let hash = content_commitment h codec (some (str env.tx_id)) salt content in
      let same = str_eq hash env.content_hash in
      let intact = civic && (no_proof && (shaped && (verified && same))) in
      let bound = verify_thread_binding h codec curve keys env.author_pubkey platform_key in
      let fresh = is_fresh h codec curve cfg env.created_at now in
      let (passed, e2) = guard-eq-some (intact && (bound && fresh)) _ e1 in
      let (tk, registered, e3) = >>=-eq-some (get_thread_key env.author_pubkey keys) _ e2 in
      let scheme = scheme_or_p256 env.sign_scheme in
      let floor = policy_ok h codec curve cfg env.type tk.jurisdiction scheme in
      let signing =
        signer_ok h codec curve cfg scheme (given env.signer_pubkey) env.author_pubkey tk keys in
      let (gated, done) = guard-eq-some (floor && signing) _ e3 in
      record {
        no_ops = not-true (same_type env.type platform_ops) (ground (arith, passed));
        verified = ground (arith, passed);
        committed = (str_eq_iff hash env.content_hash).0 (ground (arith, passed));
        fresh = is_fresh-IsFresh h codec curve cfg env.created_at now (ground (arith, passed));
        thread_key = tk;
        is_registered = registered;
        bound =
            thread_binding-IsBound h codec curve cfg env.author_pubkey platform_key keys
              (given_eq cfg.platform_pub_key_hex platform_key configured) (ground (arith, passed));
        meets_floor =
            policy_ok-MeetsFloor h codec curve cfg env.type tk.jurisdiction scheme
              (and_left floor signing gated);
        signer =
            signer_ok-IsSigner scheme (given env.signer_pubkey) env tk keys refl refl
              (and_right floor signing gated);
      }

  commit_grown :
      (ok : Bool) (env : TxEnvelope) (salt : String) (content : Json) (m : Moment) (db : Db)
      {r : Ref}
      → (commit h codec cfg ok env salt content m db).1 ≡ some r
      → (commit h codec cfg ok env salt content m db).0.store.rows
        ≡ db.store.rows
          ++ (stored_row h codec (new_tx env salt content) cfg.chain_id db.store.next_seq m.now
              ∷ [])
  unfolding commit
  commit_grown false env salt content m db e = absurd (cc)
  commit_grown true env salt content m db {r = r} e =
      let x = new_tx env salt content in
      elim (Option-cases (append h codec x cfg.chain_id m.now m.ledger db.store)) [
        | inl refused ↦ let stuck : none ≡ some r = rw (refused, commit) at e in absurd (cc)
        | inr (s', done) ↦
            rw (done, commit) (append_rows h codec x cfg.chain_id m.now m.ledger db.store s' done).1
      ]

  -- The row of an accepted operation stands behind the others.
  IsAppended : TxEnvelope → String → Json → Moment → Db → Db × Option Ref → Ref → Type 0
  IsAppended env salt content m db out r =
      out.1 ≡ some r
      → out.0.store.rows
        ≡ db.store.rows
          ++ (stored_row h codec (new_tx env salt content) cfg.chain_id db.store.next_seq m.now
              ∷ [])

  submit_create_grown :
      (env : TxEnvelope) (salt : String) (content : Json) (tk : ThreadKey) (m : Moment) (db : Db)
      (r : Ref)
      → IsAppended env salt content m db
          (submit_create h codec curve cfg env salt content tk m db)
          r
  unfolding submit_create IsAppended
  submit_create_grown env salt content tk m db r e =
      let rows = db.store.rows in
      elim (Option-cases (check_create h codec curve cfg env content tk rows)) [
        | inl refused ↦ let stuck : none ≡ some r = rw (refused, submit_create) at e in absurd (cc)
        | inr (s, checked) ↦
            let gate =
              nullifier_gate h codec curve cfg s (parent_of env) (given env.nullifier) tk rows
                db.keys in
            let e' : (commit h codec cfg gate.1 env salt content m (record db { keys = gate.0 })).1
                ≡ some r =
              rw (checked, submit_create) at e in
            rw (checked, submit_create)
              (commit_grown gate.1 env salt content m (record db { keys = gate.0 }) e')
      ]

  submit_grown :
      (op : Op) (env : TxEnvelope) (salt : String) (content : Json) (tk : ThreadKey) (m : Moment)
      (db : Db) (r : Ref)
      → IsAppended env salt content m db (submit h codec curve cfg op env salt content tk m db) r
  unfolding IsAppended
  submit_grown Op.create env salt content tk m db r e =
      submit_create_grown env salt content tk m db r e
  submit_grown Op.update env salt content tk m db r e =
      commit_grown (check_edit h codec curve cfg env content tk m.now db.store.rows) env salt
        content m db e
  submit_grown Op.delete env salt content tk m db r e =
      commit_grown (check_edit h codec curve cfg env content tk m.now db.store.rows) env salt
        content m db e

  -- If `appendSigned` returns, then the envelope is no platform operation; its signature verifies;
  -- it commits to the content with the salt; its time lies between the greatest age and the skew, or
  -- the settings turn this check off; its author is a registered thread key with a binding that the
  -- platform signed, under the key of the settings; its scheme is the one that the jurisdiction of the
  -- thread demands for its type, if it demands one, or the settings turn this off; it is signed by
  -- the author, or by a device of the author's user and thread that is not revoked, with a credential
  -- that the platform signed or in the earlier table; and its row stands behind the others.
  pub append_signed-IsAuthorized :
      (env : TxEnvelope) (salt : String) (content : Json) (m : Moment) (db : Db) (r : Ref)
      → (append_signed h codec curve cfg env salt content m db).1 ≡ some r
      → IsAuthorized h codec curve cfg env salt content m.now db.keys
        × ((append_signed h codec curve cfg env salt content m db).0.store.rows
            ≡ db.store.rows
              ++ (stored_row h codec (new_tx env salt content) cfg.chain_id db.store.next_seq m.now
                  ∷ []))
  unfolding append_signed IsAppended
  append_signed-IsAuthorized env salt content m db r e =
      elim (Option-cases (authorize h codec curve cfg env salt content m.now db.keys)) [
        | inl refused ↦ let stuck : none ≡ some r = rw (refused, append_signed) at e in absurd (cc)
        | inr (tk, passed) ↦
            let e' : (submit h codec curve cfg env.op env salt content tk m db).1 ≡ some r =
              rw (passed, append_signed) at e in
            (
              authorize-IsAuthorized env salt content m.now db.keys passed,
              rw (passed, append_signed) (submit_grown env.op env salt content tk m db r e'),
            )
      ]
