-- ===== src/Service/Authorized/Facts.antt =====
-- The facts about a signed envelope that is accepted, and the tests of `appendSigned` that show them.
use oursay.Base.{
  ◌+◌, ◌*◌, ◌≤◌, ltb, ◌==◌, ==_iff, Bool-cases, ap, ◌∙◌, ℕ, ◌≡◌, refl, inl, inr, String, true,
  false, not, ◌&&◌, Option, none, some, str_eq, Option-cases, arith, and_right,
}
use oursay.Crypto.Hash.{Hasher}
use oursay.Crypto.Canonical.{Json, Codec, str, canonical_json, content_commitment}
use oursay.Schema.Types.{
  TxEnvelope, SignScheme, p256, webauthn_es256, platform_ops, same_type, RecordType,
}
use oursay.Identity.Curve.{Curve}
use oursay.Identity.Envelope.{given, scheme_or_p256, verify_envelope, verify_hex}
use oursay.Identity.Platform.{
  verify_thread_binding, verify_binding, binding_digest, binding_json, binding_from_row,
  credential_auth_json, verify_credential_auth, credential_auth_digest,
}
use oursay.Policy.Jurisdiction.{required_sign_scheme}
use oursay.Identity.Tables.{
  Keys, ThreadKey, ThreadBindingRow, get_thread_binding, ThreadCredential, ThreadSigner,
  get_thread_key, get_thread_credential, get_thread_signer,
}
use oursay.Service.Config.{Config}
use oursay.Service.Signed.{same_scheme, is_fresh, policy_ok, credential_attested}

same_scheme_eq : (a b : SignScheme) → same_scheme a b ≡ true → a ≡ b
same_scheme_eq p256 p256 e = refl
same_scheme_eq p256 webauthn_es256 e = absurd (cc)
same_scheme_eq webauthn_es256 p256 e = absurd (cc)
same_scheme_eq webauthn_es256 webauthn_es256 e = refl

pub given_eq : (o : Option String) (s : String) → given o ≡ some s → o ≡ some s
given_eq none s e = absurd (cc)
given_eq (some t) s e = elim (Bool-cases (str_eq t "")) [
  | inl y ↦ let stuck : none ≡ some s = rw y at e in absurd (cc)
  | inr n ↦ let same : some t ≡ some s = rw n at e in same
]

module _ (h : Hasher) (codec : Codec) (curve : Curve) (cfg : Config) where
  -- The platform's signature over the digest of a value verifies under the key of the settings.
  pub record IsAttested (value : Json) (sig : String) : Type 0 where
    pub platform_key : String
    pub is_configured : cfg.platform_pub_key_hex ≡ some platform_key
    pub signed_by_platform :
        verify_hex h codec curve sig (h.sha256 (h.utf8 (canonical_json codec value))) platform_key
        ≡ true

  -- The author's persona is bound: a row of it is attested.
  pub record IsBound (author_pubkey : String) (keys : Keys) : Type 0 where
    pub row : ThreadBindingRow
    pub has_row : get_thread_binding author_pubkey keys ≡ some row
    pub attested : IsAttested (binding_json (binding_from_row row)) row.binding_sig

  -- The age of the envelope is checked, and it is neither too old nor too far ahead; or the check is
  -- off.
  pub data IsFresh (created_at : String) (now : ℕ) : Type 0 where
    unchecked : cfg.signed_envelope_max_age_sec ≡ 0 → IsFresh created_at now
    dated :
        (t : ℕ)
        → curve.date_parse created_at ≡ some t
        → now ≤ t + cfg.signed_envelope_max_age_sec * 1000
        → t ≤ now + cfg.signed_envelope_future_skew_sec * 1000
        → IsFresh created_at now

  -- The scheme is the one that the jurisdiction demands for the type, if it demands one; or the
  -- policy is off.
  pub data MeetsFloor (t : RecordType) (jurisdiction : String) (scheme : SignScheme) : Type 0 where
    unenforced : cfg.enforce_signing_policy ≡ false → MeetsFloor t jurisdiction scheme
    no_floor :
        required_sign_scheme t (some jurisdiction) cfg.jurisdictions ≡ none
        → MeetsFloor t jurisdiction scheme
    met :
        required_sign_scheme t (some jurisdiction) cfg.jurisdictions ≡ some scheme
        → MeetsFloor t jurisdiction scheme

  -- The key that signed: the author's own, or that of a device which is registered for the user and
  -- the thread of the author and not revoked, by a credential under the author's persona, which the
  -- platform attests together with the commitment of the persona, or in the earlier table.
  pub data IsSigner (env : TxEnvelope) (tk : ThreadKey) (keys : Keys) : Type 0 where
    author :
        given env.signer_pubkey ≡ none
        → scheme_or_p256 env.sign_scheme ≡ p256
        → IsSigner env tk keys
    credential :
        (s : String) (c : ThreadCredential) (row : ThreadBindingRow)
        → given env.signer_pubkey ≡ some s
        → get_thread_credential s keys ≡ some c
        → c.revoked ≡ false
        → c.persona_pubkey ≡ env.author_pubkey
        → c.user_id ≡ tk.user_id
        → c.thread_id ≡ tk.thread_id
        → get_thread_binding c.persona_pubkey keys ≡ some row
        → IsAttested
            (credential_auth_json (record {
              persona_pubkey = c.persona_pubkey;
              credential_pubkey = s;
              thread_id = c.thread_id;
              jurisdiction = c.jurisdiction;
              commitment = row.commitment;
            }))
            c.credential_sig
        → IsSigner env tk keys
    device :
        (s : String) (d : ThreadSigner)
        → given env.signer_pubkey ≡ some s
        → get_thread_signer s keys ≡ some d
        → d.revoked ≡ false
        → d.user_id ≡ tk.user_id
        → d.thread_id ≡ tk.thread_id
        → scheme_or_p256 env.sign_scheme ≡ p256
        → IsSigner env tk keys

  -- The facts about an envelope that is accepted at the time `now`.
  pub record IsAuthorized (env : TxEnvelope) (salt : String) (content : Json) (now : ℕ)
      (keys : Keys) : Type 0 where
    pub no_ops : same_type env.type platform_ops ≡ false
    pub verified : verify_envelope h codec curve env ≡ true
    pub committed :
        content_commitment h codec (some (str env.tx_id)) salt content ≡ env.content_hash
    pub fresh : IsFresh env.created_at now
    pub thread_key : ThreadKey
    pub is_registered : get_thread_key env.author_pubkey keys ≡ some thread_key
    pub bound : IsBound env.author_pubkey keys
    pub meets_floor : MeetsFloor env.type thread_key.jurisdiction (scheme_or_p256 env.sign_scheme)
    pub signer : IsSigner env thread_key keys

  pub thread_binding-IsBound :
      (persona pub_hex : String) (keys : Keys)
      → cfg.platform_pub_key_hex ≡ some pub_hex
      → verify_thread_binding h codec curve keys persona pub_hex ≡ true
      → IsBound persona keys
  unfolding verify_thread_binding verify_binding binding_digest canonical_json verify_hex
  thread_binding-IsBound persona pub_hex keys configured e =
      elim (Option-cases (get_thread_binding persona keys)) [
        | inl missing ↦
            let stuck : false ≡ true = rw (missing, verify_thread_binding) at e in absurd (cc)
        | inr (row, found) ↦
            let value = binding_json (binding_from_row row) in
            let digest = h.sha256 (h.utf8 (canonical_json codec value)) in
            let given_sig = not (str_eq row.binding_sig "") in
            let given_key = not (str_eq pub_hex "") in
            let signed = verify_hex h codec curve row.binding_sig digest pub_hex in
            let e' : (given_sig && (given_key && signed)) ≡ true =
              rw (found, verify_thread_binding) at e in
            record {
              row = row;
              has_row = found;
              attested = record {
                platform_key = pub_hex;
                is_configured = configured;
                signed_by_platform =
                    and_right given_key signed (and_right given_sig (given_key && signed) e');
              };
            }
      ]

  pub is_fresh-IsFresh :
      (created_at : String) (now : ℕ)
      → is_fresh h codec curve cfg created_at now ≡ true
      → IsFresh created_at now
  unfolding is_fresh
  is_fresh-IsFresh created_at now e = elim (Bool-cases (cfg.signed_envelope_max_age_sec == 0)) [
    | inl y ↦ unchecked ((==_iff cfg.signed_envelope_max_age_sec 0).0 y)
    | inr n ↦ elim (Option-cases (curve.date_parse created_at)) [
      | inl bad ↦ let stuck : false ≡ true = rw (n, bad, is_fresh) at e in absurd (cc)
      | inr (t, parsed) ↦
          let e' : (not (ltb (t + cfg.signed_envelope_max_age_sec * 1000) now)
                && not (ltb (now + cfg.signed_envelope_future_skew_sec * 1000) t))
              ≡ true =
            rw (n, parsed, is_fresh) at e in
          dated t parsed (ground (arith, e')) (ground (arith, e'))
    ]
  ]

  pub policy_ok-MeetsFloor :
      (t : RecordType) (jurisdiction : String) (scheme : SignScheme)
      → policy_ok h codec curve cfg t jurisdiction scheme ≡ true
      → MeetsFloor t jurisdiction scheme
  unfolding policy_ok
  policy_ok-MeetsFloor t jurisdiction scheme e = elim (Bool-cases cfg.enforce_signing_policy) [
    | inr off ↦ unenforced off
    | inl on ↦ elim (Option-cases (required_sign_scheme t (some jurisdiction) cfg.jurisdictions)) [
      | inl free ↦ no_floor free
      | inr (need, demanded) ↦
          let e' : same_scheme need scheme ≡ true = rw (on, demanded, policy_ok) at e in
          met (demanded ∙ ap some (same_scheme_eq need scheme e'))
    ]
  ]

  pub credential_attested-IsAttested :
      (s : String) (c : ThreadCredential) (keys : Keys)
      → credential_attested h codec curve cfg s c keys ≡ true
      → (row : ThreadBindingRow) × (get_thread_binding c.persona_pubkey keys ≡ some row)
        × IsAttested
            (credential_auth_json (record {
              persona_pubkey = c.persona_pubkey;
              credential_pubkey = s;
              thread_id = c.thread_id;
              jurisdiction = c.jurisdiction;
              commitment = row.commitment;
            }))
            c.credential_sig
  unfolding verify_credential_auth credential_auth_digest canonical_json verify_hex
  credential_attested-IsAttested s c keys e =
      elim (Option-cases (get_thread_binding c.persona_pubkey keys)) [
        | inl missing ↦
            let stuck : false ≡ true = rw (missing, credential_attested) at e in absurd (cc)
        | inr (row, found) ↦ elim (Option-cases cfg.platform_pub_key_hex) [
          | inl missing ↦
              let stuck : false ≡ true = rw (found, missing, credential_attested) at e in
              absurd (cc)
          | inr (pub_hex, configured) ↦
              let value = credential_auth_json (record {
                persona_pubkey = c.persona_pubkey;
                credential_pubkey = s;
                thread_id = c.thread_id;
                jurisdiction = c.jurisdiction;
                commitment = row.commitment;
              }) in
              let digest = h.sha256 (h.utf8 (canonical_json codec value)) in
              let given_sig = not (str_eq c.credential_sig "") in
              let given_key = not (str_eq pub_hex "") in
              let signed = verify_hex h codec curve c.credential_sig digest pub_hex in
              let e' : (given_sig && (given_key && signed)) ≡ true =
                rw (found, configured, credential_attested) at e in
              (
                row,
                found,
                record {
                  platform_key = pub_hex;
                  is_configured = configured;
                  signed_by_platform =
                      and_right given_key signed (and_right given_sig (given_key && signed) e');
                },
              )
        ]
      ]
