-- ===== src/Identity/Platform.antt =====
-- public-record/src/identity/binding.ts, platform-binding.ts and verify.ts: what the platform
-- attests of thread keys, nullifiers and credentials.
use oursay.Base.{String, Bool, false, not, ◌&&◌, Option, none, some, str_eq, ◌>>=◌, if◌then◌else◌}
use oursay.Crypto.Hash.{Hasher, Bytes}
use oursay.Crypto.Canonical.{
  Json, Codec, canonical_json, str, obj, member, close, optional, thread_commitment,
}
use oursay.Schema.Types.{when}
use oursay.Identity.Curve.{Curve}
use oursay.Identity.Envelope.{verify_hex}
use oursay.Identity.Tables.{ThreadBindingRow, Keys, get_thread_binding}

pub record ThreadBindingPublic : Type 0 where
  pub thread_pubkey : String
  pub thread_id : String
  pub jurisdiction : String
  pub kyc_tier : Option String
  pub commitment : String

pub record ThreadBindingOpening : Type 0 where
  pub user_id : String
  pub salt_t : String

abbrev pub binding_json : ThreadBindingPublic → Json
binding_json b = obj (
    member "thread_pubkey" (str b.thread_pubkey) (
      member "thread_id" (str b.thread_id) (
        member "jurisdiction" (str b.jurisdiction) (
          optional "kyc_tier" (when str b.kyc_tier)
            (member "commitment" (str b.commitment) close)))))

pub record CredentialAuthPayload : Type 0 where
  pub persona_pubkey : String
  pub credential_pubkey : String
  pub thread_id : String
  pub jurisdiction : String
  pub commitment : String

abbrev pub credential_auth_json : CredentialAuthPayload → Json
credential_auth_json p = obj (
    member "domain" (str "credential-auth-v1") (
      member "personaPubkey" (str p.persona_pubkey) (
        member "credentialPubkey" (str p.credential_pubkey) (
          member "threadId" (str p.thread_id) (
            member "jurisdiction" (str p.jurisdiction)
              (member "commitment" (str p.commitment) close))))))

-- `bindingFromRow`.
unfoldable pub binding_from_row : ThreadBindingRow → ThreadBindingPublic
binding_from_row row = record {
  thread_pubkey = row.thread_pubkey;
  thread_id = row.thread_id;
  jurisdiction = row.jurisdiction;
  kyc_tier = row.kyc_tier;
  commitment = row.commitment;
}

module _ (h : Hasher) (codec : Codec) (curve : Curve) where
  -- `sha256(utf8ToBytes(canonicalJson(value)))`.
  abbrev pub digest_of : Json → Bytes
  digest_of value = h.sha256 (h.utf8 (canonical_json codec value))

  -- `buildThreadBindingInputs`, with the salt that is drawn.
  pub build_thread_binding_inputs :
      String
      → String
      → String
      → String
      → Option String
      → String
      → ThreadBindingPublic × ThreadBindingOpening
  build_thread_binding_inputs user_id thread_pubkey thread_id jurisdiction kyc_tier salt_t = (
    record {
      thread_pubkey = thread_pubkey;
      thread_id = thread_id;
      jurisdiction = jurisdiction;
      kyc_tier = kyc_tier;
      commitment = thread_commitment h codec user_id salt_t thread_id jurisdiction;
    },
    record { user_id = user_id; salt_t = salt_t },
  )

  unfoldable pub binding_digest : ThreadBindingPublic → Bytes
  binding_digest b = digest_of (binding_json b)

  unfoldable pub credential_auth_digest : CredentialAuthPayload → Bytes
  credential_auth_digest p = digest_of (credential_auth_json p)

  pub nullifier_attestation_digest : String → String → Bytes
  nullifier_attestation_digest parent_id nullifier = digest_of (
      obj (
        member "ds" (str "oursay/v1/nullifier-attestation")
          (member "parentId" (str parent_id) (member "nullifier" (str nullifier) close))))

  -- A signature of the platform; `none`: the key is missing or no hexadecimal.
  abbrev pub platform_sign : Bytes → String → Option String
  platform_sign digest priv_hex =
      if str_eq priv_hex ""
      then none
      else (h.hex_to_bytes priv_hex >>= (λ key. some (h.bytes_to_hex (curve.sign digest key))))

  abbrev pub platform_verify : Bytes → String → String → Bool
  unfolding verify_hex
  platform_verify digest sig_hex pub_hex =
      not (str_eq sig_hex "")
      && (not (str_eq pub_hex "") && verify_hex h codec curve sig_hex digest pub_hex)

  pub platform_public_key : String → Option String
  platform_public_key priv_hex =
      h.hex_to_bytes priv_hex >>= (λ key. some (h.bytes_to_hex (curve.public_key key)))

  pub sign_binding : ThreadBindingPublic → String → Option String
  unfolding binding_digest
  sign_binding b priv_hex = platform_sign (binding_digest b) priv_hex

  unfoldable pub verify_binding : ThreadBindingPublic → String → String → Bool
  unfolding binding_digest
  verify_binding b sig_hex pub_hex = platform_verify (binding_digest b) sig_hex pub_hex

  unfoldable pub sign_nullifier_attestation : String → String → String → Option String
  unfolding nullifier_attestation_digest
  sign_nullifier_attestation parent_id nullifier priv_hex =
      platform_sign (nullifier_attestation_digest parent_id nullifier) priv_hex

  pub verify_nullifier_attestation : String → String → String → String → Bool
  unfolding nullifier_attestation_digest
  verify_nullifier_attestation parent_id nullifier sig_hex pub_hex =
      platform_verify (nullifier_attestation_digest parent_id nullifier) sig_hex pub_hex

  pub sign_credential_auth : CredentialAuthPayload → String → Option String
  unfolding credential_auth_digest
  sign_credential_auth p priv_hex = platform_sign (credential_auth_digest p) priv_hex

  unfoldable pub verify_credential_auth : CredentialAuthPayload → String → String → Bool
  unfolding credential_auth_digest
  verify_credential_auth p sig_hex pub_hex =
      platform_verify (credential_auth_digest p) sig_hex pub_hex

  -- `verifyThreadBinding`.
  unfoldable pub verify_thread_binding : Keys → String → String → Bool
  unfolding get_thread_binding verify_binding binding_from_row
  verify_thread_binding keys thread_pubkey pub_hex = elim (get_thread_binding thread_pubkey keys) [
    | none ↦ false
    | some row ↦ verify_binding (binding_from_row row) row.binding_sig pub_hex
  ]
