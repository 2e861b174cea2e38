-- ===== src/Service/Ops.antt =====
-- `appendPlatformOps` of public-record/src/record.ts. The projection that a caller may run in the
-- same database transaction is left out.
use oursay.Base.{String, Bool, false, not, ◌&&◌, ◌||◌, Option, none, some, List, str_eq, ◌>>=◌}
use oursay.Crypto.Hash.{Hasher}
use oursay.Crypto.Canonical.{
  Json, Members, Codec, content_commitment, canonical_json, str, get_member,
}
use oursay.Schema.Types.{
  TxEnvelope, platform_ops, p256, Op, create, update, delete, same_type, platform_pubkey,
  WebauthnAssertion,
}
use oursay.Schema.Content.{members_of, validate_content}
use oursay.Schema.Content.PlatformOps.{kind_of, equals_text}
use oursay.Ledger.Store.{StoredTx}
use oursay.Record.Append.{same_hash, is_null}
use oursay.Identity.Curve.{Curve}
use oursay.Identity.Envelope.{given, is_given, scheme_or_p256, verify_envelope}
use oursay.Identity.PlatformOps.{
  AdminAttestation, platform_ops_entity_id, verify_platform_ops_admin_attestation, text_member,
}
use oursay.Service.State.{get_head_tx}
use oursay.Service.Config.{Config, Db, Ref, Moment, commit}
use oursay.Service.Signed.{is_absent, same_scheme, is_fresh}

-- A text with which a member of an object is compared; `none`: the member is no text.
abbrev pub same_text : Option String → Option String → Bool
same_text none t = false
same_text (some s) none = false
same_text (some s) (some t) = str_eq s t

abbrev pub empty_if_none : Option String → String
empty_if_none none = ""
empty_if_none (some s) = s

abbrev pub assertion_of : Option Json → Option WebauthnAssertion
assertion_of none = none
assertion_of (some v) =
    let ms = members_of v in
    some (record {
      authenticator_data = empty_if_none (text_member "authenticatorData" ms);
      client_data_json = empty_if_none (text_member "clientDataJSON" ms);
      signature = empty_if_none (text_member "signature" ms);
    })

abbrev pub member_object : String → Members → Members
member_object key ms = elim (get_member key ms) [
  | none ↦ members_of (str "")
  | some v ↦ members_of v
]

abbrev pub member_json : String → Members → Json
member_json key ms = elim (get_member key ms) [ none ↦ str "" | some v ↦ v ]

module _ (h : Hasher) (codec : Codec) (curve : Curve) (cfg : Config) where
  -- The fields of the envelope: of the platform, over p256, with no parent and no nullifier.
  unfoldable pub is_platform_envelope : TxEnvelope → String → Bool
  is_platform_envelope env pub_hex =
      same_type env.type platform_ops
      && (is_absent env.proof
          && (not (is_given env.nullifier)
              && (is_absent env.parent_type
                  && (not (is_given env.parent_id)
                      && (same_scheme (scheme_or_p256 env.sign_scheme) p256
                          && (is_absent env.webauthn
                              && (not (is_given env.signer_pubkey)
                                  && str_eq env.author_pubkey pub_hex)))))))

  abbrev pub attestation_of : Members → AdminAttestation h codec curve
  attestation_of ms = record {
    signer_pubkey = empty_if_none (text_member "signerPubkey" ms);
    webauthn_scheme = equals_text (get_member "signScheme" ms) "webauthn-es256";
    signature = empty_if_none (text_member "signature" ms);
    webauthn = assertion_of (get_member "webauthn" ms);
    request_hash = empty_if_none (text_member "requestHash" ms);
  }

  -- The content is that of its request, and its entity is the one that the request names.
  abbrev pub matches_request : TxEnvelope → Members → Members → Bool
  matches_request env c request =
      same_text (text_member "kind" c) (text_member "kind" request)
      && (same_text (text_member "jurisdictionId" c) (text_member "jurisdictionId" request)
          && (str_eq (canonical_json codec (member_json "payload" c))
                (canonical_json codec (member_json "payload" request))
              && same_text
                  (kind_of (get_member "kind" c) >>= (λ kind.
                    platform_ops_entity_id h codec curve kind
                      (empty_if_none (text_member "jurisdictionId" c)) (member_object "payload" c)))
                  (some env.entity_id)))

  -- The admin's attestation, unless the caller has verified it.
  abbrev pub attestation_ok : Bool → Members → Bool
  attestation_ok verify_admin c =
      not verify_admin
      || verify_platform_ops_admin_attestation h codec curve (member_json "request" c)
          (attestation_of (member_object "adminAttestation" c))

  -- The head of the entity, behind the operation.
  abbrev pub ops_head : TxEnvelope → String → Option StoredTx → Bool
  ops_head env pub_hex none = false
  ops_head env pub_hex (some head) =
      same_type head.type platform_ops
      && (same_hash env.prev_hash (some head.tx_hash)
          && (str_eq head.author_pubkey pub_hex || str_eq head.author_pubkey platform_pubkey))

  abbrev pub head_ok : Op → TxEnvelope → String → List StoredTx → Bool
  head_ok create env pub_hex rows =
      is_null env.prev_hash && is_absent (get_head_tx env.entity_id rows)
  head_ok update env pub_hex rows = ops_head env pub_hex (get_head_tx env.entity_id rows)
  head_ok delete env pub_hex rows = false

  -- The checks between the fields of the envelope and the head of the entity.
  unfoldable pub is_attested : TxEnvelope → String → Json → Bool → Moment → Bool
  is_attested env salt content verify_admin m =
      let c = members_of content in
      verify_envelope h codec curve env
      && (str_eq (content_commitment h codec (some (str env.tx_id)) salt content) env.content_hash
          && (is_fresh h codec curve cfg env.created_at m.now
              && (validate_content h codec curve.date_parse platform_ops env.op content
                    (text_member "jurisdictionId" c) cfg.jurisdictions
                  && (matches_request env c (member_object "request" c)
                      && attestation_ok verify_admin c))))

  abbrev pub check_ops : TxEnvelope → String → Json → Bool → Moment → Db → String → Bool
  check_ops env salt content verify_admin m db pub_hex =
      is_platform_envelope env pub_hex
      && (is_attested env salt content verify_admin m && head_ok env.op env pub_hex db.store.rows)

  -- Both keys of the platform are configured.
  abbrev pub ops_ok : TxEnvelope → String → Json → Bool → Moment → Db → Bool
  ops_ok env salt content verify_admin m db = elim (given cfg.platform_pub_key_hex) [
    | none ↦ false
    | some pub_hex ↦
        is_given cfg.platform_priv_key_hex && check_ops env salt content verify_admin m db pub_hex
  ]

  unfoldable pub append_platform_ops :
      TxEnvelope → String → Json → Bool → Moment → Db → Db × Option Ref
  append_platform_ops env salt content verify_admin m db =
      commit h codec cfg (ops_ok env salt content verify_admin m db) env salt content m db
