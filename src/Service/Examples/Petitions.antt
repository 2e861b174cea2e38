-- ===== src/Service/Examples/Petitions.antt =====
-- Examples: a petition, and a signature of it.
use oursay.Base.{str_eq, str_eq_iff, true, All, length, ◌≡◌, refl, none, some}
use oursay.Crypto.Hash.{hash_leaf, sha256_hex}
use oursay.Crypto.Toy.{toy, zero_hex}
use oursay.Crypto.Canonical.{Json, str, obj, member, close, canonical_json, content_commitment}
use oursay.Schema.Types.{
  petition, petition_signature, TxEnvelope, civic, parent_allowed, is_root_type, op_allowed,
  is_singleton,
}
use oursay.Policy.Governance.{can_revoke_signature, resolve_rules, within_deadline, rules_of}
use oursay.Policy.Jurisdiction.{get_jurisdiction, required_sign_scheme}
use oursay.Schema.Content.{validate_content}
use oursay.Ledger.Connector.{get_envelope}
use oursay.Record.Append.{append, stored_row, same_hash}
use oursay.Identity.Envelope.{verify_envelope, verify_hex}
use oursay.Identity.Platform.{verify_thread_binding, sign_nullifier_attestation}
use oursay.Identity.Tables.{get_thread_key, get_attested_nullifier, attest_nullifier}
use oursay.Service.State.{
  get_head_tx, get_entity_state, get_current_revision, has_active_singleton_by_nullifier,
}
use oursay.Service.Config.{Db, commit, new_tx}
use oursay.Service.Validate.{
  validate_delete, root_of, assert_author, attach, depth_ok, climb, resolve_root, validate_create,
}
use oursay.Service.Signed.{
  append_signed, authorize, is_intact, is_fresh, policy_ok, signer_ok, check_create, nullifier_gate,
  submit_create, claim_nullifier, attest,
}
use oursay.Service.Reach.{Reach, here, after, Call, signed, deletion, creation, run}
use oursay.Service.Unsigned.{Draw, append_spec, envelope_of}
use oursay.Service.Examples.{codec, curve, config, start, envelope, moment}
use oursay.Service.Tally.{
  IsVerified, active_signatures, get_petition_signature_count, get_petition_signature_count-length,
}

abbrev request : Json
request = obj (member "title" (str "A road") (member "text" (str "We want a road.") close))

abbrev petition_call : Call toy codec curve config
petition_call = creation (civic petition) zero_hex request none "e1" (record {
  tx_id = "t5";
  salt = "s";
  entity_id = "e5";
  created_at = "2026";
  signature = "unsigned";
})

abbrev support : TxEnvelope
support = record envelope {
  tx_id = "t6";
  type = civic petition_signature;
  entity_id = "g1";
  parent_type = some (civic petition);
  parent_id = some "e1";
  parent_revision_hash = some zero_hex;
  nullifier = some "n1";
}

abbrev support_call : Call toy codec curve config
support_call = signed support "s" (obj close)

abbrev supported : Db
supported =
    run toy codec curve config support_call moment
      (run toy codec curve config petition_call moment start)

abbrev to_support : Reach toy codec curve config start supported
to_support = after (after here petition_call moment) support_call moment

one_signature : length (active_signatures "e1" supported.store.rows) ≡ 1
unfolding append_signed authorize is_intact verify_envelope verify_hex content_commitment
    canonical_json hash_leaf sha256_hex verify_thread_binding is_fresh policy_ok signer_ok
    get_thread_key required_sign_scheme submit_create check_create nullifier_gate validate_create
    validate_content get_head_tx commit new_tx stored_row append get_envelope is_root_type
    op_allowed get_jurisdiction same_hash is_singleton run oursay.Service.Unsigned.create
    append_spec envelope_of claim_nullifier get_attested_nullifier attest attest_nullifier
    sign_nullifier_attestation attach parent_allowed resolve_root climb get_current_revision
    has_active_singleton_by_nullifier get_entity_state depth_ok active_signatures
one_signature = refl

supported-IsVerified : All (IsVerified "e1") (active_signatures "e1" supported.store.rows)
unfolding append_signed authorize is_intact verify_envelope verify_hex content_commitment
    canonical_json hash_leaf sha256_hex verify_thread_binding is_fresh policy_ok signer_ok
    get_thread_key required_sign_scheme submit_create check_create nullifier_gate validate_create
    validate_content get_head_tx commit new_tx stored_row append get_envelope is_root_type
    op_allowed get_jurisdiction same_hash is_singleton run oursay.Service.Unsigned.create
    append_spec envelope_of claim_nullifier get_attested_nullifier attest attest_nullifier
    sign_nullifier_attestation attach parent_allowed resolve_root climb get_current_revision
    has_active_singleton_by_nullifier get_entity_state depth_ok active_signatures
supported-IsVerified = (
  (
    "n1",
    refl,
    (λ e. let y : str_eq "n1" "" ≡ true = (str_eq_iff "n1" "").1 e in absurd (cc y)),
    refl,
  ),
  tt,
)

get_petition_signature_count-length_example :
    get_petition_signature_count "e1" supported.store.rows
    ≡ length (active_signatures "e1" supported.store.rows)
get_petition_signature_count-length_example =
    get_petition_signature_count-length toy codec curve config start supported "e1" refl to_support
      supported-IsVerified

-- The signature is withdrawn, and given again with the same nullifier.
abbrev petitioned : Db
petitioned = run toy codec curve config petition_call moment start

abbrev signed_once : Db
signed_once = (append_signed toy codec curve config support "s" (obj close) moment petitioned).0

abbrev withdraw_call : Call toy codec curve config
withdraw_call = deletion "g1" zero_hex (record {
  tx_id = "t7";
  salt = "s";
  entity_id = "e7";
  created_at = "2026";
  signature = "unsigned";
})

abbrev withdrawn : Db
withdrawn = run toy codec curve config withdraw_call moment signed_once

abbrev support_again : TxEnvelope
support_again = record support { tx_id = "t8"; entity_id = "g2" }

another_refused :
    (append_signed toy codec curve config
      (record support_again { nullifier = some "n2" })
      "s"
      (obj close)
      moment
      withdrawn).1
    ≡ none
unfolding append_signed authorize is_intact verify_envelope verify_hex content_commitment
    canonical_json hash_leaf sha256_hex verify_thread_binding is_fresh policy_ok signer_ok
    get_thread_key required_sign_scheme submit_create check_create nullifier_gate validate_create
    validate_content get_head_tx commit new_tx stored_row append get_envelope is_root_type
    op_allowed get_jurisdiction same_hash is_singleton run oursay.Service.Unsigned.create
    append_spec envelope_of claim_nullifier get_attested_nullifier attest attest_nullifier
    sign_nullifier_attestation attach parent_allowed resolve_root climb get_current_revision
    has_active_singleton_by_nullifier get_entity_state depth_ok oursay.Service.Unsigned.delete
    validate_delete root_of assert_author can_revoke_signature resolve_rules within_deadline
    rules_of
another_refused = refl
