-- ===== src/Service/Examples/Votes.antt =====
-- Examples: a poll, and a signed vote on it.
use oursay.Base.{All, str_eq, str_eq_iff, true, String, Option, length, ◌+◌, ◌≡◌, refl, none, some}
use oursay.Crypto.Hash.{hash_leaf, sha256_hex}
use oursay.Crypto.Toy.{toy, zero_hex}
use oursay.Crypto.Canonical.{
  Json, str, obj, arr, item, end, member, close, canonical_json, content_commitment,
}
use oursay.Schema.Types.{
  TxEnvelope, civic, poll, vote, parent_allowed, is_root_type, op_allowed, is_singleton,
}
use oursay.Policy.Jurisdiction.{get_jurisdiction, required_sign_scheme}
use oursay.Schema.Content.{validate_content}
use oursay.Ledger.Connector.{get_envelope}
use oursay.Record.Append.{append, stored_row, same_hash}
use oursay.Identity.Envelope.{verify_envelope, verify_hex}
use oursay.Identity.Platform.{verify_thread_binding, sign_nullifier_attestation}
use oursay.Identity.Tables.{get_thread_key, get_attested_nullifier, attest_nullifier}
use oursay.Service.State.{
  get_head_tx, get_entity_state, get_current_revision, has_active_singleton_by_nullifier,
}
use oursay.Service.Config.{Db, commit, new_tx}
use oursay.Service.Validate.{attach, depth_ok, climb, resolve_root, validate_create}
use oursay.Service.Signed.{
  append_signed, authorize, is_intact, is_fresh, policy_ok, signer_ok, check_create, nullifier_gate,
  submit_create, claim_nullifier, attest,
}
use oursay.Service.Reach.{Reach, here, after, Call, signed, creation, run}
use oursay.Service.Unsigned.{Draw, append_spec, envelope_of}
use oursay.Service.Singleton.{OneActive, Reach-OneActive}
use oursay.Service.Singleton.Count.{holders}
use oursay.Ledger.Store.{StoredTx}
use oursay.Service.Tally.{IsVerified}
use oursay.Service.Tally.Polls.{active_votes, poll_results, total, total-poll_results}
use oursay.Service.Examples.{codec, curve, config, start, envelope, moment}

-- A poll, and a signed vote on it.
abbrev question : Json
question = obj (
    member "question" (str "A road?")
      (member "options" (arr (item (str "yes") (item (str "no") end))) close))

abbrev poll_call : Call toy codec curve config
poll_call = creation (civic poll) zero_hex question none "e1" (record {
  tx_id = "t5";
  salt = "s";
  entity_id = "e5";
  created_at = "2026";
  signature = "unsigned";
})

abbrev ballot : TxEnvelope
ballot = record envelope {
  tx_id = "t6";
  type = civic vote;
  entity_id = "v1";
  parent_type = some (civic poll);
  parent_id = some "e1";
  parent_revision_hash = some zero_hex;
  nullifier = some "n1";
}

abbrev vote_call : Call toy codec curve config
vote_call = signed ballot "s" (obj (member "option" (str "yes") close))

abbrev voted : Db
voted =
    run toy codec curve config vote_call moment (run toy codec curve config poll_call moment start)

abbrev to_vote : Reach toy codec curve config start voted
to_vote = after (after here poll_call moment) vote_call moment

one_holder : holders "e1" "n1" voted.store.rows + length voted.keys.nullifiers ≡ 2
unfolding append_signed authorize is_intact verify_envelope verify_hex content_commitment
    canonical_json hash_leaf sha256_hex verify_thread_binding is_fresh policy_ok signer_ok
    get_thread_key required_sign_scheme submit_create check_create nullifier_gate validate_create
    validate_content get_head_tx commit new_tx stored_row append get_envelope is_root_type
    op_allowed get_jurisdiction same_hash is_singleton run oursay.Service.Unsigned.create
    append_spec envelope_of claim_nullifier get_attested_nullifier attest attest_nullifier
    sign_nullifier_attestation attach parent_allowed resolve_root climb get_current_revision
    has_active_singleton_by_nullifier holders get_entity_state depth_ok
one_holder = refl

Reach-OneActive_example : OneActive voted.store.rows
Reach-OneActive_example = Reach-OneActive toy codec curve config start voted refl to_vote

-- `content->>'option'`, for the one option of the examples.
abbrev option_of : StoredTx → Option String
option_of t = some "yes"

voted-IsVerified : All (IsVerified "e1") (active_votes "e1" voted.store.rows)
unfolding append_signed authorize is_intact verify_envelope verify_hex content_commitment
    canonical_json hash_leaf sha256_hex verify_thread_binding is_fresh policy_ok signer_ok
    get_thread_key required_sign_scheme submit_create check_create nullifier_gate validate_create
    validate_content get_head_tx commit new_tx stored_row append get_envelope is_root_type
    op_allowed get_jurisdiction same_hash is_singleton run oursay.Service.Unsigned.create
    append_spec envelope_of claim_nullifier get_attested_nullifier attest attest_nullifier
    sign_nullifier_attestation attach parent_allowed resolve_root climb get_current_revision
    has_active_singleton_by_nullifier get_entity_state depth_ok active_votes
voted-IsVerified = (
  (
    "n1",
    refl,
    (λ e. let y : str_eq "n1" "" ≡ true = (str_eq_iff "n1" "").1 e in absurd (cc y)),
    refl,
  ),
  tt,
)

total-poll_results_example :
    total (poll_results option_of "e1" voted.store.rows)
    ≡ length (active_votes "e1" voted.store.rows)
total-poll_results_example =
    total-poll_results option_of toy codec curve config start voted "e1" refl to_vote
      voted-IsVerified
