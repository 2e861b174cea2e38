-- ===== src/Service/Examples.antt =====
-- A post that its author signs and deletes, over the toy hasher and a curve that takes every
-- signature.
mod Parents
mod Votes
mod Petitions
use oursay.Base.{
  length, ◌+◌, zero, suc, sym, ◌∙◌, ◌⊎◌, inl, inr, str_eq, str_eq_iff, Bool-cases, some_inj, arith,
  ℕ, Option, ◌≡◌, refl, true, false, none, some, List, [], ◌∷◌, ◌++◌,
}
use oursay.Crypto.Hash.{hash_leaf, sha256_hex}
use oursay.Crypto.Toy.{toy, zero_hex}
use oursay.Crypto.Canonical.{
  Json, Codec, str, obj, arr, item, end, member, close, canonical_json, content_commitment,
}
use oursay.Schema.Types.{
  TxEnvelope, Op, delete, civic, post, poll, vote, comment, parent_allowed, create, update,
  is_root_type, op_allowed, is_singleton,
}
use oursay.Policy.Jurisdiction.{
  JurisdictionConfig, JurisdictionRules, get_jurisdiction, required_sign_scheme,
}
use oursay.Schema.Content.{validate_content}
use oursay.Ledger.Store.{StoredTx}
use oursay.Ledger.Connector.{get_envelope}
use oursay.Record.Append.{append, stored_row, same_hash}
use oursay.Identity.Curve.{Curve}
use oursay.Identity.Envelope.{given, verify_envelope, verify_hex}
use oursay.Identity.Platform.{verify_thread_binding, sign_nullifier_attestation}
use oursay.Identity.Tables.{
  Keys, ThreadKey, ThreadBindingRow, get_thread_key, get_attested_nullifier, attest_nullifier,
}
use oursay.Service.State.{
  get_head_tx, get_entity_state, get_current_revision, has_active_singleton_by_nullifier,
}
use oursay.Service.Config.{Config, Db, Ref, Moment, commit, new_tx}
use oursay.Service.Validate.{
  attach, depth_ok, climb, resolve_root, validate_update, validate_create, validate_delete, root_of,
  assert_author,
}
use oursay.Service.Signed.{
  append_signed, authorize, is_intact, is_fresh, policy_ok, signer_ok, check_create, nullifier_gate,
  submit_create, claim_nullifier, attest, check_edit, carries_forward,
}
use oursay.Service.Reach.{Reach, here, after, Call, signed, deletion, creation, run}
use oursay.Service.Unsigned.{Draw, append_spec, envelope_of}
use oursay.Service.Authorized.Facts.{IsAuthorized}
use oursay.Service.Authorized.{append_signed-IsAuthorized}
use oursay.Service.Singleton.{OneActive, Reach-OneActive}
use oursay.Service.Singleton.Count.{holders}
use oursay.Service.Roots.{ParentsFirst, IsRootOf, resolve_root-IsRootOf}
use oursay.Service.Lifecycle.{IsRun, Reach-IsRun, ops_of}

abbrev pub codec : Codec
codec = record { stringify = λ j. "0"; parse = λ s. some (str s); key_le = λ a b. true }

abbrev pub curve : Curve
curve = record {
  verify = λ sig digest key. some true;
  verify_any_s = λ sig digest key. some true;
  sign = λ digest key. [];
  public_key = λ key. key;
  from_der = λ sig. some sig;
  atob = λ s. some [];
  btoa = λ b. "";
  decode_text = λ b. "";
  date_parse = λ s. some 1000;
  to_lower_case = λ s. s;
}

abbrev rules : JurisdictionRules
rules = record {
  allow_change = none;
  allow_revoke = none;
  default_deadline = none;
  default_scheme = none;
}

abbrev alberta : JurisdictionConfig
alberta = record {
  id = "alberta";
  rules = rules;
  gates = none;
  content_limits = none;
  recognized_accreditation_body_ids = [];
}

abbrev pub config : Config
config = record {
  platform_priv_key_hex = some zero_hex;
  platform_pub_key_hex = some zero_hex;
  signed_envelope_max_age_sec = 120;
  signed_envelope_future_skew_sec = 60;
  require_device_signer = false;
  enforce_signing_policy = true;
  jurisdictions = record { registered = alberta ∷ []; deployment = alberta };
  chain_id = "canada";
}

abbrev pub thread_key : ThreadKey
thread_key = record {
  user_id = "u1";
  thread_id = "e1";
  jurisdiction = "alberta";
  pubkey = zero_hex;
  persona_name = "Otter12";
}

abbrev binding : ThreadBindingRow
binding = record {
  thread_pubkey = zero_hex;
  thread_id = "e1";
  jurisdiction = "alberta";
  kyc_tier = none;
  commitment = zero_hex;
  binding_sig = zero_hex;
}

abbrev keys : Keys
keys = record {
  thread_keys = thread_key ∷ [];
  thread_bindings = binding ∷ [];
  device_keys = [];
  thread_signers = [];
  credentials = [];
  nullifiers = [];
}

abbrev pub start : Db
start = record { store = record { rows = []; next_seq = 1 }; keys = keys }

abbrev pub content : Json
content = obj (member "title" (str "A road") close)

abbrev pub envelope : TxEnvelope
envelope = record {
  tx_id = "t1";
  type = civic post;
  entity_id = "e1";
  op = create;
  parent_type = none;
  parent_id = none;
  parent_revision_tx_id = none;
  parent_revision_hash = none;
  author_pubkey = zero_hex;
  signer_pubkey = none;
  sign_scheme = none;
  signature = zero_hex;
  webauthn = none;
  created_at = "2026";
  prev_hash = none;
  content_hash = zero_hex;
  nullifier = none;
  proof = none;
}

abbrev pub moment : Moment
moment = record { now = 2000; ledger = some (record { committed = []; blocks = [] }) }

abbrev pub ref : Ref
ref = record { tx_id = "t1"; entity_id = "e1"; tx_hash = zero_hex }

accepted : (append_signed toy codec curve config envelope "s" content moment start).1 ≡ some ref
unfolding append_signed authorize is_intact verify_envelope verify_hex content_commitment
    canonical_json hash_leaf sha256_hex verify_thread_binding is_fresh policy_ok signer_ok
    get_thread_key required_sign_scheme submit_create check_create nullifier_gate validate_create
    validate_content get_head_tx commit new_tx stored_row append get_envelope is_root_type
    op_allowed get_jurisdiction same_hash is_singleton
accepted = refl

append_signed-IsAuthorized_example :
    IsAuthorized toy codec curve config envelope "s" content 2000 keys
    × ((append_signed toy codec curve config envelope "s" content moment start).0.store.rows
        ≡ [] ++ (stored_row toy codec (new_tx envelope "s" content) "canada" 1 2000 ∷ []))
append_signed-IsAuthorized_example =
    append_signed-IsAuthorized toy codec curve config envelope "s" content moment start ref accepted

abbrev post_call : Call toy codec curve config
post_call = signed envelope "s" content

abbrev delete_call : Call toy codec curve config
delete_call = deletion "e1" zero_hex (record {
  tx_id = "t2";
  salt = "s";
  entity_id = "e2";
  created_at = "2026";
  signature = "unsigned";
})

abbrev pub posted : Db
posted = run toy codec curve config post_call moment start

abbrev ended : Db
ended = run toy codec curve config delete_call moment posted

abbrev path : Reach toy codec curve config start ended
path = after (after here post_call moment) delete_call moment

Reach-IsRun_example : IsRun ended.store.rows
Reach-IsRun_example = Reach-IsRun toy codec curve config start ended refl path

abbrev phases : List Op
phases = create ∷ delete ∷ []

history : ops_of "e1" ended.store.rows ≡ phases
unfolding append_signed authorize is_intact verify_envelope verify_hex content_commitment
    canonical_json hash_leaf sha256_hex verify_thread_binding is_fresh policy_ok signer_ok
    get_thread_key required_sign_scheme submit_create check_create nullifier_gate validate_create
    validate_content get_head_tx commit new_tx stored_row append get_envelope is_root_type
    op_allowed get_jurisdiction same_hash is_singleton run oursay.Service.Unsigned.delete
    validate_delete root_of append_spec envelope_of assert_author
history = refl

-- A signed update under another type than the head's is accepted, and changes the entity's type.
abbrev retyped : TxEnvelope
retyped = record envelope {
  tx_id = "t4";
  type = civic comment;
  op = update;
  prev_hash = some zero_hex;
}

abbrev retitled : Json
retitled = obj (member "title" (str "A path") close)

type_changes :
    (append_signed toy codec curve config retyped "s" retitled moment posted).1
    ≡ some (record ref { tx_id = "t4" })
unfolding append_signed authorize is_intact verify_envelope verify_hex content_commitment
    canonical_json hash_leaf sha256_hex verify_thread_binding is_fresh policy_ok signer_ok
    get_thread_key required_sign_scheme submit_create check_create nullifier_gate validate_create
    validate_content get_head_tx commit new_tx stored_row append get_envelope is_root_type
    op_allowed get_jurisdiction same_hash is_singleton run check_edit validate_update root_of
    assert_author carries_forward
type_changes = refl
