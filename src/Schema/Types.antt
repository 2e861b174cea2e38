-- ===== src/Schema/Types.antt =====
-- public-record/src/schema/types.ts: the types of records, the tables of what each may do, and the
-- envelope of a transaction, with its value in JSON.
use oursay.Base.{ℕ, String, Bool, true, false, Option, none, some, List, [], ◌∷◌, str_eq, ◌||◌}
use oursay.Crypto.Canonical.{Json, num, str, obj, close, member, optional, or_null}

pub data SignScheme : Type 0 where
  p256 webauthn_es256 : SignScheme

pub data GatedAction : Type 0 where
  post petition poll result comment reaction vote petition_signature : GatedAction

pub data RecordType : Type 0 where
  civic : GatedAction → RecordType
  platform_ops : RecordType

pub data Op : Type 0 where
  create update delete : Op

abbrev pub op_name : Op → String
op_name create = "create"
op_name update = "update"
op_name delete = "delete"

abbrev pub action_name : GatedAction → String
action_name post = "post"
action_name petition = "petition"
action_name poll = "poll"
action_name result = "result"
action_name comment = "comment"
action_name reaction = "reaction"
action_name vote = "vote"
action_name petition_signature = "petition_signature"

abbrev pub type_name : RecordType → String
type_name (civic a) = action_name a
type_name platform_ops = "platform_ops"

abbrev pub same_op : Op → Op → Bool
same_op a b = str_eq (op_name a) (op_name b)

abbrev pub same_type : RecordType → RecordType → Bool
same_type a b = str_eq (type_name a) (type_name b)

-- `includes`.
abbrev pub includes {ℓ} : {A : Type ℓ} → (A → A → Bool) → List A → A → Bool
includes eq [] x = false
includes eq (y ∷ ys) x = eq y x || includes eq ys x

-- `PARENT_RULES`.
abbrev pub parent_rules : RecordType → List RecordType
parent_rules platform_ops = []
parent_rules (civic comment) =
    civic post ∷ civic petition ∷ civic poll ∷ civic result ∷ civic comment ∷ []
parent_rules (civic reaction) = civic post ∷ civic comment ∷ civic result ∷ []
parent_rules (civic petition_signature) = civic petition ∷ []
parent_rules (civic vote) = civic poll ∷ []
parent_rules (civic post) = []
parent_rules (civic petition) = []
parent_rules (civic poll) = []
parent_rules (civic result) = []

-- `ALLOWED_OPS`.
abbrev pub allowed_ops : RecordType → List Op
allowed_ops platform_ops = create ∷ update ∷ []
allowed_ops (civic petition_signature) = create ∷ delete ∷ []
allowed_ops (civic vote) = create ∷ update ∷ []
allowed_ops (civic post) = create ∷ update ∷ delete ∷ []
allowed_ops (civic petition) = create ∷ update ∷ delete ∷ []
allowed_ops (civic poll) = create ∷ update ∷ delete ∷ []
allowed_ops (civic result) = create ∷ update ∷ delete ∷ []
allowed_ops (civic comment) = create ∷ update ∷ delete ∷ []
allowed_ops (civic reaction) = create ∷ update ∷ delete ∷ []

-- `SINGLETON_PER_AUTHOR_PARENT`.
abbrev pub singleton_per_author_parent : List RecordType
singleton_per_author_parent = civic reaction ∷ civic vote ∷ civic petition_signature ∷ []

unfoldable pub is_singleton : RecordType → Bool
is_singleton t = includes same_type singleton_per_author_parent t

abbrev pub is_none_left {ℓ} : {A : Type ℓ} → List A → Bool
is_none_left [] = true
is_none_left (x ∷ xs) = false

unfoldable pub is_root_type : RecordType → Bool
is_root_type t = is_none_left (parent_rules t)

unfoldable pub op_allowed : RecordType → Op → Bool
op_allowed t op = includes same_op (allowed_ops t) op

unfoldable pub parent_allowed : RecordType → RecordType → Bool
parent_allowed child parent = includes same_type (parent_rules child) parent

-- `COMMENT_MAX_DEPTH`.
abbrev pub comment_max_depth : ℕ
comment_max_depth = 3

-- `PLATFORM_PUBKEY`.
abbrev pub platform_pubkey : String
platform_pubkey = "platform"

-- `REACTION_KINDS`.
abbrev pub reaction_kinds : List String
reaction_kinds = "check" ∷ "cross" ∷ []

pub record WebauthnAssertion : Type 0 where
  pub authenticator_data : String
  pub client_data_json : String
  pub signature : String

-- `v` is 1 throughout.
pub record TxEnvelope : Type 0 where
  pub tx_id : String
  pub type : RecordType
  pub entity_id : String
  pub op : Op
  pub parent_type : Option RecordType
  pub parent_id : Option String
  pub parent_revision_tx_id : Option String
  pub parent_revision_hash : Option String
  pub author_pubkey : String
  pub signer_pubkey : Option String
  pub sign_scheme : Option SignScheme
  pub signature : String
  pub webauthn : Option WebauthnAssertion
  pub created_at : String
  pub prev_hash : Option String
  pub content_hash : String
  pub nullifier : Option String
  pub proof : Option String

abbrev pub scheme_name : SignScheme → String
scheme_name p256 = "p256"
scheme_name webauthn_es256 = "webauthn-es256"

-- `o?.f`, and the value of a text in JSON.
abbrev pub when {ℓ κ} : {A : Type ℓ} {B : Type κ} → (A → B) → Option A → Option B
when f none = none
when f (some x) = some (f x)

abbrev pub assertion_json : WebauthnAssertion → Json
assertion_json w = obj (
    member "authenticatorData" (str w.authenticator_data) (
      member "clientDataJSON" (str w.client_data_json)
        (member "signature" (str w.signature) close)))

pub envelope_json : TxEnvelope → Json
envelope_json e =
    let text = when {B = Json} str in
    let proofs = optional "nullifier" (text e.nullifier) (optional "proof" (text e.proof) close) in
    let hashes =
      member "prevHash" (or_null e.prev_hash) (member "contentHash" (str e.content_hash) proofs) in
    let signed = member "signature" (str e.signature) (
      optional "webauthn" (when assertion_json e.webauthn)
        (member "createdAt" (str e.created_at) hashes)) in
    let author = member "authorPubkey" (str e.author_pubkey) (
      optional "signerPubkey" (text e.signer_pubkey)
        (optional "signScheme" (when (λ s. str (scheme_name s)) e.sign_scheme) signed)) in
    let parent = optional "parentType" (when (λ t. str (type_name t)) e.parent_type) (
      optional "parentId" (text e.parent_id) (
        optional "parentRevisionTxId" (text e.parent_revision_tx_id)
          (optional "parentRevisionHash" (text e.parent_revision_hash) author))) in
    obj (
      member "v" (num 1) (
        member "txId" (str e.tx_id) (
          member "type" (str (type_name e.type))
            (member "entityId" (str e.entity_id) (member "op" (str (op_name e.op)) parent)))))
