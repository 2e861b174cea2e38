-- ===== src/Service/Validate.antt =====
-- The validation that the signed and the unsigned paths of public-record/src/record.ts share.
-- `none` is a thrown exception.
use oursay.Base.{
  ℕ, zero, suc, String, Bool, true, false, not, ◌&&◌, ◌||◌, Option, none, some, List, leb, str_eq,
  if◌then◌else◌, ◌>>=◌, length,
}
use oursay.Crypto.Hash.{Hasher}
use oursay.Crypto.Canonical.{Json, Codec, get_member, str}
use oursay.Schema.Types.{
  RecordType, civic, comment, reaction, vote, petition_signature, create, update, delete, same_type,
  op_allowed, is_root_type, parent_allowed, is_singleton, comment_max_depth, reaction_kinds,
  platform_pubkey, includes,
}
use oursay.Schema.Content.{members_of, validate_content}
use oursay.Ledger.Store.{StoredTx}
use oursay.Policy.Governance.{EntityState, rules_of, can_change_vote, can_revoke_signature}
use oursay.Identity.Curve.{Curve}
use oursay.Identity.Envelope.{given}
use oursay.Service.State.{get_head_tx, get_entity_state, get_current_revision, is_deleted}
use oursay.Service.Config.{Config, guard}

pub record ParentRef : Type 0 where
  pub type : RecordType
  pub id : String

-- What `validateCreate` returns.
pub record Resolved : Type 0 where
  pub parent_revision_hash : Option String
  pub parent_revision_tx_id : Option String
  pub root_entity_id : String
  pub singleton : Bool

-- The next ancestor in the loop of `resolveRoot`, if it goes on.
abbrev pub next_ancestor : Option StoredTx → Option String
next_ancestor none = none
next_ancestor (some t) = if is_root_type t.type then none else given t.parent_id

-- The loop of `resolveRoot` on fuel; `none`: the fuel is at its end.
unfoldable pub climb : ℕ → String → List StoredTx → Option String
climb zero id rows = none
climb (suc fuel) id rows = elim (next_ancestor (get_entity_state id rows)) [
  | none ↦ some id
  | some up ↦ climb fuel up rows
]

unfoldable pub resolve_root : String → List StoredTx → Option String
unfolding climb
resolve_root parent_id rows = climb (suc (length rows)) parent_id rows

unfoldable pub root_of : StoredTx → List StoredTx → Option String
unfolding resolve_root
root_of head rows = if is_root_type head.type then some head.entity_id else elim head.parent_type [
  | none ↦ some head.entity_id
  | some t ↦ elim (given head.parent_id) [
    | none ↦ some head.entity_id
    | some id ↦ resolve_root id rows
  ]
]

-- The comment from which the loop of `newCommentDepth` goes up, if it goes on.
abbrev pub comment_above : Option RecordType → Option String → Option String
comment_above none id = none
comment_above (some t) id = if same_type t (civic comment) then given id else none

-- The loop of `newCommentDepth` on fuel.
pub depth_above : ℕ → Option RecordType → Option String → List StoredTx → Option ℕ
depth_above zero type id rows = none
depth_above (suc fuel) type id rows = elim (comment_above type id) [
  | none ↦ some 1
  | some up ↦ do
    ps ← get_entity_state up rows
    depth ← depth_above fuel ps.parent_type ps.parent_id rows
    some (suc depth)
]

unfoldable pub new_comment_depth : ParentRef → List StoredTx → Option ℕ
unfolding depth_above
new_comment_depth parent rows =
    depth_above (suc (length rows)) (some parent.type) (some parent.id) rows

abbrev pub is_comment : RecordType → Bool
is_comment t = same_type t (civic comment)

-- A comment is not too deep.
unfoldable pub depth_ok : RecordType → ParentRef → List StoredTx → Bool
unfolding new_comment_depth
depth_ok t parent rows =
    if is_comment t
    then elim (new_comment_depth parent rows) [
      | none ↦ false
      | some depth ↦ leb depth comment_max_depth
    ]
    else true

abbrev pub is_reaction_kind : Option Json → Bool
is_reaction_kind (some (str kind)) = includes str_eq reaction_kinds kind
is_reaction_kind _ = false

abbrev pub kind_ok : RecordType → Json → Bool
kind_ok t content =
    if same_type t (civic reaction)
    then is_reaction_kind (get_member "kind" (members_of content))
    else true

abbrev pub revision_hash : Option StoredTx → Option String
revision_hash none = none
revision_hash (some t) = some t.tx_hash

abbrev pub revision_tx_id : Option StoredTx → Option String
revision_tx_id none = none
revision_tx_id (some t) = some t.tx_id

-- `assertAuthor`.
unfoldable pub assert_author : String → String → Bool
assert_author owner actor = str_eq owner actor || str_eq actor platform_pubkey

-- The branch of `validateCreate` for a type that takes a parent.
unfoldable pub attach : RecordType → Json → Option ParentRef → List StoredTx → Option Resolved
unfolding get_entity_state get_current_revision resolve_root new_comment_depth depth_ok
attach t content none rows = none
attach t content (some parent) rows = guard (parent_allowed t parent.type) (do
  ps ← get_entity_state parent.id rows
  guard
      (same_type ps.type parent.type
        && (not (is_deleted ps) && (depth_ok t parent rows && kind_ok t content)))
      (do
        root ← resolve_root parent.id rows
        let rev = get_current_revision parent.id rows
        some (record {
          parent_revision_hash = revision_hash rev;
          parent_revision_tx_id = revision_tx_id rev;
          root_entity_id = root;
          singleton = is_singleton t;
        })))

-- The branch for a root type.
abbrev pub stand_alone : RecordType → String → Option ParentRef → Option Resolved
stand_alone t entity_id (some parent) = none
stand_alone t entity_id none = some (record {
  parent_revision_hash = none;
  parent_revision_tx_id = none;
  root_entity_id = entity_id;
  singleton = is_singleton t;
})

module _ (h : Hasher) (codec : Codec) (curve : Curve) (cfg : Config) where
  unfoldable pub validate_create :
      RecordType
      → Json
      → Option ParentRef
      → String
      → Option String
      → List StoredTx
      → Option Resolved
  unfolding attach
  validate_create t content parent entity_id jurisdiction_id rows =
      guard
        (op_allowed t create
          && validate_content h codec curve.date_parse t create content jurisdiction_id
              cfg.jurisdictions)
        (if is_root_type t then stand_alone t entity_id parent else attach t content parent rows)

  -- The state of an entity that governs what is attached to it.
  abbrev pub governing : Option StoredTx → Option EntityState
  governing none = none
  governing (some t) =
      some (record { is_deleted = is_deleted t; rules = rules_of curve.date_parse t.content })

  -- A vote is changed as the rules of its poll allow.
  abbrev pub change_ok : StoredTx → ℕ → Option String → List StoredTx → Bool
  change_ok head now jurisdiction_id rows =
      if same_type head.type (civic vote)
      then elim (given head.parent_id) [
        | none ↦ false
        | some poll ↦
            can_change_vote (governing (get_entity_state poll rows)) now jurisdiction_id
              cfg.jurisdictions
      ]
      else true

  abbrev pub revoke_ok : StoredTx → ℕ → Option String → List StoredTx → Bool
  revoke_ok head now jurisdiction_id rows =
      if same_type head.type (civic petition_signature)
      then elim (given head.parent_id) [
        | none ↦ false
        | some petition ↦
            can_revoke_signature (governing (get_entity_state petition rows)) now jurisdiction_id
              cfg.jurisdictions
      ]
      else true

  abbrev pub content_ok : StoredTx → Option Json → Option String → Bool
  content_ok head none jurisdiction_id = true
  content_ok head (some content) jurisdiction_id =
      validate_content h codec curve.date_parse head.type update content jurisdiction_id
        cfg.jurisdictions

  -- The head and the root of the entity.
  unfoldable pub validate_update :
      String → String → Option Json → ℕ → Option String → List StoredTx → Option (StoredTx × String)
  unfolding assert_author root_of
  validate_update entity_id actor content now jurisdiction_id rows = do
    head ← get_head_tx entity_id rows
    guard
        (not (is_deleted head)
          && (op_allowed head.type update
              && (assert_author head.author_pubkey actor
                  && (content_ok head content jurisdiction_id
                      && change_ok head now jurisdiction_id rows))))
        (root_of head rows >>= (λ root. some (head, root)))

  unfoldable pub validate_delete :
      String → String → ℕ → Option String → List StoredTx → Option (StoredTx × String)
  unfolding assert_author root_of
  validate_delete entity_id actor now jurisdiction_id rows = do
    head ← get_head_tx entity_id rows
    guard
        (not (is_deleted head)
          && (op_allowed head.type delete
              && (assert_author head.author_pubkey actor
                  && revoke_ok head now jurisdiction_id rows)))
        (root_of head rows >>= (λ root. some (head, root)))
