-- ===== src/Service/Accepted/Validated.antt =====
-- What a validated update or deletion has passed.
use oursay.Base.{
  not-true, ℕ, ◌≡◌, ap, ◌∙◌, String, Bool, true, false, not, ◌&&◌, Option, some, List, arith,
  some_inj, ◌>>=◌, >>=-eq-some,
}
use oursay.Crypto.Hash.{Hasher}
use oursay.Crypto.Canonical.{Json, Codec}
use oursay.Schema.Types.{Op, op_allowed}
use oursay.Ledger.Store.{StoredTx}
use oursay.Identity.Curve.{Curve}
use oursay.Service.State.{is_deleted, get_head_tx}
use oursay.Service.Config.{Config, guard, guard-eq-some}
use oursay.Service.Validate.{
  validate_update, validate_delete, assert_author, root_of, content_ok, change_ok, revoke_ok,
}

-- `v` is the head of the entity, which is not deleted and allows the operation to the actor, with
-- its root.
pub record IsValid (entity_id actor : String) (op : Op) (rows : List StoredTx)
    (v : StoredTx × String) : Type 0 where
  pub is_head : get_head_tx entity_id rows ≡ some v.0
  pub alive : is_deleted v.0 ≡ false
  pub allowed : op_allowed v.0.type op ≡ true
  pub authored : assert_author v.0.author_pubkey actor ≡ true
  pub rooted : root_of v.0 rows ≡ some v.1

-- The body of the two functions behind the lookup of the head.
validated :
    (entity_id actor : String) (op : Op) (rows : List StoredTx) (head : StoredTx) (rest : Bool)
    {v : StoredTx × String}
    → get_head_tx entity_id rows ≡ some head
    → guard
        (not (is_deleted head)
          && (op_allowed head.type op && (assert_author head.author_pubkey actor && rest)))
        (root_of head rows >>= (λ (root : String). some (head, root)))
      ≡ some v
    → IsValid entity_id actor op rows v
validated entity_id actor op rows head rest {v = v} is_head e =
    let alive = is_deleted head in
    let allowed = op_allowed head.type op in
    let authored = assert_author head.author_pubkey actor in
    let (passed, found) = guard-eq-some (not alive && (allowed && (authored && rest))) _ e in
    let (root, up, done) = >>=-eq-some (root_of head rows) (λ (r : String). some (head, r)) found in
    let same = some_inj done in
    record {
      is_head = is_head ∙ ap (λ (p : StoredTx × String). some p.0) same;
      alive = rw (← same) (not-true alive (ground (arith, passed)));
      allowed = rw (← same) (ground (arith, passed));
      authored = rw (← same) (ground (arith, passed));
      rooted = rw (← same) up;
    }

module _ (h : Hasher) (codec : Codec) (curve : Curve) (cfg : Config) where
  pub validate_update-IsValid :
      (entity_id actor : String) (content : Option Json) (now : ℕ) (j : Option String)
      (rows : List StoredTx) {v : StoredTx × String}
      → validate_update h codec curve cfg entity_id actor content now j rows ≡ some v
      → IsValid entity_id actor Op.update rows v
  unfolding validate_update
  validate_update-IsValid entity_id actor content now j rows e =
      let (head, is_head, e') = >>=-eq-some (get_head_tx entity_id rows) _ e in
      validated entity_id actor Op.update rows head
        (content_ok h codec curve cfg head content j && change_ok h codec curve cfg head now j rows)
        is_head e'

  pub validate_delete-IsValid :
      (entity_id actor : String) (now : ℕ) (j : Option String) (rows : List StoredTx)
      {v : StoredTx × String}
      → validate_delete h codec curve cfg entity_id actor now j rows ≡ some v
      → IsValid entity_id actor Op.delete rows v
  unfolding validate_delete
  validate_delete-IsValid entity_id actor now j rows e =
      let (head, is_head, e') = >>=-eq-some (get_head_tx entity_id rows) _ e in
      validated entity_id actor Op.delete rows head (revoke_ok h codec curve cfg head now j rows)
        is_head e'
