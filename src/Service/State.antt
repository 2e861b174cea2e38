-- ===== src/Service/State.antt =====
-- What public-record/src/record.ts reads of the private store: the views `entity_state` and
-- `entity_current_revision` over `record_tx`, whose rows stand in the order of `seq`. The row of an
-- entity in `entity_state` is its last transaction.
use oursay.Base.{
  String, Bool, false, not, ◌&&◌, Option, none, some, List, [], ◌∷◌, str_eq, if◌then◌else◌, ◌>>=◌,
}
use oursay.Schema.Types.{RecordType, same_type}
use oursay.Ledger.Store.{StoredTx}
use oursay.Identity.Tables.{find, has}
use oursay.Schema.Content.{is_delete}

abbrev pub is_deleted : StoredTx → Bool
is_deleted t = is_delete t.op

abbrev pub later_or : Option StoredTx → Bool → StoredTx → Option StoredTx
later_or (some later) b t = some later
later_or none b t = if b then some t else none

-- The last row that a test holds of.
abbrev pub find_last : (StoredTx → Bool) → List StoredTx → Option StoredTx
find_last p [] = none
find_last p (t ∷ rest) = later_or (find_last p rest) (p t) t

unfoldable pub get_head_tx : String → List StoredTx → Option StoredTx
get_head_tx entity_id rows = find_last (λ t. str_eq t.entity_id entity_id) rows

unfoldable pub get_entity_state : String → List StoredTx → Option StoredTx
unfolding get_head_tx
get_entity_state entity_id rows = get_head_tx entity_id rows

-- The last creation or update.
unfoldable pub get_current_revision : String → List StoredTx → Option StoredTx
get_current_revision entity_id rows =
    find_last (λ t. str_eq t.entity_id entity_id && not (is_deleted t)) rows

-- The rows of `entity_state` that are not deleted.
abbrev pub active_rows : List StoredTx → List StoredTx
active_rows [] = []
active_rows (t ∷ rest) =
    let later = active_rows rest in
    if not (is_deleted t) && not (has (λ r. str_eq r.entity_id t.entity_id) rest)
    then t ∷ later
    else later

-- A column that is not null has this value.
abbrev pub is_value : Option String → String → Bool
is_value none s = false
is_value (some r) s = str_eq r s

pub get_active_singleton : RecordType → String → String → List StoredTx → Option String
get_active_singleton type author_pubkey parent_id rows =
    find
      (λ t.
        same_type t.type type
        && (str_eq t.author_pubkey author_pubkey && is_value t.parent_id parent_id))
      (active_rows rows)
    >>= (λ t. some t.entity_id)

abbrev pub bears_nullifier : String → String → StoredTx → Bool
bears_nullifier parent_id nullifier t =
    is_value t.parent_id parent_id && is_value t.nullifier nullifier

unfoldable pub has_active_singleton_by_nullifier : String → String → List StoredTx → Bool
has_active_singleton_by_nullifier parent_id nullifier rows =
    has (bears_nullifier parent_id nullifier) (active_rows rows)
