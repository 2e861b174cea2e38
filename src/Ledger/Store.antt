-- ===== src/Ledger/Store.antt =====
-- The part of public-record/src/private/store.ts that settlement uses: `record_tx` joined with
-- `record_outbox`. A content that is null is `none`. The rows stand in the order of `seq`, which the
-- database assigns. The columns of UUIDs are texts here, in the spelling in which the database prints
-- them; that it takes capitals, too, and throws on other texts is not modelled.
use oursay.Base.{
  ℕ, suc, zero, String, Bool, true, false, not, ◌&&◌, ◌||◌, Option, none, some, List, [], ◌∷◌, ltb,
  leb, str_eq, if◌then◌else◌, length,
}
use oursay.Crypto.Canonical.{Json}
use oursay.Schema.Types.{RecordType, Op}

pub record StoredTx : Type 0 where
  pub tx_id : String
  pub seq : ℕ
  pub type : RecordType
  pub entity_id : String
  pub op : Op
  pub parent_type : Option RecordType
  pub parent_id : Option String
  pub parent_revision_tx_id : Option String
  pub parent_revision_hash : Option String
  pub author_pubkey : String
  pub nullifier : Option String
  pub prev_hash : Option String
  pub content_hash : String
  pub tx_hash : String
  pub envelope : String
  pub salt : Option String
  pub content : Option Json
  pub redacted : Bool
  pub erased : Bool
  pub block_height : Option ℕ
  pub chain_id : String
  pub sent : Bool
  pub enqueued_at : ℕ

pub record Store : Type 0 where
  pub rows : List StoredTx
  pub next_seq : ℕ

abbrev pub filter {ℓ} : {A : Type ℓ} → (A → Bool) → List A → List A
filter p [] = []
filter p (x ∷ xs) = let rest = filter p xs in if p x then x ∷ rest else rest

abbrev pub take {ℓ} : {A : Type ℓ} → ℕ → List A → List A
take zero xs = []
take (suc n) [] = []
take (suc n) (x ∷ xs) = x ∷ take n xs

abbrev pub contains : List String → String → Bool
contains [] s = false
contains (x ∷ xs) s = str_eq x s || contains xs s

abbrev pub is_pending : String → StoredTx → Bool
is_pending chain_id t = not t.sent && str_eq t.chain_id chain_id

-- The pending rows of one chain, oldest first.
pub pending_rows : String → Store → List StoredTx
pending_rows chain_id s = filter (is_pending chain_id) s.rows

unfoldable pub get_pending_for_settlement : String → ℕ → Store → List StoredTx
unfolding pending_rows
get_pending_for_settlement chain_id limit s = take limit (pending_rows chain_id s)

min_enqueued : List StoredTx → Option ℕ
min_enqueued [] = none
min_enqueued (t ∷ rest) = elim (min_enqueued rest) [
  | none ↦ some t.enqueued_at
  | some m ↦ some (if ltb t.enqueued_at m then t.enqueued_at else m)
]

-- The count of pending rows and the least `enqueued_at`.
pub get_pending_pool_stats : String → Store → ℕ × Option ℕ
unfolding pending_rows min_enqueued
get_pending_pool_stats chain_id s =
    let rows = pending_rows chain_id s in (length rows, min_enqueued rows)

abbrev pub map_rows : (StoredTx → StoredTx) → List StoredTx → List StoredTx
map_rows f [] = []
map_rows f (t ∷ rest) = f t ∷ map_rows f rest

pub mark_outbox_sent_batch : List String → Store → Store
mark_outbox_sent_batch ids s = record s {
  rows = map_rows (λ t. if contains ids t.tx_id then record t { sent = true } else t) s.rows;
}

pub mark_tx_block_height_batch : List String → ℕ → Store → Store
mark_tx_block_height_batch ids height s = record s {
  rows =
      map_rows (λ t. if contains ids t.tx_id then record t { block_height = some height } else t)
        s.rows;
}

unfoldable pub get_txs_by_seq_range : String → ℕ → ℕ → Store → List StoredTx
get_txs_by_seq_range chain_id from to s =
    filter (λ t. str_eq t.chain_id chain_id && ltb from t.seq && leb t.seq to) s.rows

-- `redact`: the plaintext is withheld, and stays.
unfoldable pub redact : String → Store → Store
redact tx_id s = record s {
  rows = map_rows (λ t. if str_eq t.tx_id tx_id then record t { redacted = true } else t) s.rows;
}

abbrev pub without_plaintext : String → StoredTx → StoredTx
without_plaintext tx_id t =
    if str_eq t.tx_id tx_id then record t { content = none; salt = none; erased = true } else t

-- `erase`: the plaintext and the salt are destroyed.
unfoldable pub erase : String → Store → Store
erase tx_id s = record s { rows = map_rows (without_plaintext tx_id) s.rows }
