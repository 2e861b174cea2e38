-- ===== src/Ledger/Connector.antt =====
-- The ledger connector of public-record/src/ledger/pgwire.connector.ts over the two append-only
-- tables of immudb: the committed rows, and the block headers, latest first.
pub mod Chained
use oursay.Base.{
  ℕ, String, ◌&&◌, Option, none, some, List, [], ◌∷◌, leb, ◌==◌, str_eq, if◌then◌else◌,
}
use oursay.Anchor.Record.{BlockHeader}

pub record CommittedRow : Type 0 where
  pub tx_id : String
  pub chain_id : String
  pub envelope : String
  pub block_height : ℕ

pub record Ledger : Type 0 where
  pub committed : List CommittedRow
  pub blocks : List BlockHeader

find_row : String → List CommittedRow → Option CommittedRow
find_row tx_id [] = none
find_row tx_id (r ∷ rest) = if str_eq r.tx_id tx_id then some r else find_row tx_id rest

unfoldable pub get_envelope : String → Ledger → Option String
unfolding find_row
get_envelope tx_id l = elim (find_row tx_id l.committed) [ none ↦ none | some r ↦ some r.envelope ]

pub get_block_height_for_tx : String → Ledger → Option ℕ
unfolding find_row
get_block_height_for_tx tx_id l = elim (find_row tx_id l.committed) [
  | none ↦ none
  | some r ↦ if leb 1 r.block_height then some r.block_height else none
]

-- `appendTx` behind the test of `appendTxBatch`: a row that is there is skipped.
pub append_row : CommittedRow → Ledger → Ledger
unfolding get_envelope
append_row r l = elim (get_envelope r.tx_id l) [
  | none ↦ record l { committed = r ∷ l.committed }
  | some _ ↦ l
]

pub append_tx_batch : List CommittedRow → Ledger → Ledger
unfolding append_row
append_tx_batch [] l = l
append_tx_batch (r ∷ rest) l = append_tx_batch rest (append_row r l)

find_block : String → ℕ → List BlockHeader → Option BlockHeader
find_block chain_id height [] = none
find_block chain_id height (b ∷ rest) =
    if str_eq b.chain_id chain_id && b.block_height == height
    then some b
    else find_block chain_id height rest

unfoldable pub fetch_block_by_height : String → ℕ → Ledger → Option BlockHeader
unfolding find_block
fetch_block_by_height chain_id height l = find_block chain_id height l.blocks

-- The greater of two headers by height, as `ORDER BY block_height DESC LIMIT 1` picks it.
abbrev higher : BlockHeader → Option BlockHeader → Option BlockHeader
higher b none = some b
higher b (some best) = if leb best.block_height b.block_height then some b else some best

latest_block : String → List BlockHeader → Option BlockHeader
latest_block chain_id [] = none
latest_block chain_id (b ∷ rest) =
    let best = latest_block chain_id rest in
    if str_eq b.chain_id chain_id then higher b best else best

unfoldable pub fetch_latest_block : String → Ledger → Option BlockHeader
unfolding latest_block
fetch_latest_block chain_id l = latest_block chain_id l.blocks

-- Idempotent on the chain and the height.
pub append_block : BlockHeader → Ledger → Ledger
unfolding fetch_block_by_height
append_block b l = elim (fetch_block_by_height b.chain_id b.block_height l) [
  | none ↦ record l { blocks = b ∷ l.blocks }
  | some _ ↦ l
]
