-- ===== src/Ledger/Connector/Chained.antt =====
-- The blocks of one chain on the ledger, newest first, and the chain that they form.
use oursay.Base.{
  ℕ, suc, ◌+◌, ◌<◌, ◌≤◌, length, rev_append, ◌≡◌, refl, ap, ◌∙◌, String, Option, none, some, List,
  [], ◌∷◌, arith, ◌==◌, str_eq, if◌then◌else◌, Bool-cases, Option-cases, inl, inr,
}
use oursay.Crypto.Hash.{Hasher}
use oursay.Anchor.Record.{BlockHeader}
use oursay.Anchor.Tip.{compute_chain_tip_hash}
use oursay.Ledger.Store.{filter}
use oursay.Ledger.Connector.{
  Ledger, CommittedRow, higher, latest_block, fetch_latest_block, find_block, fetch_block_by_height,
  append_block, append_row, append_tx_batch, get_envelope,
}

abbrev pub from_seq_of : Option BlockHeader → ℕ
from_seq_of none = 0
from_seq_of (some b) = b.to_seq

abbrev pub height_of : Option BlockHeader → ℕ
height_of none = 0
height_of (some b) = b.block_height

abbrev pub root_of : Option BlockHeader → Option String
root_of none = none
root_of (some b) = some b.bundle_merkle_root

abbrev pub tip_of : Option BlockHeader → Option String
tip_of none = none
tip_of (some b) = some b.chain_tip_hash

abbrev pub newest : List BlockHeader → Option BlockHeader
newest [] = none
newest (b ∷ rest) = some b

abbrev pub chain_blocks : String → List BlockHeader → List BlockHeader
chain_blocks chain_id = filter (λ b. str_eq b.chain_id chain_id)

-- `b` is the block of the chain that follows `prev`, or its first block.
pub record Continues (h : Hasher) (chain_id : String) (prev : Option BlockHeader) (b : BlockHeader)
    : Type 0 where
  pub chain : b.chain_id ≡ chain_id
  pub height : b.block_height ≡ height_of prev + 1
  pub seq : b.from_seq ≡ from_seq_of prev
  pub root : b.prev_block_root ≡ root_of prev
  pub prev_tip : b.prev_chain_tip_hash ≡ tip_of prev
  pub tip : compute_chain_tip_hash h (tip_of prev) b.bundle_merkle_root ≡ some b.chain_tip_hash

-- Blocks, newest first, each of which continues the one after it in the list.
abbrev pub Chained : Hasher → String → List BlockHeader → Type 0
Chained h chain_id [] = Unit
Chained h chain_id (b ∷ rest) = Continues h chain_id (newest rest) b × Chained h chain_id rest

-- Every chain on the ledger is linked.
abbrev pub IsChained : Hasher → Ledger → Type 0
IsChained h l = (chain_id : String) → Chained h chain_id (chain_blocks chain_id l.blocks)

-- The latest block and the block at a height, among the blocks of one chain.
highest : List BlockHeader → Option BlockHeader
highest [] = none
highest (b ∷ rest) = higher b (highest rest)

at_height : ℕ → List BlockHeader → Option BlockHeader
at_height n [] = none
at_height n (b ∷ rest) =
    let rest' = at_height n rest in if b.block_height == n then some b else rest'

latest_block-highest :
    (chain_id : String) (bs : List BlockHeader)
    → latest_block chain_id bs ≡ highest (chain_blocks chain_id bs)
unfolding latest_block highest
latest_block-highest chain_id [] = refl
latest_block-highest chain_id (b ∷ rest) =
    let ih = latest_block-highest chain_id rest in
    elim (Bool-cases (str_eq b.chain_id chain_id)) [
      | inl t ↦ rw (t, ih) refl
      | inr f ↦ rw (f, ih) refl
    ]

find_block-at_height :
    (chain_id : String) (n : ℕ) (bs : List BlockHeader)
    → find_block chain_id n bs ≡ at_height n (chain_blocks chain_id bs)
unfolding find_block at_height
find_block-at_height chain_id n [] = refl
find_block-at_height chain_id n (b ∷ rest) =
    let ih = find_block-at_height chain_id n rest in
    elim (Bool-cases (str_eq b.chain_id chain_id)) [
      | inl t ↦ rw (t, ih) refl
      | inr f ↦ rw (f, ih) refl
    ]

module _ (h : Hasher) (chain_id : String) where
  higher-Continues :
      (prev : Option BlockHeader) (b : BlockHeader)
      → Continues h chain_id prev b
      → higher b prev ≡ some b
  higher-Continues none b c = refl
  higher-Continues (some p) b c = ground (arith, c.height)

  highest-newest : (bs : List BlockHeader) → Chained h chain_id bs → highest bs ≡ newest bs
  unfolding highest
  highest-newest [] c = refl
  highest-newest (b ∷ rest) c = rw (highest-newest rest c.1) (higher-Continues (newest rest) b c.0)

  absent_above :
      (n : ℕ) (bs : List BlockHeader)
      → Chained h chain_id bs
      → height_of (newest bs) < n
      → at_height n bs ≡ none
  unfolding at_height
  absent_above n [] c lt = refl
  absent_above n (b ∷ rest) c lt =
      ground (arith, absent_above n rest c.1 (omega (arith, c.0.height)), lt)

  -- The tip that the connector reads is the newest block.
  pub fetch_latest_block-newest :
      (l : Ledger)
      → Chained h chain_id (chain_blocks chain_id l.blocks)
      → fetch_latest_block chain_id l ≡ newest (chain_blocks chain_id l.blocks)
  unfolding fetch_latest_block
  fetch_latest_block-newest l c =
      latest_block-highest chain_id l.blocks ∙ highest-newest (chain_blocks chain_id l.blocks) c

  -- A block above the tip is not on the ledger, and is put in front.
  pub append_block-blocks :
      (l : Ledger) (b : BlockHeader)
      → b.chain_id ≡ chain_id
      → Chained h chain_id (chain_blocks chain_id l.blocks)
      → height_of (newest (chain_blocks chain_id l.blocks)) < b.block_height
      → (append_block b l).blocks ≡ b ∷ l.blocks
  unfolding append_block fetch_block_by_height
  append_block-blocks l b e c lt =
      let absent : find_block b.chain_id b.block_height l.blocks ≡ none = rw e (
        find_block-at_height chain_id b.block_height l.blocks
        ∙ absent_above b.block_height (chain_blocks chain_id l.blocks) c lt) in
      rw (absent, append_block) refl

module _ (h : Hasher) (chain_id : String) where
  pub Chained-suffix :
      (later acc : List BlockHeader)
      → Chained h chain_id (rev_append later acc)
      → Chained h chain_id acc
  Chained-suffix [] acc c = c
  Chained-suffix (x ∷ xs) acc c = (Chained-suffix xs (x ∷ acc) c).1

  -- Heights count the blocks.
  pub height_of-length :
      (bs : List BlockHeader) → Chained h chain_id bs → height_of (newest bs) ≡ length bs
  height_of-length [] c = refl
  height_of-length (b ∷ rest) c = omega (arith, c.0.height, height_of-length rest c.1)

  at_height-rev_append :
      (n : ℕ) (later acc : List BlockHeader) {b : BlockHeader}
      → Chained h chain_id (rev_append later acc)
      → at_height n acc ≡ some b
      → n ≤ length acc
      → at_height n (rev_append later acc) ≡ some b
  unfolding at_height
  at_height-rev_append n [] acc c e le = e
  at_height-rev_append n (x ∷ xs) acc c e le =
      let k = Chained-suffix xs (x ∷ acc) c in
      let above = height_of-length (x ∷ acc) k in
      at_height-rev_append n xs (x ∷ acc) c (ground (arith, e, above, le)) (omega (arith, le))

  -- The block after `older` blocks of the chain is read at the height after theirs.
  pub fetch_block_by_height-after :
      (l : Ledger) (later : List BlockHeader) (b : BlockHeader) (older : List BlockHeader)
      → Chained h chain_id (chain_blocks chain_id l.blocks)
      → chain_blocks chain_id l.blocks ≡ rev_append later (b ∷ older)
      → fetch_block_by_height chain_id (suc (length older)) l ≡ some b
  unfolding fetch_block_by_height at_height
  fetch_block_by_height-after l later b older c e =
      let k : Chained h chain_id (rev_append later (b ∷ older)) = rw e at c in
      let height = height_of-length (b ∷ older) (Chained-suffix later (b ∷ older) k) in
      let here : at_height (suc (length older)) (b ∷ older) ≡ some b = ground (arith, height) in
      find_block-at_height chain_id (suc (length older)) l.blocks
      ∙ ap (at_height (suc (length older))) e
      ∙ at_height-rev_append (suc (length older)) later (b ∷ older) k here (omega arith)

pub append_row-blocks : (r : CommittedRow) (l : Ledger) → (append_row r l).blocks ≡ l.blocks
unfolding append_row
append_row-blocks r l = elim (Option-cases (get_envelope r.tx_id l)) [
  | inl e ↦ rw (e, append_row) refl
  | inr (x, e) ↦ rw (e, append_row) refl
]

pub append_tx_batch-blocks :
    (rows : List CommittedRow) (l : Ledger) → (append_tx_batch rows l).blocks ≡ l.blocks
unfolding append_tx_batch
append_tx_batch-blocks [] l = refl
append_tx_batch-blocks (r ∷ rest) l =
    append_tx_batch-blocks rest (append_row r l) ∙ append_row-blocks r l
