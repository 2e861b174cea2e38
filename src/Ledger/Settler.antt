-- ===== src/Ledger/Settler.antt =====
-- `BlockSettler` of public-record/src/ledger/settler.ts.
pub mod Links
pub mod Retry
mod Examples
use oursay.Base.{
  ℕ, zero, suc, ◌+◌, ◌-◌, String, Bool, false, ◌&&◌, Option, none, some, List, [], ◌∷◌, map, length,
  ltb, leb, if◌then◌else◌, ◌>>=◌,
}
use oursay.Crypto.Hash.{Hasher, hash_leaf}
use oursay.Crypto.Merkle.{merkle_root}
use oursay.Anchor.Record.{BlockHeader, ImmudbRootRef}
use oursay.Anchor.Tip.{compute_chain_tip_hash}
use oursay.Ledger.Store.{
  Store, StoredTx, filter, take, get_pending_for_settlement, get_pending_pool_stats,
  mark_outbox_sent_batch, mark_tx_block_height_batch,
}
use oursay.Ledger.Connector.Chained.{from_seq_of, height_of, root_of, tip_of}
use oursay.Ledger.Connector.{
  Ledger, CommittedRow, get_block_height_for_tx, append_tx_batch, fetch_latest_block, append_block,
}

pub record BlockConfig : Type 0 where
  pub max_pending : ℕ
  pub max_pending_age_ms : ℕ
  pub max_block_txs : ℕ
  pub min_txs : ℕ

pub data Reason : Type 0 where
  by_count by_age : Reason

pub record SettleDecision : Type 0 where
  pub reason : Option Reason
  pub pending_count : ℕ
  pub oldest_age_ms : Option ℕ

-- The age of the oldest row; the clock does not run behind the time of ingestion.
abbrev pub age : ℕ → Option ℕ → Option ℕ
age now none = none
age now (some oldest) = some (now - oldest)

abbrev pub age_hit : ℕ → Option ℕ → Bool
age_hit limit none = false
age_hit limit (some a) = ltb 0 limit && leb limit a

pub decide_settle : BlockConfig → ℕ → Option ℕ → Option Reason
decide_settle cfg count oldest_age =
    if ltb count cfg.min_txs
    then none
    else if ltb 0 cfg.max_pending && leb cfg.max_pending count
    then some by_count
    else if age_hit cfg.max_pending_age_ms oldest_age
    then some by_age
    else none

pub evaluate_trigger : BlockConfig → String → ℕ → Store → SettleDecision
unfolding decide_settle
evaluate_trigger cfg chain_id now s =
    let (count, oldest) = get_pending_pool_stats chain_id s in
    record {
      reason = decide_settle cfg count (age now oldest);
      pending_count = count;
      oldest_age_ms = age now oldest;
    }

pub record World : Type 0 where
  pub store : Store
  pub ledger : Ledger

abbrev pub ids : List StoredTx → List String
ids = map (λ t. t.tx_id)

-- Mirrors the heights that the ledger has for these rows onto the store, one row at a time.
pub mirror_heights : Ledger → List StoredTx → Store → Store
mirror_heights l [] s = s
mirror_heights l (t ∷ rest) s = elim (get_block_height_for_tx t.tx_id l) [
  | none ↦ mirror_heights l rest s
  | some height ↦ mirror_heights l rest (mark_tx_block_height_batch (t.tx_id ∷ []) height s)
]

pub is_settled : ℕ → StoredTx → Bool
is_settled from_seq t = leb t.seq from_seq

pub is_fresh : ℕ → StoredTx → Bool
is_fresh from_seq t = ltb from_seq t.seq

pub reconcile : Ledger → List StoredTx → Store → Store
unfolding mirror_heights
reconcile l settled s = mark_outbox_sent_batch (ids settled) (mirror_heights l settled s)

-- The loop that looks for the next batch; each round that goes on has marked a row as sent, so fuel
-- for one round a row is enough. The batch is empty where the source returns null.
pub next_batch : ℕ → String → ℕ → ℕ → Ledger → Store → Store × List StoredTx
next_batch zero chain_id limit from_seq l s = (s, [])
next_batch (suc fuel) chain_id limit from_seq l s =
    let pending = get_pending_for_settlement chain_id limit s in
    let settled = filter (is_settled from_seq) pending in
    let fresh = filter (is_fresh from_seq) pending in
    let s' = reconcile l settled s in
    elim fresh [
      | t ∷ rest ↦ (s', t ∷ rest)
      | [] ↦ elim settled [ [] ↦ (s, []) | t ∷ rest ↦ next_batch fuel chain_id limit from_seq l s' ]
    ]

abbrev pub last_seq : StoredTx → List StoredTx → ℕ
last_seq t [] = t.seq
last_seq t (u ∷ rest) = last_seq u rest

pub committed_rows : String → ℕ → List StoredTx → List CommittedRow
committed_rows chain_id height = map (λ t. record {
  tx_id = t.tx_id;
  chain_id = chain_id;
  envelope = t.envelope;
  block_height = height;
})

-- How far a settlement came: nothing to do, a hash could not be computed or the append of the batch
-- was given up, or the block is settled.
pub data Outcome : Type 0 where
  idle : Outcome
  thrown : Outcome
  settled : BlockHeader → Outcome

-- The writes (2) to (4), once the batch is on the ledger.
pub commit_block : BlockHeader → List StoredTx → World → World
commit_block b batch w =
    let heights = mark_tx_block_height_batch (ids batch) b.block_height w.store in
    record { store = mark_outbox_sent_batch (ids batch) heights; ledger = append_block b w.ledger }

abbrev pub commit_or_throw : Option BlockHeader → List StoredTx → World → World × Outcome
commit_or_throw none batch w = (w, thrown)
commit_or_throw (some b) batch w = (commit_block b batch w, settled b)

-- `appendBatchWithRetry` as its caller sees it: `none` if an attempt succeeded, and otherwise the
-- number of rows that the attempts wrote before the retries gave up.
abbrev pub Delivery : Type 0
Delivery = Option ℕ

module _ (h : Hasher) where
  -- The Merkle root over the exact envelopes of a batch.
  pub batch_root : List StoredTx → Option String
  batch_root batch = merkle_root h (map (λ t. hash_leaf h (h.utf8 t.envelope)) batch)

module _ (h : Hasher) (immudb_state : Ledger → ImmudbRootRef) where
  -- The header of the block over a batch, with the ledger as it is after the batch was appended.
  pub block_header :
      String
      → Option BlockHeader
      → String
      → List StoredTx
      → ℕ
      → String
      → Ledger
      → Option BlockHeader
  block_header chain_id prev root batch to_seq captured_at after = do
    tip ← compute_chain_tip_hash h (tip_of prev) root
    some (record {
      chain_id = chain_id;
      block_height = height_of prev + 1;
      from_seq = from_seq_of prev;
      to_seq = to_seq;
      tx_count = length batch;
      bundle_merkle_root = root;
      chain_tip_hash = tip;
      prev_block_root = root_of prev;
      prev_chain_tip_hash = tip_of prev;
      immudb_root = immudb_state after;
      proposer = none;
      attestations = [];
      captured_at = captured_at;
    })

  -- From the root of a batch on: the append, and the writes that follow it if it was delivered.
  pub append_and_commit :
      String
      → String
      → Delivery
      → Option BlockHeader
      → String
      → World
      → StoredTx
      → List StoredTx
      → World × Outcome
  unfolding commit_block block_header committed_rows
  append_and_commit chain_id captured_at (some written) prev root w t rest =
      let rows = committed_rows chain_id (height_of prev + 1) (take written (t ∷ rest)) in
      (record w { ledger = append_tx_batch rows w.ledger }, thrown)
  append_and_commit chain_id captured_at none prev root w t rest =
      let rows = committed_rows chain_id (height_of prev + 1) (t ∷ rest) in
      let w' = record w { ledger = append_tx_batch rows w.ledger } in
      let header =
        block_header chain_id prev root (t ∷ rest) (last_seq t rest) captured_at w'.ledger in
      commit_or_throw header (t ∷ rest) w'

  pub settle_batch :
      String → String → Delivery → Option BlockHeader → World → List StoredTx → World × Outcome
  unfolding append_and_commit batch_root
  settle_batch chain_id captured_at delivered prev w [] = (w, idle)
  settle_batch chain_id captured_at delivered prev w (t ∷ rest) = elim (batch_root h (t ∷ rest)) [
    | none ↦ (w, thrown)
    | some root ↦ append_and_commit chain_id captured_at delivered prev root w t rest
  ]

  pub settle_block : ℕ → String → String → Delivery → World → World × Outcome
  unfolding settle_batch next_batch
  settle_block limit chain_id captured_at delivered w =
      let prev = fetch_latest_block chain_id w.ledger in
      let (s, batch) =
        next_batch (suc (length w.store.rows)) chain_id limit (from_seq_of prev) w.ledger w.store in
      settle_batch chain_id captured_at delivered prev (record w { store = s }) batch

  -- `maybeSettleBlock`.
  pub maybe_settle_block : BlockConfig → String → ℕ → String → Delivery → World → World × Outcome
  unfolding settle_block evaluate_trigger
  maybe_settle_block cfg chain_id now captured_at delivered w =
      elim (evaluate_trigger cfg chain_id now w.store).reason [
        | none ↦ (w, idle)
        | some reason ↦ settle_block cfg.max_block_txs chain_id captured_at delivered w
      ]
