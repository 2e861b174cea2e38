-- ===== src/Anchor/Assemble.antt =====
-- `BundleAssembler` of public-record/src/anchor/assembler.ts, and `headerOnlyBundle` of
-- anchor/publisher.ts. `none` is a thrown exception.
pub mod Verified
use oursay.Base.{
  ℕ, suc, String, Bool, true, false, not, ◌&&◌, Option, none, some, List, [], ◌∷◌, map, length,
  ◌==◌, str_eq, if◌then◌else◌, ◌>>=◌,
}
use oursay.Crypto.Hash.{Hasher, hash_leaf}
use oursay.Crypto.Merkle.{merkle_root, merkle_proof}
use oursay.Crypto.Canonical.{Json, Codec}
use oursay.Anchor.Record.{AnchorRecord, BlockHeader, BlockBundle, BlockEntry, Reveal}
use oursay.Anchor.Verify.{anchor_hash}
use oursay.Ledger.Store.{Store, StoredTx, get_txs_by_seq_range}

abbrev pub both : Option String → Option Json → Option Reveal
both (some salt) (some content) = some (record { salt = salt; content = content })
both _ _ = none

-- The reveal of a transaction that is neither redacted nor erased and still has its plaintext.
pub reveal_of : Bool → StoredTx → Option Reveal
reveal_of allow t = if allow && not t.redacted && not t.erased then both t.salt t.content else none

module _ (h : Hasher) (c : Codec) where
  unfoldable pub prev_hash_of : Option AnchorRecord → Option String
  prev_hash_of none = none
  prev_hash_of (some prev) = some (anchor_hash h c prev)

  -- The anchor of a settled block, after the anchor that the target published last.
  unfoldable pub anchor_of : BlockHeader → Option AnchorRecord → AnchorRecord
  unfolding prev_hash_of
  anchor_of b prev = record {
    chain_id = b.chain_id;
    block_height = b.block_height;
    from_seq = b.from_seq;
    to_seq = b.to_seq;
    tx_count = b.tx_count;
    bundle_merkle_root = b.bundle_merkle_root;
    immudb_root = b.immudb_root;
    prev_block_root = b.prev_block_root;
    chain_tip_hash = b.chain_tip_hash;
    prev_chain_tip_hash = b.prev_chain_tip_hash;
    proposer = b.proposer;
    attestations = b.attestations;
    prev_anchor_hash = prev_hash_of prev;
    captured_at = b.captured_at;
  }

  unfoldable pub header_only_bundle : BlockHeader → Option AnchorRecord → BlockBundle
  header_only_bundle b prev = record { anchor = anchor_of b prev; entries = [] }

  abbrev pub leaves_of : List StoredTx → List String
  leaves_of = map (λ t. hash_leaf h (h.utf8 t.envelope))

  -- The entries of the transactions from index `i` on.
  pub entries_from : List String → Bool → ℕ → List StoredTx → Option (List BlockEntry)
  unfolding reveal_of
  entries_from leaves allow i [] = some []
  entries_from leaves allow i (t ∷ rest) = do
    proof ← merkle_proof h leaves i
    more ← entries_from leaves allow (suc i) rest
    some (
        record {
          tx_id = t.tx_id;
          seq = t.seq;
          entity_id = t.entity_id;
          type = t.type;
          op = t.op;
          envelope = t.envelope;
          leaf_hash = hash_leaf h (h.utf8 t.envelope);
          merkle_proof = proof;
          reveal = reveal_of allow t;
        }
        ∷ more)

  unfoldable pub assemble : BlockHeader → Option AnchorRecord → Bool → Store → Option BlockBundle
  unfolding entries_from
  assemble b prev allow s =
      let txs = get_txs_by_seq_range b.chain_id b.from_seq b.to_seq s in
      merkle_root h (leaves_of txs) >>= λ root.
      if not (str_eq root b.bundle_merkle_root)
      then none
      else if not (length txs == b.tx_count)
      then none
      else (do
        entries ← entries_from (leaves_of txs) allow 0 txs
        some (record { anchor = anchor_of b prev; entries = entries }))
