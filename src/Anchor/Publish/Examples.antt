-- ===== src/Anchor/Publish/Examples.antt =====
-- Runs of the assembler and the publisher over the toy hasher and a chain of two blocks.
use oursay.Schema.Types.{civic, vote, create}
use oursay.Base.{All, str_eq, if◌then◌else◌, ℕ, ◌≡◌, refl, true, false, none, some, List, [], ◌∷◌}
use oursay.Crypto.Hash.{hash_leaf, sha256_hex}
use oursay.Crypto.Toy.{toy, zero_hex, one_hex}
use oursay.Crypto.Merkle.{merkle_proof, merkle_root}
use oursay.Crypto.Canonical.{str, obj, close, member, Codec, content_commitment}
use oursay.Anchor.Record.{AnchorRecord, BlockHeader, BlockBundle}
use oursay.Anchor.Tip.{compute_chain_tip_hash}
use oursay.Anchor.Assemble.{assemble, both, header_only_bundle}
use oursay.Anchor.Assemble.Verified.{IsCommitted, verify_block-assemble}
use oursay.Anchor.Verify.{BlockReport, verify_block, verify_chain}
use oursay.Anchor.Publish.{Target, publish, list_anchors, publish_bundles, fetch_latest_anchor}
use oursay.Anchor.Publish.Mirror.{Mirrors}
use oursay.Anchor.Publish.Complete.{IsReplica}
use oursay.Anchor.Publish.Audited.{verify_chain-publish, publish_returns, IsKept}
use oursay.Ledger.Store.{Store, StoredTx, get_txs_by_seq_range}
use oursay.Ledger.Connector.{Ledger, fetch_latest_block, fetch_block_by_height}
use oursay.Ledger.Connector.Chained.{Continues}

abbrev codec : Codec
codec = record {
  stringify = λ j. "0";
  parse = λ s. some (
      obj (
        member "txId" (str (if str_eq s "1" then "t1" else "t3"))
          (member "contentHash" (str zero_hex) close)));
  key_le = λ a b. true;
}

abbrev transaction : StoredTx
transaction = record {
  tx_id = "t1";
  seq = 1;
  type = civic vote;
  entity_id = "e1";
  op = create;
  parent_type = none;
  parent_id = none;
  parent_revision_tx_id = none;
  parent_revision_hash = none;
  author_pubkey = "p";
  nullifier = none;
  prev_hash = none;
  content_hash = zero_hex;
  tx_hash = one_hex;
  envelope = "1";
  salt = some "s";
  content = some (str "yes");
  redacted = false;
  erased = false;
  block_height = some 1;
  chain_id = "canada";
  sent = true;
  enqueued_at = 5;
}

abbrev another : StoredTx
another = record transaction { tx_id = "t3"; seq = 2; envelope = "3"; block_height = some 2 }

abbrev store : Store
store = record { rows = transaction ∷ another ∷ []; next_seq = 3 }

abbrev first : BlockHeader
first = record {
  chain_id = "canada";
  block_height = 1;
  from_seq = 0;
  to_seq = 1;
  tx_count = 1;
  bundle_merkle_root = one_hex;
  chain_tip_hash = one_hex;
  prev_block_root = none;
  prev_chain_tip_hash = none;
  immudb_root = record { db = "canada"; tx_id = 7; tx_hash_hex = one_hex };
  proposer = none;
  attestations = [];
  captured_at = "2026-01-01T00:00:00.000Z";
}

abbrev second : BlockHeader
second = record first {
  block_height = 2;
  from_seq = 1;
  to_seq = 2;
  chain_tip_hash = zero_hex;
  prev_block_root = some one_hex;
  prev_chain_tip_hash = some one_hex;
}

abbrev ledger : Ledger
ledger = record { committed = []; blocks = second ∷ first ∷ [] }

abbrev fresh : Target
fresh = record { every_n = 1; bundles = []; cursor = 0 }

transaction-IsCommitted : IsCommitted toy codec transaction
unfolding content_commitment sha256_hex
transaction-IsCommitted = record {
  members = member "txId" (str "t1") (member "contentHash" (str zero_hex) close);
  parses = refl;
  has_id = refl;
  commits = λ salt content e. refl;
}

another-IsCommitted : IsCommitted toy codec another
unfolding content_commitment sha256_hex
another-IsCommitted = record {
  members = member "txId" (str "t3") (member "contentHash" (str zero_hex) close);
  parses = refl;
  has_id = refl;
  commits = λ salt content e. refl;
}

verify_block-assemble_example :
    (bundle : BlockBundle) × (r : BlockReport) × (assemble toy codec first none true store
      ≡ some bundle)
    × (verify_block toy codec bundle one_hex ≡ some r)
    × (r.ok ≡ true)
unfolding merkle_root hash_leaf get_txs_by_seq_range
verify_block-assemble_example =
    verify_block-assemble toy codec first none true store
      (transaction-IsCommitted, (another-IsCommitted, tt)) refl refl

first-Continues : Continues toy "canada" none first
unfolding compute_chain_tip_hash sha256_hex
first-Continues = record {
  chain = refl;
  height = refl;
  seq = refl;
  root = refl;
  prev_tip = refl;
  tip = refl;
}

second-Continues : Continues toy "canada" (some first) second
unfolding compute_chain_tip_hash sha256_hex
second-Continues = record {
  chain = refl;
  height = refl;
  seq = refl;
  root = refl;
  prev_tip = refl;
  tip = refl;
}

fresh-IsReplica : IsReplica toy codec "canada" ledger fresh (first ∷ second ∷ []) []
fresh-IsReplica = record {
  chained = (second-Continues, (first-Continues, tt));
  blocks = refl;
  mirrors = tt;
}

published : (publish toy codec "canada" ledger store fresh).1 ≡ some (1 ∷ 2 ∷ [])
unfolding publish fetch_latest_block fetch_block_by_height assemble merkle_root hash_leaf
    merkle_proof get_txs_by_seq_range publish_bundles fetch_latest_anchor
    oursay.Anchor.Assemble.anchor_of
published = refl

verify_chain-publish_example :
    (chain : List AnchorRecord) × (list_anchors (publish toy codec "canada" ledger store fresh).0
      ≡ some chain)
    × (verify_chain toy codec chain (some "canada") ≡ some (true, some zero_hex))
verify_chain-publish_example =
    verify_chain-publish toy codec "canada" ledger store fresh (first ∷ second ∷ []) [] second
      (first ∷ []) fresh-IsReplica refl published

store-IsKept : All (IsKept toy codec "canada" store) (first ∷ second ∷ [])
unfolding merkle_root hash_leaf get_txs_by_seq_range
store-IsKept = (record { root = refl; count = refl }, (record { root = refl; count = refl }, tt))

publish_returns_example :
    (heights : List ℕ) × ((publish toy codec "canada" ledger store fresh).1 ≡ some heights)
    × Mirrors toy codec "canada"
        (second ∷ first ∷ [])
        (publish toy codec "canada" ledger store fresh).0.bundles
publish_returns_example =
    publish_returns toy codec "canada" ledger store fresh (first ∷ second ∷ []) []
      (transaction-IsCommitted, (another-IsCommitted, tt)) store-IsKept fresh-IsReplica
