-- ===== src/Ledger/Settler/Examples.antt =====
-- A settlement of one pending transaction over the toy hasher.
use oursay.Schema.Types.{civic, vote, create}
use oursay.Base.{ℕ, Bool, ◌+◌, ◌==◌, true, arith, ◌≡◌, refl, false, none, some, [], ◌∷◌}
use oursay.Crypto.Hash.{hash_leaf, sha256_hex}
use oursay.Crypto.Toy.{toy, zero_hex, one_hex}
use oursay.Crypto.Merkle.{merkle_root}
use oursay.Anchor.Record.{ImmudbRootRef, BlockHeader}
use oursay.Anchor.Tip.{compute_chain_tip_hash}
use oursay.Ledger.Store.{StoredTx, get_pending_for_settlement}
use oursay.Ledger.Connector.{Ledger, fetch_latest_block}
use oursay.Ledger.Connector.Chained.{IsChained}
use oursay.Ledger.Settler.{World, settled, settle_block, reconcile, is_settled, is_fresh}
use oursay.Ledger.Settler.Retry.{
  OutboxConfig, Ends, append_batch_with_retry, append_batch_with_retry-Ends,
  append_batch_with_retry-recovers, unlimited,
}
use oursay.Ledger.Settler.Links.{Settles, settle_block-Settles, settle_block-IsChained}

abbrev transaction : StoredTx
transaction = record {
  tx_id = "t1";
  seq = 1;
  type = civic vote;
  entity_id = "e1";
  op = create;
  parent_type = none;
  parent_id = none;
  parent_revision_tx_id = none;
  parent_revision_hash = none;
  author_pubkey = "p";
  nullifier = none;
  prev_hash = none;
  content_hash = zero_hex;
  tx_hash = one_hex;
  envelope = "1";
  salt = some "s";
  content = none;
  redacted = false;
  erased = false;
  block_height = none;
  chain_id = "canada";
  sent = false;
  enqueued_at = 5;
}

abbrev world : World
world = record {
  store = record { rows = transaction ∷ []; next_seq = 2 };
  ledger = record { committed = []; blocks = [] };
}

abbrev state : Ledger → ImmudbRootRef
state l = record { db = "canada"; tx_id = 7; tx_hash_hex = one_hex }

abbrev block : BlockHeader
block = record {
  chain_id = "canada";
  block_height = 1;
  from_seq = 0;
  to_seq = 1;
  tx_count = 1;
  bundle_merkle_root = one_hex;
  chain_tip_hash = one_hex;
  prev_block_root = none;
  prev_chain_tip_hash = none;
  immudb_root = state world.ledger;
  proposer = none;
  attestations = [];
  captured_at = "2026";
}

one_block : (settle_block toy state 10 "canada" "2026" none world).1 ≡ settled block
unfolding settle_block fetch_latest_block get_pending_for_settlement is_settled is_fresh merkle_root
    hash_leaf compute_chain_tip_hash sha256_hex reconcile
one_block = refl

settle_block-Settles_example :
    Settles toy state "canada" world
      (settle_block toy state 10 "canada" "2026" none world).0
      (settle_block toy state 10 "canada" "2026" none world).1
settle_block-Settles_example =
    settle_block-Settles toy state "canada" 10 "2026" none world (λ id. tt)

settle_block-IsChained_example :
    IsChained toy (settle_block toy state 10 "canada" "2026" none world).0.ledger
settle_block-IsChained_example =
    settle_block-IsChained toy state "canada" 10 "2026" none world (λ id. tt)

-- The ledger is down at first; the second check and the second attempt succeed.
abbrev second : ℕ → Bool
second n = n == 1

abbrev outbox_config : OutboxConfig
outbox_config = record { retry_attempts = 3; healthcheck_attempts = 3 }

delivered : append_batch_with_retry 7 outbox_config second second ≡ some true
unfolding append_batch_with_retry
delivered = refl

append_batch_with_retry-Ends_example :
    Ends second (append_batch_with_retry (3 + 3 + 1) outbox_config second second)
append_batch_with_retry-Ends_example =
    append_batch_with_retry-Ends outbox_config second second (omega arith) (omega arith)

append_batch_with_retry-recovers_example :
    append_batch_with_retry (1 + 0 + 1) unlimited second second ≡ some true
append_batch_with_retry-recovers_example =
    append_batch_with_retry-recovers second second 1 0 refl refl
