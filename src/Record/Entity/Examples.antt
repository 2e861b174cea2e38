-- ===== src/Record/Entity/Examples.antt =====
-- A creation and an update of one entity over the toy hasher.
use oursay.Schema.Types.{civic, post, create}
use oursay.Base.{◌≡◌, ◌↔◌, refl, true, false, none, some, [], ◌∷◌, All}
use oursay.Crypto.Hash.{hash_leaf, sha256_hex}
use oursay.Crypto.Toy.{toy, zero_hex}
use oursay.Crypto.Canonical.{str, Codec, canonical_json, content_commitment}
use oursay.Ledger.Store.{Store, StoredTx, erase}
use oursay.Ledger.Connector.{Ledger, CommittedRow, get_envelope}
use oursay.Record.Append.{NewTx, append, entity_rows, same_hash}
use oursay.Record.Append.Linked.{AreLinked, LinkedFrom, append-AreLinked}
use oursay.Record.Entity.{is_empty, verify_entity_chain}
use oursay.Record.Entity.Erased.{verify_entity_chain-erase}
use oursay.Record.Entity.Verified.{IsAuthentic, verify_entity_chain_iff}

abbrev codec : Codec
codec = record { stringify = λ j. "0"; parse = λ s. some (str s); key_le = λ a b. true }

abbrev creation : NewTx
creation = record {
  tx_id = "t1";
  type = civic post;
  entity_id = "e1";
  op = create;
  parent_type = none;
  parent_id = none;
  parent_revision_tx_id = none;
  parent_revision_hash = none;
  author_pubkey = "p";
  nullifier = none;
  prev_hash = none;
  content_hash = zero_hex;
  salt = "s";
  content = str "text";
  envelope = str "envelope";
}

abbrev stored : StoredTx
stored = record {
  tx_id = "t1";
  seq = 1;
  type = civic post;
  entity_id = "e1";
  op = create;
  parent_type = none;
  parent_id = none;
  parent_revision_tx_id = none;
  parent_revision_hash = none;
  author_pubkey = "p";
  nullifier = none;
  prev_hash = none;
  content_hash = zero_hex;
  tx_hash = zero_hex;
  envelope = "0";
  salt = some "s";
  content = some (str "text");
  redacted = false;
  erased = false;
  block_height = none;
  chain_id = "canada";
  sent = false;
  enqueued_at = 5;
}

abbrev empty : Store
empty = record { rows = []; next_seq = 1 }

abbrev store : Store
store = record { rows = stored ∷ []; next_seq = 2 }

abbrev ledger : Ledger
ledger = record { committed = []; blocks = [] }

created : append toy codec creation "canada" 5 (some ledger) empty ≡ some store
unfolding append hash_leaf canonical_json oursay.Ledger.Connector.get_envelope
created = refl

append-AreLinked_example : AreLinked store
append-AreLinked_example =
    append-AreLinked toy codec creation "canada" 5 (some ledger) empty store (λ e. refl) (λ id. tt)
      created

verify_entity_chain_iff_example :
    ((verify_entity_chain toy codec (λ t. true) store ledger "e1").ok ≡ true) ↔ (
      (is_empty (entity_rows "e1" store.rows) ≡ false)
      × LinkedFrom none (entity_rows "e1" store.rows)
      × All (IsAuthentic toy codec (λ t. true) ledger) (entity_rows "e1" store.rows))
verify_entity_chain_iff_example = verify_entity_chain_iff toy codec (λ t. true) store ledger "e1"

abbrev row : CommittedRow
row = record { tx_id = "t1"; chain_id = "canada"; envelope = "0"; block_height = 1 }

abbrev full_ledger : Ledger
full_ledger = record { committed = row ∷ []; blocks = [] }

in_order : (verify_entity_chain toy codec (λ t. true) store full_ledger "e1").ok ≡ true
unfolding verify_entity_chain hash_leaf get_envelope content_commitment same_hash sha256_hex
in_order = refl

verify_entity_chain-erase_example :
    (verify_entity_chain toy codec (λ t. true) (erase "t1" store) full_ledger "e1").ok ≡ true
verify_entity_chain-erase_example =
    verify_entity_chain-erase toy codec (λ t. true) store full_ledger "e1" "t1" in_order
