-- ===== src/Record/Append.antt =====
-- `PublicChain.append` of public-record/src/ledger/chain.ts and `appendTxAndEnqueue` of
-- private/store.ts. `none` is a thrown exception; a database transaction that throws leaves the
-- store as it is.
pub mod Linked
use oursay.Base.{
  ℕ, suc, String, Bool, true, false, not, ◌&&◌, ◌||◌, Option, none, some, List, [], ◌∷◌, ◌++◌,
  str_eq, if◌then◌else◌, ◌>>=◌,
}
use oursay.Crypto.Hash.{Hasher, hash_leaf}
use oursay.Crypto.Canonical.{Json, Codec, canonical_json}
use oursay.Schema.Types.{RecordType, Op, update, delete, same_op, TxEnvelope, envelope_json}
use oursay.Ledger.Store.{Store, StoredTx, filter}
use oursay.Ledger.Connector.{Ledger, get_envelope}

-- A transaction to append, with the value of its envelope.
pub record NewTx : Type 0 where
  pub tx_id : String
  pub type : RecordType
  pub entity_id : String
  pub op : Op
  pub parent_type : Option RecordType
  pub parent_id : Option String
  pub parent_revision_tx_id : Option String
  pub parent_revision_hash : Option String
  pub author_pubkey : String
  pub nullifier : Option String
  pub prev_hash : Option String
  pub content_hash : String
  pub salt : String
  pub content : Json
  pub envelope : Json

-- The transactions of an entity, oldest first.
abbrev pub entity_rows : String → List StoredTx → List StoredTx
entity_rows entity_id = filter (λ t. str_eq t.entity_id entity_id)

-- The `tx_hash` of the last row of a list, and `head` for an empty one.
abbrev pub last_hash : Option String → List StoredTx → Option String
last_hash head [] = head
last_hash head (t ∷ rest) = last_hash (some t.tx_hash) rest

unfoldable pub same_hash : Option String → Option String → Bool
same_hash none none = true
same_hash (some s) (some t) = str_eq s t
same_hash _ _ = false

-- `tx_id` is the primary key of `record_tx`.
abbrev pub has_tx : String → List StoredTx → Bool
has_tx tx_id [] = false
has_tx tx_id (t ∷ rest) = str_eq t.tx_id tx_id || has_tx tx_id rest

abbrev pub is_null : Option String → Bool
is_null none = true
is_null (some s) = false

-- The tests before the insertion: an entity is created once, and another revision names the head.
pub head_refused : Op → Option String → Option String → Bool
unfolding same_hash
head_refused op prev_hash head =
    (same_op op Op.create && not (is_null head))
    || ((same_op op update || same_op op delete) && not (same_hash head prev_hash))

module _ (h : Hasher) (c : Codec) where
  unfoldable pub stored_row : NewTx → String → ℕ → ℕ → StoredTx
  stored_row x chain_id seq now =
      let env_json = canonical_json c x.envelope in
      record {
        tx_id = x.tx_id;
        seq = seq;
        type = x.type;
        entity_id = x.entity_id;
        op = x.op;
        parent_type = x.parent_type;
        parent_id = x.parent_id;
        parent_revision_tx_id = x.parent_revision_tx_id;
        parent_revision_hash = x.parent_revision_hash;
        author_pubkey = x.author_pubkey;
        nullifier = x.nullifier;
        prev_hash = x.prev_hash;
        content_hash = x.content_hash;
        tx_hash = hash_leaf h (h.utf8 env_json);
        envelope = env_json;
        salt = some x.salt;
        content = some x.content;
        redacted = false;
        erased = false;
        block_height = none;
        chain_id = chain_id;
        sent = false;
        enqueued_at = now;
      }

  pub append_tx_and_enqueue : NewTx → String → ℕ → Store → Option Store
  unfolding head_refused stored_row
  append_tx_and_enqueue x chain_id now s =
      let head = last_hash none (entity_rows x.entity_id s.rows) in
      if head_refused x.op x.prev_hash head
      then none
      else if has_tx x.tx_id s.rows
      then none
      else some (record {
        rows = s.rows ++ (stored_row x chain_id s.next_seq now ∷ []);
        next_seq = suc s.next_seq;
      })

  -- `PublicChain.append`: the ledger must answer (`none`: it is unavailable), and must not have a
  -- transaction with this id.
  unfoldable pub append : NewTx → String → ℕ → Option Ledger → Store → Option Store
  unfolding append_tx_and_enqueue
  append x chain_id now none s = none
  append x chain_id now (some ledger) s = elim (get_envelope x.tx_id ledger) [
    | some envelope ↦ none
    | none ↦ append_tx_and_enqueue x chain_id now s
  ]
