-- ===== src/Record/Entity.antt =====
-- `verifyEntityChain` of public-record/src/verify.ts. `verify_row` is what immudb answers to the
-- verification of a row.
pub mod Verified
pub mod Erased
mod Examples
use oursay.Base.{
  ℕ, String, Bool, true, false, not, ◌&&◌, ◌||◌, Option, none, some, List, [], ◌∷◌, all, str_eq,
  if◌then◌else◌,
}
use oursay.Crypto.Hash.{Hasher, hash_leaf}
use oursay.Crypto.Canonical.{Json, null, str, Codec, content_commitment}
use oursay.Schema.Types.{Op}
use oursay.Ledger.Store.{Store, StoredTx}
use oursay.Ledger.Connector.{Ledger, get_envelope}
use oursay.Record.Append.{entity_rows, same_hash}

pub data ContentMatches : Type 0 where
  matches : Bool → ContentMatches
  erased : ContentMatches

pub record TxVerdict : Type 0 where
  pub tx_id : String
  pub op : Op
  pub envelope_intact : Bool
  pub chain_linked : Bool
  pub ledger_agrees : Bool
  pub content_matches : ContentMatches
  pub ok : Bool

pub record ChainReport : Type 0 where
  pub entity_id : String
  pub ok : Bool
  pub verdicts : List TxVerdict

abbrev pub not_false : ContentMatches → Bool
not_false (matches b) = b
not_false erased = true

abbrev pub is_json_null : Json → Bool
is_json_null null = true
is_json_null _ = false

abbrev pub is_empty : List StoredTx → Bool
is_empty [] = true
is_empty (t ∷ rest) = false

module _ (h : Hasher) (c : Codec) (verify_row : String → Bool) where
  -- A content that is null is erased, too.
  pub content_of : String → String → Option String → Option Json → ContentMatches
  content_of tx_id content_hash (some salt) (some content) =
      if is_json_null content
      then erased
      else matches (str_eq (content_commitment h c (some (str tx_id)) salt content) content_hash)
  content_of tx_id content_hash _ _ = erased

  pub ledger_agrees : Ledger → StoredTx → Bool
  ledger_agrees l t = same_hash (get_envelope t.tx_id l) (some t.envelope) && verify_row t.tx_id

  pub tx_verdict : Ledger → Option String → StoredTx → TxVerdict
  unfolding content_of ledger_agrees
  tx_verdict l expected_prev t =
      let envelope_intact = str_eq (hash_leaf h (h.utf8 t.envelope)) t.tx_hash in
      let chain_linked = same_hash t.prev_hash expected_prev in
      let agrees = ledger_agrees l t in
      let content = content_of t.tx_id t.content_hash t.salt t.content in
      record {
        tx_id = t.tx_id;
        op = t.op;
        envelope_intact = envelope_intact;
        chain_linked = chain_linked;
        ledger_agrees = agrees;
        content_matches = content;
        ok = envelope_intact && (chain_linked && (agrees && not_false content));
      }

  pub walk_history : Ledger → Option String → List StoredTx → List TxVerdict
  unfolding tx_verdict
  walk_history l expected_prev [] = []
  walk_history l expected_prev (t ∷ rest) =
      tx_verdict l expected_prev t ∷ walk_history l (some t.tx_hash) rest

  pub verify_entity_chain : Store → Ledger → String → ChainReport
  unfolding walk_history
  verify_entity_chain s l entity_id =
      let history = entity_rows entity_id s.rows in
      let verdicts = walk_history l none history in
      record {
        entity_id = entity_id;
        ok = not (is_empty history) && all (λ v. v.ok) verdicts;
        verdicts = verdicts;
      }
