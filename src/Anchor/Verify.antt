-- ===== src/Anchor/Verify.antt =====
-- The offline auditor, public-record/src/anchor/verify.ts. `none` is a thrown exception.
pub mod Entries
pub mod Chain
pub mod History
mod Examples
use oursay.Base.{
  ℕ, zero, suc, ◌+◌, String, Bool, true, false, not, ◌&&◌, ◌||◌, Option, none, some, List, [], ◌∷◌,
  length, map, all, ltb, leb, ◌==◌, str_eq, if◌then◌else◌, ◌>>=◌,
}
use oursay.Crypto.Hash.{Hasher, hash_leaf}
use oursay.Crypto.Merkle.{verify_merkle_proof}
use oursay.Crypto.Canonical.{
  Json, null, str, obj, Codec, get_member, content_commitment, canonical_hash,
}
use oursay.Anchor.Record.{AnchorRecord, BlockEntry, BlockBundle, Reveal, anchor_json}
use oursay.Anchor.Tip.{compute_chain_tip_hash}

pub data FailReason : Type 0 where
  out_of_range leaf_mismatch proof_mismatch bad_json commitment_mismatch : FailReason

pub data EntryStatus : Type 0 where
  revealed withheld : EntryStatus
  failed : FailReason → EntryStatus

pub record EntryVerdict : Type 0 where
  pub tx_id : String
  pub seq : ℕ
  pub status : EntryStatus

abbrev pub is_ok : EntryStatus → Bool
is_ok (failed reason) = false
is_ok _ = true

pub record BlockReport : Type 0 where
  pub block_height : ℕ
  pub ok : Bool
  pub root_matches : Bool
  pub tx_count_ok : Bool
  pub verdicts : List EntryVerdict

-- `env.txId` and `env.contentHash` of a parsed envelope: reading a property of `null` throws, and
-- of a value that is not an object it is `undefined`.
abbrev pub property : String → Json → Option (Option Json)
property key null = none
property key (obj ms) = some (get_member key ms)
property key _ = some none

-- `recomputed !== env.contentHash`, negated.
abbrev pub is_text : Option Json → String → Bool
is_text (some (str s)) t = str_eq s t
is_text _ t = false

-- `===` on texts that may be null.
abbrev pub opt_eq : Option String → Option String → Bool
opt_eq none none = true
opt_eq (some s) (some t) = str_eq s t
opt_eq _ _ = false

abbrev pub is_null : Option String → Bool
is_null none = true
is_null (some s) = false

abbrev pub parsed : Option Json → (Json → Option EntryStatus) → Option EntryStatus
parsed none f = some (failed bad_json)
parsed (some j) f = f j

abbrev pub chain_result : Option String → Bool × Option String
chain_result none = (false, none)
chain_result (some tip) = (true, some tip)

abbrev pub expected_ok : Option String → String → Bool
expected_ok none chain_id = true
expected_ok (some expected) chain_id = str_eq chain_id expected

module _ (h : Hasher) (c : Codec) where
  -- Check 4 of `verifyEntry`.
  unfoldable pub check_reveal : BlockEntry → Option Reveal → Option EntryStatus
  check_reveal entry none = some withheld
  check_reveal entry (some r) = parsed (c.parse entry.envelope) λ env. do
    id ← property "txId" env
    content_hash ← property "contentHash" env
    some (
        if is_text content_hash (content_commitment h c id r.salt r.content)
        then revealed
        else failed commitment_mismatch)

  unfoldable pub entry_status : BlockEntry → AnchorRecord → String → Option EntryStatus
  entry_status entry anchor anchored_root =
      if not (ltb anchor.from_seq entry.seq && leb entry.seq anchor.to_seq)
      then some (failed out_of_range)
      else if not (str_eq (hash_leaf h (h.utf8 entry.envelope)) entry.leaf_hash)
      then some (failed leaf_mismatch)
      else do
        included ← verify_merkle_proof h entry.leaf_hash entry.merkle_proof anchored_root
        if not included then some (failed proof_mismatch) else check_reveal entry entry.reveal

  unfoldable pub verify_entry : BlockEntry → AnchorRecord → String → Option EntryVerdict
  unfolding entry_status
  verify_entry entry anchor anchored_root = do
    status ← entry_status entry anchor anchored_root
    some (record { tx_id = entry.tx_id; seq = entry.seq; status = status })

  unfoldable pub verify_entries :
      List BlockEntry → AnchorRecord → String → Option (List EntryVerdict)
  unfolding verify_entry
  verify_entries [] anchor root = some []
  verify_entries (e ∷ rest) anchor root = do
    v ← verify_entry e anchor root
    vs ← verify_entries rest anchor root
    some (v ∷ vs)

  unfoldable pub verify_block : BlockBundle → String → Option BlockReport
  verify_block bundle anchored_root = do
    verdicts ← verify_entries bundle.entries bundle.anchor anchored_root
    let root_matches = str_eq bundle.anchor.bundle_merkle_root anchored_root
    let tx_count_ok = bundle.anchor.tx_count == length bundle.entries
    some (record {
      block_height = bundle.anchor.block_height;
      ok = root_matches && tx_count_ok && all (λ v. is_ok v.status) verdicts;
      root_matches = root_matches;
      tx_count_ok = tx_count_ok;
      verdicts = verdicts;
    })

  pub anchor_hash : AnchorRecord → String
  anchor_hash a = canonical_hash h c (anchor_json a)

  -- The conjunction is left at the first test that fails, so the tip is not computed then.
  pub verify_chain_link : AnchorRecord → AnchorRecord → Option Bool
  unfolding anchor_hash
  verify_chain_link curr prev =
      if (curr.block_height == prev.block_height + 1)
        && (curr.from_seq == prev.to_seq)
        && opt_eq curr.prev_block_root (some prev.bundle_merkle_root)
        && opt_eq curr.prev_chain_tip_hash (some prev.chain_tip_hash)
      then (do
        tip ← compute_chain_tip_hash h curr.prev_chain_tip_hash curr.bundle_merkle_root
        some (
            str_eq curr.chain_tip_hash tip
            && opt_eq curr.prev_anchor_hash (some (anchor_hash prev))))
      else some false

  -- The loop of `verifyChain` over the anchors that follow `prev`: the tip, or `none` on a failure.
  pub walk_links : AnchorRecord → List AnchorRecord → Option (Option String)
  unfolding verify_chain_link
  walk_links prev [] = some (some prev.chain_tip_hash)
  walk_links prev (curr ∷ rest) = do
    linked ← verify_chain_link curr prev
    let next = walk_links curr rest
    if linked then next else some none

  pub genesis_ok : AnchorRecord → Option Bool
  genesis_ok g =
      if (g.block_height == 1)
        && (g.from_seq == 0)
        && is_null g.prev_block_root
        && is_null g.prev_chain_tip_hash
        && is_null g.prev_anchor_hash
      then (do
        tip ← compute_chain_tip_hash h none g.bundle_merkle_root
        some (str_eq g.chain_tip_hash tip))
      else some false

  pub verify_chain : List AnchorRecord → Option String → Option (Bool × Option String)
  unfolding walk_links genesis_ok
  verify_chain [] expected = some (true, none)
  verify_chain (g ∷ rest) expected =
      if not (expected_ok expected g.chain_id)
      then some (false, none)
      else if not (all (λ a. str_eq a.chain_id g.chain_id) (g ∷ rest))
      then some (false, none)
      else do
        genesis ← genesis_ok g
        if genesis
            then (do tip ← walk_links g rest; some (chain_result tip))
            else some (false, none)
