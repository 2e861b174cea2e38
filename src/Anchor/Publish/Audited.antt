-- ===== src/Anchor/Publish/Audited.antt =====
-- What an auditor finds on a target after `publish`, and that `publish` returns, where the store still
-- has the missing blocks.
use oursay.Base.{
  ℕ, suc, ◌≡◌, refl, ap, ◌∙◌, String, true, false, All, Option, none, some, List, [], ◌∷◌, map,
  length, rev_append,
}
use oursay.Crypto.Hash.{Hasher}
use oursay.Crypto.Canonical.{Codec}
use oursay.Anchor.Record.{AnchorRecord, BlockHeader, BlockBundle}
use oursay.Crypto.Merkle.{merkle_root}
use oursay.Anchor.Assemble.{leaves_of}
use oursay.Anchor.Assemble.Verified.{IsCommitted, verify_block-assemble}
use oursay.Anchor.Verify.{verify_chain}
use oursay.Anchor.Publish.{
  Target, newest_anchor, read_anchors, list_anchors, bundle_for, gather, publish, deliver,
}
use oursay.Anchor.Publish.Mirror.{Mirrors, anchors, verify_chain-Mirrors}
use oursay.Anchor.Publish.Gather.{Follow, gather-Follow, contiguous-Mirrors, publish_bundles-Follow}
use oursay.Anchor.Publish.Complete.{
  IsReplica, IsReplica-Chained, fetch_latest_anchor-newest, missing, tip_intact-IsReplica,
  publish-Mirrors,
}
use oursay.Ledger.Store.{Store, get_txs_by_seq_range}
use oursay.Ledger.Connector.{Ledger, fetch_latest_block}
use oursay.Ledger.Connector.Chained.{
  Chained, newest, chain_blocks, fetch_block_by_height-after, fetch_latest_block-newest,
}

module _ (h : Hasher) (c : Codec) (chain_id : String) where
  -- If `publish` returns on a target that mirrors the oldest blocks of a chain of linked blocks
  -- (none of them, for a new target), then the target's list of anchors can be read, and the
  -- auditor finds it to be an intact chain with this id, whose tip is that of the newest block.
  pub verify_chain-publish :
      (l : Ledger) (s : Store) (t : Target) (next older : List BlockHeader) (b : BlockHeader)
      (bs : List BlockHeader) {heights : List ℕ}
      → IsReplica h c chain_id l t next older
      → chain_blocks chain_id l.blocks ≡ b ∷ bs
      → (publish h c chain_id l s t).1 ≡ some heights
      → (chain : List AnchorRecord) × (list_anchors (publish h c chain_id l s t).0 ≡ some chain)
        × (verify_chain h c chain (some chain_id) ≡ some (true, some b.chain_tip_hash))
  unfolding list_anchors read_anchors
  verify_chain-publish l s t next older b bs r e returned =
      let t' = (publish h c chain_id l s t).0 in
      let m : Mirrors h c chain_id (b ∷ bs) t'.bundles =
        rw e at (publish-Mirrors h c chain_id l s t next older r returned) in
      let k : Chained h chain_id (b ∷ bs) = rw e at r.chained in
      let readable = contiguous-Mirrors h c chain_id (b ∷ bs) t'.bundles k m in
      (
        rev_append (anchors t'.bundles) [],
        rw readable refl,
        verify_chain-Mirrors h c chain_id b bs t'.bundles k m,
      )

  -- The store still has the transactions of a block, as its header says.
  pub record IsKept (s : Store) (b : BlockHeader) : Type 0 where
    pub root :
        merkle_root h (leaves_of h c (get_txs_by_seq_range b.chain_id b.from_seq b.to_seq s))
        ≡ some b.bundle_merkle_root
    pub count : length (get_txs_by_seq_range b.chain_id b.from_seq b.to_seq s) ≡ b.tx_count

  gather_returns :
      (l : Ledger) (s : Store)
      → All (IsCommitted h c) s.rows
      → Chained h chain_id (chain_blocks chain_id l.blocks)
      → (next older : List BlockHeader) (prev : Option AnchorRecord) → All (IsKept s) next
      → chain_blocks chain_id l.blocks ≡ rev_append next older
      → (xs : List BlockBundle) × (gather h c chain_id l s false
            (length next)
            (suc (length older))
            prev
          ≡ some xs)
  unfolding gather bundle_for
  gather_returns l s committed k [] older prev kept e = ([], refl)
  gather_returns l s committed k (b ∷ next) older prev kept e =
      let (x, report, built, verdict, ok) =
        verify_block-assemble h c b prev true s committed kept.0.root kept.0.count in
      let here = fetch_block_by_height-after h chain_id l next b older k e in
      let (xs, q) = gather_returns l s committed k next (b ∷ older) (some x.anchor) kept.1 e in
      (x ∷ xs, rw (here, built, q) refl)

  deliver_returns :
      (xs : List BlockBundle) (t : Target) (next older : List BlockHeader)
      → Chained h chain_id (rev_append next older)
      → Mirrors h c chain_id older t.bundles
      → Follow h c chain_id t.bundles next xs
      → (heights : List ℕ) × ((deliver h c chain_id (some xs) t).1 ≡ some heights)
  deliver_returns [] t next older k m f = ([], refl)
  deliver_returns (x ∷ xs) t next older k m f = (
    map (λ (b : BlockBundle). b.anchor.block_height) (x ∷ xs),
    rw (publish_bundles-Follow h c chain_id next older (x ∷ xs) t k m f) refl,
  )

  heights_returned :
      (l : Ledger) (s : Store) (t : Target) (next older : List BlockHeader)
      → All (IsCommitted h c) s.rows
      → All (IsKept s) next
      → IsReplica h c chain_id l t next older
      → (bs : List BlockHeader) → chain_blocks chain_id l.blocks ≡ bs
      → (heights : List ℕ) × ((publish h c chain_id l s t).1 ≡ some heights)
  unfolding publish
  heights_returned l s t next older committed kept r [] e =
      let latest : fetch_latest_block chain_id l ≡ none =
        fetch_latest_block-newest h chain_id l r.chained ∙ ap newest e in
      ([], rw latest refl)
  heights_returned l s t next older committed kept r (b ∷ bs) e =
      let latest : fetch_latest_block chain_id l ≡ some b =
        fetch_latest_block-newest h chain_id l r.chained ∙ ap newest e in
      let anchor = fetch_latest_anchor-newest h c chain_id l t next older r in
      let intact = tip_intact-IsReplica h c chain_id l t next older t.bundles refl r in
      let (last, count) = missing h c chain_id l t b bs next older r e in
      let (xs, q) =
        gather_returns l s committed r.chained next older (newest_anchor t.bundles) kept r.blocks in
      let follow =
        gather-Follow h c chain_id l s false r.chained next older t.bundles xs r.blocks q in
      rw (latest, anchor, last, count, intact, q)
        (deliver_returns xs t next older (IsReplica-Chained h c chain_id r) r.mirrors follow)

  -- On a target that mirrors the oldest blocks of a chain of linked blocks, `publish` returns, if
  -- every envelope of the store commits to its plaintext, and the store still has the transactions
  -- of every block that is missing on the target; and then the target mirrors all blocks of the
  -- chain.
  pub publish_returns :
      (l : Ledger) (s : Store) (t : Target) (next older : List BlockHeader)
      → All (IsCommitted h c) s.rows
      → All (IsKept s) next
      → IsReplica h c chain_id l t next older
      → (heights : List ℕ) × ((publish h c chain_id l s t).1 ≡ some heights)
        × Mirrors h c chain_id
            (chain_blocks chain_id l.blocks)
            (publish h c chain_id l s t).0.bundles
  publish_returns l s t next older committed kept r =
      let (heights, e) =
        heights_returned l s t next older committed kept r (chain_blocks chain_id l.blocks) refl in
      (heights, e, publish-Mirrors h c chain_id l s t next older r e)
