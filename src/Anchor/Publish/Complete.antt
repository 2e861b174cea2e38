-- ===== src/Anchor/Publish/Complete.antt =====
-- The publisher brings a target that mirrors the ledger up to the tip.
use oursay.Base.{
  ℕ, suc, ◌+◌, ◌-◌, ◌≡◌, refl, sym, ap, ◌∙◌, String, true, Option, none, some, List, [], ◌∷◌, map,
  length, rev_append, arith, str_eq_iff,
}
use oursay.Crypto.Hash.{Hasher}
use oursay.Crypto.Canonical.{Codec}
use oursay.Anchor.Record.{AnchorRecord, BlockHeader, BlockBundle}
use oursay.Anchor.Assemble.{anchor_of}
use oursay.Anchor.Publish.{
  Target, header_only, newest_anchor, anchor_height, contiguous, read_anchors, fetch_latest_anchor,
  find_anchor, fetch_anchor, tip_intact, gather, publish, record_public_witness_tip, deliver,
}
use oursay.Anchor.Publish.Mirror.{Mirrors}
use oursay.Anchor.Publish.Gather.{
  Follow, gather-Follow, Follow-Mirrors, contiguous-Mirrors, newest-Mirrors, publish_bundles-Follow,
}
use oursay.Ledger.Store.{Store}
use oursay.Ledger.Connector.{Ledger, fetch_latest_block}
use oursay.Ledger.Connector.Chained.{
  Chained, newest, chain_blocks, height_of-length, Chained-suffix, fetch_block_by_height-after,
  fetch_latest_block-newest,
}

length-rev_append : (xs ys : List BlockHeader) → length (rev_append xs ys) ≡ length xs + length ys
length-rev_append [] ys = omega arith
length-rev_append (x ∷ xs) ys = omega (arith, length-rev_append xs (x ∷ ys))

rev_append-empty : (xs ys : List BlockHeader) → rev_append xs ys ≡ [] → ys ≡ []
rev_append-empty xs [] e = refl
rev_append-empty xs (y ∷ ys) e = absurd (omega (arith, length-rev_append xs (y ∷ ys), ap length e))

record_public_witness_tip-bundles :
    (heights : List ℕ) (t : Target) → (record_public_witness_tip heights t).bundles ≡ t.bundles
unfolding record_public_witness_tip
record_public_witness_tip-bundles [] t = refl
record_public_witness_tip-bundles (x ∷ rest) t = ground arith

module _ (h : Hasher) (c : Codec) (chain_id : String) where
  -- A target that mirrors the oldest blocks of a chain; the others are to be published.
  pub record IsReplica (l : Ledger) (t : Target) (next older : List BlockHeader) : Type 0 where
    pub chained : Chained h chain_id (chain_blocks chain_id l.blocks)
    pub blocks : chain_blocks chain_id l.blocks ≡ rev_append next older
    pub mirrors : Mirrors h c chain_id older t.bundles

  pub IsReplica-Chained :
      {l : Ledger} {t : Target} {next older : List BlockHeader}
      → IsReplica l t next older
      → Chained h chain_id (rev_append next older)
  IsReplica-Chained r = rw r.blocks at r.chained

  pub fetch_latest_anchor-newest :
      (l : Ledger) (t : Target) (next older : List BlockHeader)
      → IsReplica l t next older
      → fetch_latest_anchor t ≡ some (newest_anchor t.bundles)
  unfolding fetch_latest_anchor read_anchors
  fetch_latest_anchor-newest l t next older r =
      let k = Chained-suffix h chain_id next older (IsReplica-Chained r) in
      rw (contiguous-Mirrors h c chain_id older t.bundles k r.mirrors) refl

  fetch_anchor-top :
      (t : Target) (y : BlockBundle) (ys : List BlockBundle) (n : ℕ)
      → t.bundles ≡ y ∷ ys
      → contiguous t.bundles ≡ true
      → y.anchor.block_height ≡ n
      → fetch_anchor n t ≡ some (some y.anchor)
  unfolding fetch_anchor read_anchors find_anchor
  fetch_anchor-top t y ys n e k a = rw (k, e) (ground (arith, a))

  -- The test of the tip passes.
  pub tip_intact-IsReplica :
      (l : Ledger) (t : Target) (next older : List BlockHeader) (ys : List BlockBundle)
      → t.bundles ≡ ys
      → IsReplica l t next older
      → tip_intact h c chain_id l t (length older) ≡ true
  unfolding tip_intact anchor_of
  tip_intact-IsReplica l t next [] ys q r = refl
  tip_intact-IsReplica l t next (p ∷ ps) [] q r = absurd (rw q at r.mirrors)
  tip_intact-IsReplica l t next (p ∷ ps) (y ∷ ys) q r =
      let m : Mirrors h c chain_id (p ∷ ps) (y ∷ ys) = rw q at r.mirrors in
      let k = Chained-suffix h chain_id next (p ∷ ps) (IsReplica-Chained r) in
      let height =
        ap (λ (a : AnchorRecord). a.block_height) m.0 ∙ height_of-length h chain_id (p ∷ ps) k in
      let anchor =
        fetch_anchor-top t y ys (suc (length ps)) q
          (contiguous-Mirrors h c chain_id (p ∷ ps) t.bundles k r.mirrors) height in
      let block = fetch_block_by_height-after h chain_id l next p ps r.chained r.blocks in
      let root = ap (λ (a : AnchorRecord). a.bundle_merkle_root) m.0 in
      rw (anchor, block, tip_intact)
        ((str_eq_iff y.anchor.bundle_merkle_root p.bundle_merkle_root).1 root)

  deliver-Mirrors :
      (bundles : Option (List BlockBundle)) (t : Target) (next older : List BlockHeader)
      {heights : List ℕ}
      → Chained h chain_id (rev_append next older)
      → Mirrors h c chain_id older t.bundles
      → ((xs : List BlockBundle) → bundles ≡ some xs → Follow h c chain_id t.bundles next xs)
      → (deliver h c chain_id bundles t).1 ≡ some heights
      → Mirrors h c chain_id (rev_append next older) (deliver h c chain_id bundles t).0.bundles
  deliver-Mirrors none t next older k m f e = absurd (cc)
  deliver-Mirrors (some []) t next older k m f e =
      Follow-Mirrors h c chain_id next older t.bundles [] m (f [] refl)
  deliver-Mirrors (some (x ∷ xs)) t next older k m f e =
      let follow = f (x ∷ xs) refl in
      let done = publish_bundles-Follow h c chain_id next older (x ∷ xs) t k m follow in
      let heights = map (λ (b : BlockBundle). b.anchor.block_height) (x ∷ xs) in
      let t' : Target = record t { bundles = rev_append (x ∷ xs) t.bundles } in
      let whole = Follow-Mirrors h c chain_id next older t.bundles (x ∷ xs) m follow in
      rw (done, record_public_witness_tip-bundles heights t') whole

  -- The blocks of the chain, counted from the newest down to the oldest that is to be published.
  pub missing :
      (l : Ledger) (t : Target) (b : BlockHeader) (bs next older : List BlockHeader)
      → IsReplica l t next older
      → chain_blocks chain_id l.blocks ≡ b ∷ bs
      → (anchor_height (newest_anchor t.bundles) ≡ length older)
        × (b.block_height - length older ≡ length next)
  missing l t b bs next older r e =
      let k = IsReplica-Chained r in
      let all : Chained h chain_id (b ∷ bs) = rw e at r.chained in
      let top = height_of-length h chain_id (b ∷ bs) all in
      let same = ap length (sym e ∙ r.blocks) in
      let sum = length-rev_append next older in
      (
        (newest-Mirrors h c chain_id older t.bundles r.mirrors).0
            ∙ height_of-length h chain_id older (Chained-suffix h chain_id next older k),
        omega (arith, top, same, sum),
      )

  publish_by_blocks :
      (l : Ledger) (s : Store) (t : Target) (next older : List BlockHeader) {heights : List ℕ}
      → IsReplica l t next older
      → (bs : List BlockHeader) → chain_blocks chain_id l.blocks ≡ bs
      → (publish h c chain_id l s t).1 ≡ some heights
      → Mirrors h c chain_id (chain_blocks chain_id l.blocks) (publish h c chain_id l s t).0.bundles
  unfolding publish
  publish_by_blocks l s t next older r [] e =
      let empty = rev_append-empty next older (sym r.blocks ∙ e) in
      let latest : fetch_latest_block chain_id l ≡ none =
        fetch_latest_block-newest h chain_id l r.chained ∙ ap newest e in
      let m : Mirrors h c chain_id [] t.bundles = rw empty at r.mirrors in rw (latest, e) (λ q. m)
  publish_by_blocks l s t next older r (b ∷ bs) e =
      let latest : fetch_latest_block chain_id l ≡ some b =
        fetch_latest_block-newest h chain_id l r.chained ∙ ap newest e in
      let anchor = fetch_latest_anchor-newest l t next older r in
      let intact = tip_intact-IsReplica l t next older t.bundles refl r in
      let (last, count) = missing l t b bs next older r e in
      let gathered =
        gather h c chain_id l s (header_only t) (length next) (suc (length older))
          (newest_anchor t.bundles) in
      rw (latest, anchor, last, count, intact, r.blocks)
        (deliver-Mirrors gathered t next older (IsReplica-Chained r) r.mirrors (λ xs q.
          gather-Follow h c chain_id l s (header_only t) r.chained next older t.bundles xs r.blocks
            q))

  -- If `publish` returns on a target that mirrors the oldest blocks of a chain of linked blocks,
  -- then the target mirrors all of them.
  pub publish-Mirrors :
      (l : Ledger) (s : Store) (t : Target) (next older : List BlockHeader) {heights : List ℕ}
      → IsReplica l t next older
      → (publish h c chain_id l s t).1 ≡ some heights
      → Mirrors h c chain_id (chain_blocks chain_id l.blocks) (publish h c chain_id l s t).0.bundles
  publish-Mirrors l s t next older r =
      publish_by_blocks l s t next older r (chain_blocks chain_id l.blocks) refl
