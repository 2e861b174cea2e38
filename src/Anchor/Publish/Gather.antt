-- ===== src/Anchor/Publish/Gather.antt =====
-- The steps of `publish`: what its loop gathers, and that the target takes it.
use oursay.Base.{
  suc, ◌≡◌, inl, inr, refl, sym, ap, ◌∙◌, String, Bool, true, false, Option, none, some, List, [],
  ◌∷◌, length, rev_append, arith, ◌==◌, str_eq, Bool-cases, >>=-eq-some, some_inj, ◌>>=◌,
}
use oursay.Crypto.Hash.{Hasher}
use oursay.Crypto.Merkle.{merkle_root}
use oursay.Crypto.Canonical.{Codec}
use oursay.Anchor.Record.{AnchorRecord, BlockHeader, BlockBundle}
use oursay.Anchor.Assemble.{anchor_of, header_only_bundle, assemble, entries_from, leaves_of}
use oursay.Anchor.Publish.{
  Target, newest_anchor, anchor_height, anchor_to_seq, contiguous, read_anchors, publish_bundle,
  publish_bundles, bundle_for, gather,
}
use oursay.Anchor.Publish.Mirror.{Mirrors}
use oursay.Ledger.Store.{Store, get_txs_by_seq_range}
use oursay.Ledger.Connector.{Ledger, fetch_block_by_height}
use oursay.Ledger.Connector.Chained.{
  Chained, newest, height_of, from_seq_of, chain_blocks, height_of-length,
  fetch_block_by_height-after,
}

module _ (h : Hasher) (c : Codec) (chain_id : String) where
  assemble-anchor :
      (b : BlockHeader) (prev : Option AnchorRecord) (allow : Bool) (s : Store) {x : BlockBundle}
      → assemble h c b prev allow s ≡ some x
      → x.anchor ≡ anchor_of h c b prev
  unfolding assemble
  assemble-anchor b prev allow s {x = x} e =
      let txs = get_txs_by_seq_range b.chain_id b.from_seq b.to_seq s in
      let (root, p, q) = >>=-eq-some (merkle_root h (leaves_of h c txs)) _ e in
      elim (Bool-cases (str_eq root b.bundle_merkle_root)) [
        | inr f ↦ let q' : none ≡ some x = rw f at q in absurd (cc)
        | inl t ↦ elim (Bool-cases (length txs == b.tx_count)) [
          | inr f' ↦ let q' : none ≡ some x = rw (t, f') at q in absurd (cc)
          | inl t' ↦
              let q' : (entries_from h c (leaves_of h c txs) allow 0 txs >>= λ entries.
              some (record { anchor = anchor_of h c b prev; entries = entries }))
                  ≡ some x =
                rw (t, t') at q in
              let (es, r, u) =
                >>=-eq-some (entries_from h c (leaves_of h c txs) allow 0 txs) _ q' in
              ap (λ (y : BlockBundle). y.anchor) (sym (some_inj u))
        ]
      ]

  pub bundle_for-anchor :
      (s : Store) (header_only : Bool) (b : BlockHeader) (prev : Option AnchorRecord)
      {x : BlockBundle}
      → bundle_for h c chain_id s header_only b prev ≡ some x
      → x.anchor ≡ anchor_of h c b prev
  unfolding bundle_for header_only_bundle
  bundle_for-anchor s true b prev e = ap (λ (y : BlockBundle). y.anchor) (sym (some_inj e))
  bundle_for-anchor s false b prev e = assemble-anchor b prev true s e

  -- Bundles, oldest first, of these blocks, oldest first, after the bundles `ys`.
  abbrev pub Follow : List BlockBundle → List BlockHeader → List BlockBundle → Type 0
  Follow ys [] [] = Unit
  Follow ys (b ∷ next) (x ∷ xs) =
      (x.anchor ≡ anchor_of h c b (newest_anchor ys)) × Follow (x ∷ ys) next xs
  Follow ys [] (x ∷ xs) = ⊥
  Follow ys (b ∷ next) [] = ⊥

  -- What the loop gathers for the blocks after `older` follows the bundles of those.
  pub gather-Follow :
      (l : Ledger) (s : Store) (header_only : Bool)
      → Chained h chain_id (chain_blocks chain_id l.blocks)
      → (next older : List BlockHeader) (ys xs : List BlockBundle)
      → chain_blocks chain_id l.blocks ≡ rev_append next older
      → gather h c chain_id l s header_only (length next) (suc (length older)) (newest_anchor ys)
        ≡ some xs
      → Follow ys next xs
  unfolding gather
  gather-Follow l s ho k [] older ys xs e g = rw (← some_inj g) tt
  gather-Follow l s ho k (b ∷ next) older ys xs e g =
      let (b', p, g') = >>=-eq-some (fetch_block_by_height chain_id (suc (length older)) l) _ g in
      let same : b' ≡ b =
        some_inj (sym p ∙ fetch_block_by_height-after h chain_id l next b older k e) in
      let (x, q, g'') = >>=-eq-some (bundle_for h c chain_id s ho b' (newest_anchor ys)) _ g' in
      let (rest, r, u) =
        >>=-eq-some
          (gather h c chain_id l s ho (length next) (suc (suc (length older))) (some x.anchor)) _
          g'' in
      let anchor =
        bundle_for-anchor s ho b' (newest_anchor ys) q
        ∙ ap (λ (y : BlockHeader). anchor_of h c y (newest_anchor ys)) same in
      rw (← some_inj u) (anchor, gather-Follow l s ho k next (b ∷ older) (x ∷ ys) rest e r)

  pub Follow-Mirrors :
      (next older : List BlockHeader) (ys xs : List BlockBundle)
      → Mirrors h c chain_id older ys
      → Follow ys next xs
      → Mirrors h c chain_id (rev_append next older) (rev_append xs ys)
  Follow-Mirrors [] older ys [] m f = m
  Follow-Mirrors [] older ys (x ∷ xs) m f = absurd f
  Follow-Mirrors (b ∷ next) older ys [] m f = absurd f
  Follow-Mirrors (b ∷ next) older ys (x ∷ xs) m f =
      Follow-Mirrors next (b ∷ older) (x ∷ ys) xs (f.0, m) f.1

  length-Mirrors :
      (bs : List BlockHeader) (ys : List BlockBundle)
      → Mirrors h c chain_id bs ys
      → length ys ≡ length bs
  length-Mirrors [] [] m = refl
  length-Mirrors [] (y ∷ ys) m = absurd m
  length-Mirrors (b ∷ bs) [] m = absurd m
  length-Mirrors (b ∷ bs) (y ∷ ys) m = ap suc (length-Mirrors bs ys m.1)

  pub contiguous-Mirrors :
      (bs : List BlockHeader) (ys : List BlockBundle)
      → Chained h chain_id bs
      → Mirrors h c chain_id bs ys
      → contiguous ys ≡ true
  unfolding contiguous anchor_of
  contiguous-Mirrors [] [] k m = refl
  contiguous-Mirrors [] (y ∷ ys) k m = absurd m
  contiguous-Mirrors (b ∷ bs) [] k m = absurd m
  contiguous-Mirrors (b ∷ bs) (y ∷ ys) k m =
      let height : y.anchor.block_height ≡ b.block_height =
        ap (λ (a : AnchorRecord). a.block_height) m.0 in
      ground (
        arith,
        contiguous-Mirrors bs ys k.1 m.1,
        height,
        height_of-length h chain_id (b ∷ bs) k,
        length-Mirrors bs ys m.1,
      )

  -- The newest anchor has the height and the end of the range of the newest block.
  pub newest-Mirrors :
      (bs : List BlockHeader) (ys : List BlockBundle)
      → Mirrors h c chain_id bs ys
      → (anchor_height (newest_anchor ys) ≡ height_of (newest bs))
        × (anchor_to_seq (newest_anchor ys) ≡ from_seq_of (newest bs))
  unfolding anchor_of
  newest-Mirrors [] [] m = (refl, refl)
  newest-Mirrors [] (y ∷ ys) m = absurd m
  newest-Mirrors (b ∷ bs) [] m = absurd m
  newest-Mirrors (b ∷ bs) (y ∷ ys) m =
      (ap (λ (a : AnchorRecord). a.block_height) m.0, ap (λ (a : AnchorRecord). a.to_seq) m.0)

  publish_bundle-next :
      (b : BlockHeader) (older : List BlockHeader) (x : BlockBundle) (t : Target)
      → Chained h chain_id (b ∷ older)
      → Mirrors h c chain_id older t.bundles
      → x.anchor ≡ anchor_of h c b (newest_anchor t.bundles)
      → publish_bundle x t ≡ some (record t { bundles = x ∷ t.bundles })
  unfolding publish_bundle read_anchors anchor_of
  publish_bundle-next b older x t k m e =
      let height : x.anchor.block_height ≡ b.block_height =
        ap (λ (a : AnchorRecord). a.block_height) e in
      let from : x.anchor.from_seq ≡ b.from_seq = ap (λ (a : AnchorRecord). a.from_seq) e in
      let at = newest-Mirrors older t.bundles m in
      ground (
        arith,
        contiguous-Mirrors older t.bundles k.1 m,
        height,
        from,
        at.0,
        at.1,
        k.0.height,
        k.0.seq,
      )

  Chained-next :
      (next older : List BlockHeader)
      → Chained h chain_id (rev_append next older)
      → Chained h chain_id older
  Chained-next [] older k = k
  Chained-next (b ∷ next) older k = (Chained-next next (b ∷ older) k).1

  pub publish_bundles-Follow :
      (next older : List BlockHeader) (xs : List BlockBundle) (t : Target)
      → Chained h chain_id (rev_append next older)
      → Mirrors h c chain_id older t.bundles
      → Follow t.bundles next xs
      → publish_bundles xs t ≡ (record t { bundles = rev_append xs t.bundles }, true)
  unfolding publish_bundles
  publish_bundles-Follow [] older [] t k m f = refl
  publish_bundles-Follow [] older (x ∷ xs) t k m f = absurd f
  publish_bundles-Follow (b ∷ next) older [] t k m f = absurd f
  publish_bundles-Follow (b ∷ next) older (x ∷ xs) t k m f =
      let accepted = publish_bundle-next b older x t (Chained-next next (b ∷ older) k) m f.0 in
      rw (accepted, publish_bundles)
        (publish_bundles-Follow next (b ∷ older) xs (record t { bundles = x ∷ t.bundles }) k
          (f.0, m) f.1)
