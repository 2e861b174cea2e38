-- ===== src/Anchor/Publish/Mirror.antt =====
-- A target that mirrors the ledger: its anchors are those of the chain's oldest blocks, each after
-- the one before it. Such anchors are an intact chain to the auditor.
use oursay.Base.{
  ◌≡◌, refl, sym, ap, ◌∙◌, String, true, Option, none, some, List, [], ◌∷◌, map, rev_append, All,
  arith,
}
use oursay.Crypto.Hash.{Hasher}
use oursay.Crypto.Canonical.{Codec}
use oursay.Anchor.Record.{AnchorRecord, BlockHeader, BlockBundle}
use oursay.Anchor.Assemble.{anchor_of, prev_hash_of}
use oursay.Anchor.Verify.{verify_chain}
use oursay.Anchor.Verify.Chain.{IsLinked, IsGenesis, Links, last_tip, verify_chain_iff}
use oursay.Anchor.Publish.{newest_anchor}
use oursay.Ledger.Connector.Chained.{Continues, Chained}

abbrev pub anchors : List BlockBundle → List AnchorRecord
anchors = map (λ b. b.anchor)

All-chain_id :
    {id id' : String}
    → id' ≡ id
    → (chain : List AnchorRecord) → All (λ a. a.chain_id ≡ id) chain
    → All (λ a. a.chain_id ≡ id') chain
All-chain_id e [] x = tt
All-chain_id e (a ∷ chain) x = (x.0 ∙ sym e, All-chain_id e chain x.1)

module _ (h : Hasher) (c : Codec) (chain_id : String) where
  -- The bundles, newest first, are those of these blocks, newest first.
  abbrev pub Mirrors : List BlockHeader → List BlockBundle → Type 0
  Mirrors [] [] = Unit
  Mirrors (b ∷ bs) (x ∷ xs) = (x.anchor ≡ anchor_of h c b (newest_anchor xs)) × Mirrors bs xs
  Mirrors [] (x ∷ xs) = ⊥
  Mirrors (b ∷ bs) [] = ⊥

  anchor_of-IsLinked :
      (b p : BlockHeader) (prev : Option AnchorRecord) (a : AnchorRecord)
      → Continues h chain_id (some p) b
      → a ≡ anchor_of h c p prev
      → IsLinked h c a (anchor_of h c b (some a))
  unfolding anchor_of prev_hash_of
  anchor_of-IsLinked b p prev a k e =
      let at_p = e in
      record {
        height = rw at_p k.height;
        seq = rw at_p k.seq;
        root = rw at_p k.root;
        prev_tip = rw at_p k.prev_tip;
        tip = rw at_p k.tip;
        anchor = refl;
      }

  anchor_of-IsGenesis :
      (b : BlockHeader) → Continues h chain_id none b → IsGenesis h c (anchor_of h c b none)
  unfolding anchor_of prev_hash_of
  anchor_of-IsGenesis b k = record {
    height = k.height ∙ (omega arith);
    seq = k.seq;
    root = k.root;
    prev_tip = k.prev_tip;
    anchor = refl;
    tip = k.tip;
  }

  -- The anchors that a list of bundles mirrors, read on from its newest one by a linked list.
  intact_from :
      (bs : List BlockHeader) (xs : List BlockBundle) (x : BlockBundle) (b : BlockHeader)
      (rest : List AnchorRecord)
      → Chained h chain_id (b ∷ bs)
      → Mirrors (b ∷ bs) (x ∷ xs)
      → Links h c x.anchor rest
      → All (λ a. a.chain_id ≡ chain_id) rest
      → verify_chain h c (rev_append (anchors (x ∷ xs)) rest) (some chain_id)
        ≡ some (true, some (last_tip h c x.anchor rest))
  unfolding anchor_of
  intact_from [] [] x b rest k m l one =
      let own : x.anchor.chain_id ≡ chain_id = rw m.0 k.0.chain in
      (verify_chain_iff h c x.anchor rest (some chain_id) (last_tip h c x.anchor rest)).1 (record {
        expects = own;
        one_chain = (refl, All-chain_id own rest one);
        genesis = rw m.0 (anchor_of-IsGenesis b k.0);
        links = l;
        tip_last = refl;
      })
  intact_from [] (y ∷ ys) x b rest k m l one = absurd m.1
  intact_from (p ∷ ps) [] x b rest k m l one = absurd m.1
  intact_from (p ∷ ps) (y ∷ ys) x b rest k m l one =
      let own : x.anchor.chain_id ≡ chain_id = rw m.0 k.0.chain in
      let linked : IsLinked h c y.anchor x.anchor =
        rw m.0 (anchor_of-IsLinked b p (newest_anchor ys) y.anchor k.0 m.1.0) in
      intact_from ps ys y p (x.anchor ∷ rest) k.1 m.1 (linked, l) (own, one)

  -- The anchors of a target that mirrors the blocks of a linked chain, in the order of their
  -- heights, are found to be an intact chain with this id, and its tip is that of the newest block.
  pub verify_chain-Mirrors :
      (b : BlockHeader) (bs : List BlockHeader) (xs : List BlockBundle)
      → Chained h chain_id (b ∷ bs)
      → Mirrors (b ∷ bs) xs
      → verify_chain h c (rev_append (anchors xs) []) (some chain_id)
        ≡ some (true, some b.chain_tip_hash)
  unfolding anchor_of
  verify_chain-Mirrors b bs [] k m = absurd m
  verify_chain-Mirrors b bs (x ∷ xs) k m =
      intact_from bs xs x b [] k m tt tt
      ∙ ap (λ (a : AnchorRecord). some (true, some a.chain_tip_hash)) m.0
