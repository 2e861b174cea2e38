-- ===== src/Anchor/Verify/History.antt =====
-- The tip that `verifyChain` returns commits to the whole history of blocks.
use oursay.Base.{
  ◌≡◌, ◌⊎◌, refl, ap, sym, ℕ, inl, inr, ◌∙◌, String, true, Option, none, some, List, [], ◌∷◌,
  length, map, suc,
}
use oursay.Crypto.Hash.{Hasher, Lawful, Collides}
use oursay.Crypto.Canonical.{Codec}
use oursay.Anchor.Record.{AnchorRecord}
use oursay.Anchor.Tip.{tip_preimage_half}
use oursay.Anchor.Tip.Binding.{
  fold_tips, fold_tips-nil, fold_tips-cons, fold_tips_binding, tip_inputs,
}
use oursay.Anchor.Verify.{verify_chain}
use oursay.Anchor.Verify.Chain.{Links, last_tip, verify_chain_iff}

abbrev pub roots : List AnchorRecord → List String
roots = map (λ a. a.bundle_merkle_root)

abbrev pub root_bytes : Hasher → AnchorRecord → Option (List ℕ)
root_bytes h a = tip_preimage_half h (some a.bundle_merkle_root)

length-roots : (chain : List AnchorRecord) → length (roots chain) ≡ length chain
length-roots [] = refl
length-roots (a ∷ chain) = ap suc (length-roots chain)

map-roots :
    (h : Hasher) (chain : List AnchorRecord)
    → map (λ r. tip_preimage_half h (some r)) (roots chain) ≡ map (root_bytes h) chain
map-roots h [] = refl
map-roots h (a ∷ chain) = cc (map-roots h chain)

module _ (h : Hasher) (c : Codec) where
  fold_tips-Links :
      (a : AnchorRecord) (rest : List AnchorRecord)
      → Links h c a rest
      → fold_tips h (some a.chain_tip_hash) (roots rest) ≡ some (some (last_tip h c a rest))
  fold_tips-Links a [] l = fold_tips-nil h (some a.chain_tip_hash)
  fold_tips-Links a (b ∷ rest) l =
      fold_tips-cons h (some a.chain_tip_hash) b.bundle_merkle_root (roots rest) l.0.tip
      ∙ fold_tips-Links b rest l.1

  -- The tip of an accepted chain is the fold of its roots from the empty tip.
  pub verify_chain-fold_tips :
      (g : AnchorRecord) (rest : List AnchorRecord) (expected : Option String) {tip : String}
      → verify_chain h c (g ∷ rest) expected ≡ some (true, some tip)
      → fold_tips h none (roots (g ∷ rest)) ≡ some (some tip)
  verify_chain-fold_tips g rest expected {tip = tip} e =
      let v = (verify_chain_iff h c g rest expected tip).0 e in
      fold_tips-cons h none g.bundle_merkle_root (roots rest) v.genesis.tip
      ∙ fold_tips-Links g rest v.links
      ∙ ap (λ (t : String). some (some t)) v.tip_last

  -- Two chains of one length that are accepted with one tip have the same block roots, as bytes; or
  -- one of the inputs that are hashed for the tips of the one collides with one of the other.
  pub verify_chain_binding :
      (law : Lawful h) (g g' : AnchorRecord) (rest rest' : List AnchorRecord)
      (expected expected' : Option String) (tip : String)
      → length rest ≡ length rest'
      → verify_chain h c (g ∷ rest) expected ≡ some (true, some tip)
      → verify_chain h c (g' ∷ rest') expected' ≡ some (true, some tip)
      → (map (root_bytes h) (g ∷ rest) ≡ map (root_bytes h) (g' ∷ rest'))
        ⊎ Collides h (tip_inputs h none (roots (g ∷ rest))) (tip_inputs h none (roots (g' ∷ rest')))
  verify_chain_binding law g g' rest rest' expected expected' tip n e e' =
      let same_length = length-roots (g ∷ rest) ∙ ap suc n ∙ sym (length-roots (g' ∷ rest')) in
      elim (fold_tips_binding h law (roots (g ∷ rest)) (roots (g' ∷ rest')) same_length
        (verify_chain-fold_tips g rest expected e) (verify_chain-fold_tips g' rest' expected' e')) [
          | inl same ↦ inl (sym (map-roots h (g ∷ rest)) ∙ same ∙ map-roots h (g' ∷ rest'))
          | inr col ↦ inr col
        ]
