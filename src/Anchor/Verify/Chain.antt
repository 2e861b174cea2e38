-- ===== src/Anchor/Verify/Chain.antt =====
-- What `verifyChain` establishes: it accepts exactly the intact chains, and the tip that it returns
-- is the fold of the block roots.
use oursay.Base.{
  ◌+◌, ◌≡◌, ◌↔◌, refl, sym, ap, ◌∙◌, inl, inr, String, true, Option, none, some, List, [], ◌∷◌, all,
  All, all-All, All-all, arith, str_eq, str_eq_iff, >>=-eq-some, Option-cases, Bool-cases,
}
use oursay.Crypto.Hash.{Hasher}
use oursay.Crypto.Canonical.{Codec}
use oursay.Anchor.Record.{AnchorRecord}
use oursay.Anchor.Tip.{compute_chain_tip_hash}
use oursay.Anchor.Verify.{
  opt_eq, anchor_hash, verify_chain_link, walk_links, genesis_ok, expected_ok, verify_chain,
}

opt_eq-eq : (a b : Option String) → opt_eq a b ≡ true → a ≡ b
opt_eq-eq none none e = refl
opt_eq-eq none (some t) e = absurd (cc)
opt_eq-eq (some s) none e = absurd (cc)
opt_eq-eq (some s) (some t) e = ap some ((str_eq_iff s t).0 e)

opt_eq_refl : (a : Option String) → opt_eq a a ≡ true
opt_eq_refl none = refl
opt_eq_refl (some s) = (str_eq_iff s s).1 refl

module _ (h : Hasher) (c : Codec) where
  -- `curr` continues `prev`.
  pub record IsLinked (prev curr : AnchorRecord) : Type 0 where
    pub height : curr.block_height ≡ prev.block_height + 1
    pub seq : curr.from_seq ≡ prev.to_seq
    pub root : curr.prev_block_root ≡ some prev.bundle_merkle_root
    pub prev_tip : curr.prev_chain_tip_hash ≡ some prev.chain_tip_hash
    pub tip :
        compute_chain_tip_hash h (some prev.chain_tip_hash) curr.bundle_merkle_root
        ≡ some curr.chain_tip_hash
    pub anchor : curr.prev_anchor_hash ≡ some (anchor_hash h c prev)

  link_tip :
      (curr prev : AnchorRecord)
      → verify_chain_link h c curr prev ≡ some true
      → compute_chain_tip_hash h curr.prev_chain_tip_hash curr.bundle_merkle_root
        ≡ some curr.chain_tip_hash
  unfolding verify_chain_link
  link_tip curr prev e =
      elim (Option-cases
        (compute_chain_tip_hash h curr.prev_chain_tip_hash curr.bundle_merkle_root)) [
          | inl thrown ↦ absurd (ground arith)
          | inr (t, q) ↦ q ∙ ap some (sym ((str_eq_iff curr.chain_tip_hash t).0 (ground arith)))
        ]

  link_prev_tip :
      (curr prev : AnchorRecord)
      → verify_chain_link h c curr prev ≡ some true
      → curr.prev_chain_tip_hash ≡ some prev.chain_tip_hash
  unfolding verify_chain_link
  link_prev_tip curr prev e = opt_eq-eq _ _ (ground arith)

  verify_chain_link-IsLinked :
      (curr prev : AnchorRecord) → verify_chain_link h c curr prev ≡ some true → IsLinked prev curr
  unfolding verify_chain_link
  verify_chain_link-IsLinked curr prev e = record {
    height = ground arith;
    seq = ground arith;
    root = opt_eq-eq _ _ (ground arith);
    prev_tip = link_prev_tip curr prev e;
    tip = rw (link_prev_tip curr prev e) at (link_tip curr prev e);
    anchor = opt_eq-eq _ _ (ground arith);
  }

  IsLinked-verify_chain_link :
      (curr prev : AnchorRecord) → IsLinked prev curr → verify_chain_link h c curr prev ≡ some true
  unfolding verify_chain_link
  IsLinked-verify_chain_link curr prev l = ground (
    arith,
    l.height,
    l.seq,
    l.root,
    l.prev_tip,
    l.tip,
    l.anchor,
    str_eq_iff prev.bundle_merkle_root prev.bundle_merkle_root,
    str_eq_iff prev.chain_tip_hash prev.chain_tip_hash,
    str_eq_iff curr.chain_tip_hash curr.chain_tip_hash,
    str_eq_iff (anchor_hash h c prev) (anchor_hash h c prev),
  )

  -- Every anchor of the list continues the one before it.
  abbrev pub Links : AnchorRecord → List AnchorRecord → Type 0
  Links prev [] = Unit
  Links prev (curr ∷ rest) = IsLinked prev curr × Links curr rest

  -- The tip hash of the last anchor.
  abbrev pub last_tip : AnchorRecord → List AnchorRecord → String
  last_tip a [] = a.chain_tip_hash
  last_tip a (b ∷ rest) = last_tip b rest

  walk_links-Links :
      (prev : AnchorRecord) (rest : List AnchorRecord) {tip : String}
      → walk_links h c prev rest ≡ some (some tip)
      → Links prev rest × (last_tip prev rest ≡ tip)
  unfolding walk_links
  walk_links-Links prev [] e = (tt, cc)
  walk_links-Links prev (curr ∷ rest) {tip = tip} e =
      let (linked, p, q) = >>=-eq-some (verify_chain_link h c curr prev) _ e in
      elim (Bool-cases linked) [
        | inl t ↦
            let p' : verify_chain_link h c curr prev ≡ some true = rw t at p in
            let q' : walk_links h c curr rest ≡ some (some tip) = rw t at q in
            let (links, last) = walk_links-Links curr rest q' in
            ((verify_chain_link-IsLinked curr prev p', links), last)
        | inr f ↦ let q' : some none ≡ some (some tip) = rw f at q in absurd (cc)
      ]

  Links-walk_links :
      (prev : AnchorRecord) (rest : List AnchorRecord)
      → Links prev rest
      → walk_links h c prev rest ≡ some (some (last_tip prev rest))
  unfolding walk_links
  Links-walk_links prev [] l = refl
  Links-walk_links prev (curr ∷ rest) l =
      rw (IsLinked-verify_chain_link curr prev l.0) (Links-walk_links curr rest l.1)

  pub record IsGenesis (g : AnchorRecord) : Type 0 where
    pub height : g.block_height ≡ 1
    pub seq : g.from_seq ≡ 0
    pub root : g.prev_block_root ≡ none
    pub prev_tip : g.prev_chain_tip_hash ≡ none
    pub anchor : g.prev_anchor_hash ≡ none
    pub tip : compute_chain_tip_hash h none g.bundle_merkle_root ≡ some g.chain_tip_hash

  genesis_ok-IsGenesis : (g : AnchorRecord) → genesis_ok h c g ≡ some true → IsGenesis g
  unfolding genesis_ok
  genesis_ok-IsGenesis g e = record {
    height = ground arith;
    seq = ground arith;
    root = ground arith;
    prev_tip = ground arith;
    anchor = ground arith;
    tip = elim (Option-cases (compute_chain_tip_hash h none g.bundle_merkle_root)) [
      | inl thrown ↦ absurd (ground arith)
      | inr (t, q) ↦ q ∙ ap some (sym ((str_eq_iff g.chain_tip_hash t).0 (ground arith)))
    ];
  }

  IsGenesis-genesis_ok : (g : AnchorRecord) → IsGenesis g → genesis_ok h c g ≡ some true
  unfolding genesis_ok
  IsGenesis-genesis_ok g v = ground (
    arith,
    v.height,
    v.seq,
    v.root,
    v.prev_tip,
    v.anchor,
    v.tip,
    str_eq_iff g.chain_tip_hash g.chain_tip_hash,
  )

  -- The chain id that the auditor asks for, if any.
  abbrev pub Expects : Option String → String → Type 0
  Expects none id = Unit
  Expects (some e) id = id ≡ e

  -- An intact chain from its genesis anchor `g`, and its tip.
  pub record IsIntact (g : AnchorRecord) (rest : List AnchorRecord) (expected : Option String)
      (tip : String) : Type 0 where
    pub expects : Expects expected g.chain_id
    pub one_chain : All (λ a. a.chain_id ≡ g.chain_id) (g ∷ rest)
    pub genesis : IsGenesis g
    pub links : Links g rest
    pub tip_last : last_tip g rest ≡ tip

  Expects-iff :
      (expected : Option String) (id : String)
      → (expected_ok expected id ≡ true) ↔ Expects expected id
  Expects-iff none id = (λ e. tt, λ e. refl)
  Expects-iff (some e) id = str_eq_iff id e

  one_chain_all :
      (g : AnchorRecord) (chain : List AnchorRecord)
      → All (λ a. a.chain_id ≡ g.chain_id) chain
      → all (λ a. str_eq a.chain_id g.chain_id) chain ≡ true
  one_chain_all g = All-all _ (λ a. (str_eq_iff a.chain_id g.chain_id).1)

  verify_chain_parts :
      (g : AnchorRecord) (rest : List AnchorRecord) (expected : Option String) {tip : String}
      → verify_chain h c (g ∷ rest) expected ≡ some (true, some tip)
      → (expected_ok expected g.chain_id ≡ true)
        × (all (λ a. str_eq a.chain_id g.chain_id) (g ∷ rest) ≡ true)
        × (genesis_ok h c g ≡ some true)
        × (walk_links h c g rest ≡ some (some tip))
  unfolding verify_chain
  verify_chain_parts g rest expected e = (ground arith, ground arith, ground arith, ground arith)

  -- A chain of one or more anchors is found to be intact, with a tip, exactly if it is: one chain id
  -- throughout, the expected one if one is given, a genesis anchor with no predecessor, every other
  -- anchor linked to the one before it (height, range, previous root and tip, the folded tip, the
  -- hash of the previous anchor), and the tip that of the last anchor.
  pub verify_chain_iff :
      (g : AnchorRecord) (rest : List AnchorRecord) (expected : Option String) (tip : String)
      → (verify_chain h c (g ∷ rest) expected ≡ some (true, some tip))
        ↔ IsIntact g rest expected tip
  unfolding verify_chain
  verify_chain_iff g rest expected tip = (
    λ e.
        let (x, one, gen, walk) = verify_chain_parts g rest expected e in
        let (links, last) = walk_links-Links g rest walk in
        record {
          expects = (Expects-iff expected g.chain_id).0 x;
          one_chain = all-All _ (λ a. (str_eq_iff a.chain_id g.chain_id).0) (g ∷ rest) one;
          genesis = genesis_ok-IsGenesis g gen;
          links = links;
          tip_last = last;
        },
    λ v. ground (
      arith,
      (Expects-iff expected g.chain_id).1 v.expects,
      one_chain_all g (g ∷ rest) v.one_chain,
      IsGenesis-genesis_ok g v.genesis,
      Links-walk_links g rest v.links,
      v.tip_last,
    ),
  )
