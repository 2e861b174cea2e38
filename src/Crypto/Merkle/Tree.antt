-- ===== src/Crypto/Merkle/Tree.antt =====
-- The texts that stand in the tree over a list of payloads, and that the root is one of them.
use oursay.Base.{
  ℕ, zero, suc, ◌≡◌, refl, inl, inr, String, none, some, List, [], ◌∷◌, ◌++◌, map, get_elem?, All,
  >>=-eq-some, some_inj,
}
use oursay.Crypto.Hash.{
  Hasher, Lawful, Bytes, IsInput, leaf_input, hash_leaf, hash_node, node_inputs,
}
use oursay.Crypto.Digest.{IsInput-left, IsInput-right, hash_node-eq-some, node_inputs-eq}
use oursay.Crypto.Merkle.{next_level, root_loop}
use oursay.Crypto.Merkle.Inputs.{level_inputs, tree_inputs}

module _ (h : Hasher) (law : Lawful h) (payloads inputs : List Bytes) where
  -- The texts that stand in the tree over the payloads, each the digest of one of the inputs.
  pub data IsNode : String → Type 0 where
    leaf :
        {s : String} (i : ℕ) (b : Bytes)
        → get_elem? payloads i ≡ some b
        → IsInput (0 ∷ b) inputs
        → s ≡ hash_leaf h b
        → IsNode s
    inner :
        {s : String} (l r : String) (bl br : Bytes)
        → IsNode l
        → IsNode r
        → h.hex_to_bytes l ≡ some bl
        → h.hex_to_bytes r ≡ some br
        → IsInput (1 ∷ (bl ++ br)) inputs
        → s ≡ h.bytes_to_hex (h.sha256 (1 ∷ (bl ++ br)))
        → IsNode s

  unfoldable pub AreInputs : List Bytes → Type 0
  AreInputs xs = (x : Bytes) → IsInput x xs → IsInput x inputs

  hash_node-IsNode :
      (l r : String) {s : String}
      → IsNode l
      → IsNode r
      → AreInputs (node_inputs h l r)
      → hash_node h l r ≡ some s
      → IsNode s
  unfolding AreInputs
  hash_node-IsNode l r nl nr known e =
      let (bl, br, p, q, u) = hash_node-eq-some h law l r e in
      let own : IsInput (1 ∷ (bl ++ br)) (node_inputs h l r) =
        rw (node_inputs-eq h law l r bl br p q) (inl refl) in
      inner l r bl br nl nr p q (known (1 ∷ (bl ++ br)) own) u

  next_level-IsNode :
      (level : List String) {next : List String}
      → All IsNode level
      → AreInputs (level_inputs h level)
      → next_level h level ≡ some next
      → All IsNode next
  unfolding next_level level_inputs AreInputs
  next_level-IsNode [] a known e = rw (← some_inj e) tt
  next_level-IsNode (x ∷ []) a known e = rw (← some_inj e) a
  next_level-IsNode (x ∷ y ∷ rest) a known e =
      let (node, p, e') = >>=-eq-some (hash_node h x y) _ e in
      let (more, q, e'') = >>=-eq-some (next_level h rest) _ e' in
      let own = node_inputs h x y in
      let others = level_inputs h rest in
      rw (← some_inj e'') (
        hash_node-IsNode x y a.0 a.1.0 (λ w i. known w (IsInput-left w own others i)) p,
        next_level-IsNode rest a.1.1 (λ w i. known w (IsInput-right w own others i)) q,
      )

  pub root_loop-IsNode :
      (fuel : ℕ) (level : List String) {root : String}
      → All IsNode level
      → AreInputs (tree_inputs h fuel level)
      → root_loop h fuel level ≡ some root
      → IsNode root
  unfolding root_loop tree_inputs AreInputs
  root_loop-IsNode fuel [] a known e = absurd (cc)
  root_loop-IsNode zero (x ∷ []) a known e = rw (← some_inj e) a.0
  root_loop-IsNode (suc fuel) (x ∷ []) a known e = rw (← some_inj e) a.0
  root_loop-IsNode zero (x ∷ y ∷ rest) a known e = absurd (cc)
  root_loop-IsNode (suc fuel) (x ∷ y ∷ rest) a known e =
      let level = x ∷ y ∷ rest in
      let (next, p, e') = >>=-eq-some (next_level h level) _ e in
      let above : List Bytes = elim (next_level h level) [
        | none ↦ []
        | some n ↦ tree_inputs h fuel n
      ] in
      let nodes =
        next_level-IsNode level a (λ w i. known w (IsInput-left w (level_inputs h level) above i))
          p in
      root_loop-IsNode fuel next nodes
        (λ w i.
          let here : IsInput w above = rw p i in
          known w (IsInput-right w (level_inputs h level) above here))
        e'

  pub leaves-IsNode :
      (bs : List Bytes)
      → ((i : ℕ) (b : Bytes) → get_elem? bs i ≡ some b → (j : ℕ) × (get_elem? payloads j ≡ some b))
      → AreInputs (map leaf_input bs)
      → All IsNode (map (hash_leaf h) bs)
  unfolding AreInputs
  leaves-IsNode [] f known = tt
  leaves-IsNode (b ∷ bs) f known =
      let (j, g) = f 0 b refl in
      (
        leaf j b g (known (0 ∷ b) (inl refl)) refl,
        leaves-IsNode bs (λ i. f (suc i)) (λ w i. known w (inr i)),
      )
