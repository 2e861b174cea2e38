-- ===== src/Crypto/Merkle/Sound.antt =====
-- An accepted proof shows that the payload is one of the leaves, unless an input that the check
-- hashes collides with one that was hashed for the root. The leaf prefix and the node prefix keep
-- leaves and inner nodes apart.
use oursay.Base.{
  ℕ, ◌≡◌, refl, sym, ap, ◌∙◌, ◌⊎◌, inl, inr, String, true, none, some, List, [], ◌∷◌, ◌++◌, length,
  map, get_elem?, >>=-eq-some, str_eq_iff, some_inj,
}
use oursay.Crypto.Hash.{
  Hasher, Lawful, Collides, Bytes, leaf_input, hash_leaf, hash_node, node_inputs,
}
use oursay.Crypto.Merkle.{
  Side, MerkleStep, left, right, merkle_root, join, fold_proof, verify_merkle_proof,
}
use oursay.Crypto.Merkle.Inputs.{tree_inputs, root_inputs, step_inputs, proof_inputs, check_inputs}
use oursay.Crypto.Digest.{
  IsDigest, append_cancel_left, append_cancel_right, same_or_Collision, digest_bytes, same_text,
  leaf_not_inner, hash_node-eq-some, hash_node-IsDigest, hash_leaf-IsDigest, IsInput-left,
  IsInput-right, Collides-mono, node_inputs-eq,
}
use oursay.Crypto.Merkle.Tree.{IsNode, leaf, inner, AreInputs, root_loop-IsNode, leaves-IsNode}

module _ (h : Hasher) (law : Lawful h) (payloads inputs : List Bytes) where
  IsNode-IsDigest : {s : String} → IsNode h law payloads inputs s → IsDigest h s
  unfolding hash_leaf
  IsNode-IsDigest (leaf i b g k e) = (0 ∷ b, e)
  IsNode-IsDigest (inner l r bl br nl nr p q k e) = (1 ∷ (bl ++ br), e)

  -- A node of the tree that is the digest of `1 ∷ body` has children with that body.
  record Children (body : Bytes) : Type 0 where
    l : String
    r : String
    bl : Bytes
    br : Bytes
    left_node : IsNode h law payloads inputs l
    right_node : IsNode h law payloads inputs r
    left_bytes : h.hex_to_bytes l ≡ some bl
    right_bytes : h.hex_to_bytes r ≡ some br
    same_body : body ≡ bl ++ br

  children :
      (body : Bytes) {up : String}
      → up ≡ h.bytes_to_hex (h.sha256 (1 ∷ body))
      → IsNode h law payloads inputs up
      → Children body ⊎ Collides h ((1 ∷ body) ∷ []) inputs
  unfolding hash_leaf
  children body u (leaf i b g k f) = elim (same_or_Collision h law (1 ∷ body) (0 ∷ b) (sym u ∙ f)) [
    | inl same ↦ absurd (leaf_not_inner h law _ _ (sym same))
    | inr c ↦ inr (1 ∷ body, 0 ∷ b, inl refl, k, c)
  ]
  children body u (inner l r bl br nl nr p q k f) =
      elim (same_or_Collision h law (1 ∷ body) (1 ∷ (bl ++ br)) (sym u ∙ f)) [
        | inl same ↦ inl (record {
          l = l;
          r = r;
          bl = bl;
          br = br;
          left_node = nl;
          right_node = nr;
          left_bytes = p;
          right_bytes = q;
          same_body = cc;
        })
        | inr c ↦ inr (1 ∷ body, 1 ∷ (bl ++ br), inl refl, k, c)
      ]

  -- A node over a digest that stands in the tree has the digest as a child.
  descend_left :
      (sib s : String) {up : String}
      → hash_node h sib s ≡ some up
      → IsDigest h s
      → IsNode h law payloads inputs up
      → IsNode h law payloads inputs s ⊎ Collides h (node_inputs h sib s) inputs
  descend_left sib s e d n =
      let (x, y, p, q, u) = hash_node-eq-some h law sib s e in
      elim (children (x ++ y) u n) [
        | inl c ↦
            let dr = IsNode-IsDigest c.right_node in
            let same_length =
              (digest_bytes h law d q).1 ∙ sym (digest_bytes h law dr c.right_bytes).1 in
            let same = append_cancel_right x c.bl y c.br same_length c.same_body in
            inl (rw (same_text h law d q dr c.right_bytes same) c.right_node)
        | inr c ↦ inr (rw (node_inputs-eq h law sib s x y p q) c)
      ]

  descend_right :
      (s sib : String) {up : String}
      → hash_node h s sib ≡ some up
      → IsDigest h s
      → IsNode h law payloads inputs up
      → IsNode h law payloads inputs s ⊎ Collides h (node_inputs h s sib) inputs
  descend_right s sib e d n =
      let (x, y, p, q, u) = hash_node-eq-some h law s sib e in
      elim (children (x ++ y) u n) [
        | inl c ↦
            let dl = IsNode-IsDigest c.left_node in
            let same_length =
              (digest_bytes h law d p).1 ∙ sym (digest_bytes h law dl c.left_bytes).1 in
            let same = append_cancel_left x c.bl y c.br same_length c.same_body in
            inl (rw (same_text h law d p dl c.left_bytes same) c.left_node)
        | inr c ↦ inr (rw (node_inputs-eq h law s sib x y p q) c)
      ]

  descend :
      (side : Side) (sib s : String) {up : String}
      → join h side sib s ≡ some up
      → IsDigest h s
      → IsNode h law payloads inputs up
      → IsNode h law payloads inputs s ⊎ Collides h (step_inputs h side sib s) inputs
  unfolding join step_inputs
  descend left sib s e d n = descend_left sib s e d n
  descend right sib s e d n = descend_right s sib e d n

  join-IsDigest :
      (side : Side) (sib s : String) {up : String} → join h side sib s ≡ some up → IsDigest h up
  unfolding join
  join-IsDigest left sib s e = hash_node-IsDigest h law sib s e
  join-IsDigest right sib s e = hash_node-IsDigest h law s sib e

  fold_proof-IsNode :
      (proof : List MerkleStep) (s : String) {root : String}
      → IsDigest h s
      → fold_proof h s proof ≡ some root
      → IsNode h law payloads inputs root
      → IsNode h law payloads inputs s ⊎ Collides h (proof_inputs h s proof) inputs
  unfolding fold_proof proof_inputs
  fold_proof-IsNode [] s d e n = inl (rw (some_inj e) n)
  fold_proof-IsNode (st ∷ proof) s d e n =
      let (up, j, e') = >>=-eq-some (join h st.side st.hash s) _ e in
      let step = step_inputs h st.side st.hash s in
      let above : List Bytes = elim (join h st.side st.hash s) [
        | none ↦ []
        | some u ↦ proof_inputs h u proof
      ] in
      elim (fold_proof-IsNode proof up (join-IsDigest st.side st.hash s j) e' n) [
        | inl m ↦ elim (descend st.side st.hash s j d m) [
          | inl node ↦ inl node
          | inr c ↦ inr (
              Collides-mono h step (step ++ above) inputs inputs
                (λ x i. IsInput-left x step above i) (λ y i. i) c)
        ]
        | inr c ↦
            let later : Collides h above inputs = rw j c in
            inr (
              Collides-mono h above (step ++ above) inputs inputs
                (λ x i. IsInput-right x step above i) (λ y i. i) later)
      ]

  leaf_of_node :
      (b : Bytes) {s : String}
      → s ≡ hash_leaf h b
      → IsNode h law payloads inputs s
      → ((i : ℕ) × (get_elem? payloads i ≡ some b)) ⊎ Collides h ((0 ∷ b) ∷ []) inputs
  unfolding hash_leaf
  leaf_of_node b u (leaf i c g k f) = elim (same_or_Collision h law (0 ∷ b) (0 ∷ c) (sym u ∙ f)) [
    | inl same ↦ inl (i, g ∙ ap some (cc))
    | inr col ↦ inr (0 ∷ b, 0 ∷ c, inl refl, k, col)
  ]
  leaf_of_node b u (inner l r bl br nl nr p q k f) =
      elim (same_or_Collision h law (0 ∷ b) (1 ∷ (bl ++ br)) (sym u ∙ f)) [
        | inl same ↦ absurd (leaf_not_inner h law _ _ same)
        | inr col ↦ inr (0 ∷ b, 1 ∷ (bl ++ br), inl refl, k, col)
      ]

-- If a proof is accepted for the leaf hash of a payload, against the root over one or more payloads,
-- then the payload is one of them; or one of the inputs that the check hashes collides with one of
-- the inputs that were hashed for the root. The proof is arbitrary: it need not come from
-- `merkleProof`.
pub verify_merkle_proof_sound :
    (h : Hasher) (law : Lawful h) (first : Bytes) (others : List Bytes) (payload : Bytes)
    (proof : List MerkleStep) (root : String)
    → merkle_root h (map (hash_leaf h) (first ∷ others)) ≡ some root
    → verify_merkle_proof h (hash_leaf h payload) proof root ≡ some true
    → ((i : ℕ) × (get_elem? (first ∷ others) i ≡ some payload))
      ⊎ Collides h (check_inputs h payload proof) (root_inputs h (first ∷ others))
unfolding merkle_root verify_merkle_proof root_inputs check_inputs AreInputs
verify_merkle_proof_sound h law first others payload proof root e v =
    let bs = first ∷ others in
    let leaves = map (hash_leaf h) bs in
    let own = map leaf_input bs in
    let above = tree_inputs h (length leaves) leaves in
    let inputs = own ++ above in
    let (r, f, t) = >>=-eq-some (fold_proof h (hash_leaf h payload) proof) _ v in
    let same = (str_eq_iff r root).0 (some_inj t) in
    let nodes =
      leaves-IsNode h law bs inputs bs (λ i b g. (i, g)) (λ w i. IsInput-left w own above i) in
    let node =
      root_loop-IsNode h law bs inputs (length leaves) leaves nodes
        (λ w i. IsInput-right w own above i) e in
    let checked = proof_inputs h (hash_leaf h payload) proof in
    elim (fold_proof-IsNode h law bs inputs proof (hash_leaf h payload)
      (hash_leaf-IsDigest h law payload) f (rw same node)) [
        | inr c ↦ inr (
            Collides-mono h checked ((0 ∷ payload) ∷ checked) inputs inputs (λ x i. inr i)
              (λ y i. i) c)
        | inl n ↦ elim (leaf_of_node h law bs inputs payload refl n) [
          | inl found ↦ inl found
          | inr c ↦ inr (
              Collides-mono h ((0 ∷ payload) ∷ []) ((0 ∷ payload) ∷ checked) inputs inputs
                (λ x i. IsInput-left x ((0 ∷ payload) ∷ []) checked i) (λ y i. i) c)
        ]
      ]
