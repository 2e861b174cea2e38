-- ===== src/Crypto/Merkle/Complete.antt =====
-- A proof that `merkleProof` builds is accepted by `verifyMerkleProof`, for every leaf.
use oursay.Base.{
  ℕ, zero, suc, ◌/◌, ◌<◌, ◌≡◌, refl, ap, false, String, true, Option, some, List, [], ◌∷◌, ◌++◌,
  length, get_elem?, arith, ◌>>=◌, Option-cases, inl, inr, str_eq_iff, >>=-eq-some, get_elem?-lt,
  leb,
}
use oursay.Crypto.Hash.{Hasher, hash_node}
use oursay.Crypto.Merkle.{
  MerkleStep, sibling, next_level, root_loop, merkle_root, proof_loop, merkle_proof, join,
  fold_proof, verify_merkle_proof,
}

half_suc-suc : (n : ℕ) → suc (suc n) / 2 ≡ suc (n / 2)
half_suc-suc n = omega arith

module _ (h : Hasher) where
  fold_proof-append :
      (p q : List MerkleStep) (x : String)
      → fold_proof h x (p ++ q) ≡ (fold_proof h x p >>= λ y. fold_proof h y q)
  unfolding fold_proof
  fold_proof-append [] q x = refl
  fold_proof-append (s ∷ p) q x = elim (Option-cases (join h s.side s.hash x)) [
    | inl e ↦ rw e refl
    | inr (up, e) ↦ rw e (fold_proof-append p q up)
  ]

  next_level-pair :
      (a b : String) (rest : List String) {next : List String}
      → next_level h (a ∷ b ∷ rest) ≡ some next
      → (node : String) × (more : List String) × (hash_node h a b ≡ some node)
        × (next_level h rest ≡ some more)
        × (next ≡ node ∷ more)
  unfolding next_level
  next_level-pair a b rest e =
      let (node, p, e') = >>=-eq-some (hash_node h a b) _ e in
      let (more, q, e'') = >>=-eq-some (next_level h rest) _ e' in (node, more, p, q, cc)

  -- The step recorded at one level leads from a node to its parent in the next.
  climb :
      (level : List String) (idx : ℕ) {next : List String} {x : String}
      → next_level h level ≡ some next
      → get_elem? level idx ≡ some x
      → (y : String) × (get_elem? next (idx / 2) ≡ some y)
        × (fold_proof h x (sibling level idx) ≡ some y)
  unfolding next_level sibling fold_proof join
  climb [] idx e g = absurd (cc)
  climb (w ∷ []) zero e g = (w, ground arith, ground arith)
  climb (w ∷ []) (suc idx) e g = absurd (cc)
  climb (a ∷ b ∷ rest) zero e g =
      let (node, more, p, q, n) = next_level-pair a b rest e in (node, ground arith, ground arith)
  climb (a ∷ b ∷ rest) (suc zero) e g =
      let (node, more, p, q, n) = next_level-pair a b rest e in (node, ground arith, ground arith)
  climb (a ∷ b ∷ rest) (suc (suc idx)) e g =
      let (node, more, p, q, n) = next_level-pair a b rest e in
      let (y, gy, fy) = climb rest idx q g in (y, rw (half_suc-suc idx, n) gy, fy)

  last_node :
      (fuel : ℕ) (w : String) (idx : ℕ) {x root : String}
      → some w ≡ some root
      → get_elem? (w ∷ []) idx ≡ some x
      → (p : List MerkleStep) × (◌≡◌ {A = Option (List MerkleStep)} (some []) (some p))
        × (fold_proof h x p ≡ some root)
  unfolding fold_proof
  last_node fuel w zero e g = ([], refl, ground arith)
  last_node fuel w (suc idx) e g = absurd (cc)

  in_range : (n i : ℕ) → i < n → leb n i ≡ false
  in_range n i l = ground arith

  proof_loop_reaches :
      (fuel : ℕ) (level : List String) (idx : ℕ) {x root : String}
      → root_loop h fuel level ≡ some root
      → get_elem? level idx ≡ some x
      → (p : List MerkleStep) × (proof_loop h fuel level idx ≡ some p)
        × (fold_proof h x p ≡ some root)
  unfolding root_loop proof_loop
  proof_loop_reaches fuel [] idx e g = absurd (cc)
  proof_loop_reaches zero (w ∷ []) idx e g = last_node zero w idx e g
  proof_loop_reaches (suc fuel) (w ∷ []) idx e g = last_node (suc fuel) w idx e g
  proof_loop_reaches zero (a ∷ b ∷ rest) idx e g = absurd (cc)
  proof_loop_reaches (suc fuel) (a ∷ b ∷ rest) idx {x = x} e g =
      let (next, n, e') = >>=-eq-some (next_level h (a ∷ b ∷ rest)) _ e in
      let (y, gy, fy) = climb (a ∷ b ∷ rest) idx n g in
      let (p, lp, fp) = proof_loop_reaches fuel next (idx / 2) e' gy in
      (sibling (a ∷ b ∷ rest) idx ++ p, rw (n, lp) refl, rw (fold_proof-append, fy) fp)

  -- Wherever there is a root, `merkleProof` answers at every index of a leaf, and its proof is
  -- accepted for that leaf.
  pub verify_merkle_proof-merkle_proof :
      (leaves : List String) (index : ℕ) {x root : String}
      → merkle_root h leaves ≡ some root
      → get_elem? leaves index ≡ some x
      → (p : List MerkleStep) × (merkle_proof h leaves index ≡ some p)
        × (verify_merkle_proof h x p root ≡ some true)
  unfolding merkle_root merkle_proof verify_merkle_proof
  verify_merkle_proof-merkle_proof [] index e g = absurd (cc)
  verify_merkle_proof-merkle_proof (a ∷ rest) index e g =
      let (p, lp, fp) = proof_loop_reaches (suc (length rest)) (a ∷ rest) index e g in
      (
        p,
        rw (in_range _ index (get_elem?-lt (a ∷ rest) index g)) lp,
        rw fp (ap some ((str_eq_iff _ _).1 refl)),
      )
