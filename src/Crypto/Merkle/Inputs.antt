-- ===== src/Crypto/Merkle/Inputs.antt =====
-- What `merkleRoot` and `verifyMerkleProof` give to the hash function.
use oursay.Base.{ℕ, zero, suc, String, none, some, List, [], ◌∷◌, ◌++◌, length, map}
use oursay.Crypto.Hash.{Hasher, Bytes, leaf_input, hash_leaf, node_inputs}
use oursay.Crypto.Merkle.{Side, MerkleStep, left, right, next_level, join}

module _ (h : Hasher) where
  -- In one pass of the inner loop of `merkleRoot`.
  unfoldable pub level_inputs : List String → List Bytes
  level_inputs (x ∷ y ∷ rest) = node_inputs h x y ++ level_inputs rest
  level_inputs level = []

  -- In the levels from this one on.
  unfoldable pub tree_inputs : ℕ → List String → List Bytes
  tree_inputs zero level = []
  tree_inputs (suc fuel) level =
      level_inputs level
      ++ elim (next_level h level) [ none ↦ [] | some next ↦ tree_inputs fuel next ]

  -- For the root over payloads, their leaf hashes included.
  unfoldable pub root_inputs : List Bytes → List Bytes
  root_inputs payloads =
      map leaf_input payloads
      ++ tree_inputs (length (map (hash_leaf h) payloads)) (map (hash_leaf h) payloads)

  unfoldable pub step_inputs : Side → String → String → List Bytes
  step_inputs left sib running = node_inputs h sib running
  step_inputs right sib running = node_inputs h running sib

  -- In the loop of `verifyMerkleProof`.
  unfoldable pub proof_inputs : String → List MerkleStep → List Bytes
  proof_inputs running [] = []
  proof_inputs running (s ∷ proof) =
      step_inputs s.side s.hash running
      ++ elim (join h s.side s.hash running) [ none ↦ [] | some up ↦ proof_inputs up proof ]

  -- For the check of a payload: its leaf hash and the loop.
  unfoldable pub check_inputs : Bytes → List MerkleStep → List Bytes
  check_inputs payload proof = (0 ∷ payload) ∷ proof_inputs (hash_leaf h payload) proof
