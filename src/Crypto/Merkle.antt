-- ===== src/Crypto/Merkle.antt =====
-- public-record/src/crypto/merkle.ts: the root over an ordered list of leaf hashes, inclusion
-- proofs, and their check. `none` is a thrown exception; a loop runs on fuel, one unit a level.
pub mod Total
pub mod Complete
pub mod Inputs
mod Tree
pub mod Sound
mod Examples
use oursay.Base.{
  ℕ, zero, suc, ◌/◌, String, Bool, Option, none, some, List, [], ◌∷◌, ◌++◌, length, leb, str_eq,
  if◌then◌else◌, ◌>>=◌,
}
use oursay.Crypto.Hash.{Hasher, hash_leaf, hash_node}

pub data Side : Type 0 where
  left right : Side

-- A sibling hash and the side on which it stands.
pub record MerkleStep : Type 0 where
  pub hash : String
  pub side : Side

-- The sibling that the inner loop of `merkleProof` records for the node at `idx`: none where the
-- node is promoted. The index counts down here, two for each pair that is passed.
pub sibling : List String → ℕ → List MerkleStep
sibling (x ∷ y ∷ rest) zero = record { hash = y; side = right } ∷ []
sibling (x ∷ y ∷ rest) (suc zero) = record { hash = x; side = left } ∷ []
sibling (x ∷ y ∷ rest) (suc (suc idx)) = sibling rest idx
sibling _ idx = []

module _ (h : Hasher) where
  -- One pass of the inner loop: pairs are hashed, and an odd last node is promoted.
  unfoldable pub next_level : List String → Option (List String)
  next_level (x ∷ y ∷ rest) = do node ← hash_node h x y; more ← next_level rest; some (node ∷ more)
  next_level level = some level

  pub root_loop : ℕ → List String → Option String
  root_loop fuel [] = none
  root_loop fuel (x ∷ []) = some x
  root_loop zero (x ∷ y ∷ rest) = none
  root_loop (suc fuel) (x ∷ y ∷ rest) = do next ← next_level (x ∷ y ∷ rest); root_loop fuel next

  unfoldable pub merkle_root : List String → Option String
  unfolding root_loop
  merkle_root [] = some (hash_leaf h [])
  merkle_root (x ∷ rest) = root_loop (length (x ∷ rest)) (x ∷ rest)

  pub proof_loop : ℕ → List String → ℕ → Option (List MerkleStep)
  proof_loop zero (x ∷ y ∷ rest) idx = none
  proof_loop (suc fuel) (x ∷ y ∷ rest) idx = do
    next ← next_level (x ∷ y ∷ rest)
    more ← proof_loop fuel next (idx / 2)
    some (sibling (x ∷ y ∷ rest) idx ++ more)
  proof_loop fuel _ idx = some []

  unfoldable pub merkle_proof : List String → ℕ → Option (List MerkleStep)
  unfolding proof_loop
  merkle_proof leaves index =
      if leb (length leaves) index then none else proof_loop (length leaves) leaves index

  -- The running hash joined with a sibling on its side.
  unfoldable pub join : Side → String → String → Option String
  join left sib running = hash_node h sib running
  join right sib running = hash_node h running sib

  -- The value of `running` after the loop of `verifyMerkleProof`.
  pub fold_proof : String → List MerkleStep → Option String
  fold_proof running [] = some running
  fold_proof running (s ∷ proof) = do up ← join s.side s.hash running; fold_proof up proof

  unfoldable pub verify_merkle_proof : String → List MerkleStep → String → Option Bool
  unfolding fold_proof
  verify_merkle_proof leaf proof expected = do
    running ← fold_proof leaf proof
    some (str_eq running expected)
