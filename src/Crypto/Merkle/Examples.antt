-- ===== src/Crypto/Merkle/Examples.antt =====
-- Runs of crypto/merkle.ts over the toy hasher.
use oursay.Base.{◌≡◌, refl, ◌⊎◌, ℕ, String, true, some, List, [], ◌∷◌, map, get_elem?}
use oursay.Crypto.Hash.{Collides, Bytes, hash_leaf, hash_node}
use oursay.Crypto.Toy
use oursay.Crypto.Toy.{toy, toy-Lawful, zero_hex, one_hex}
use oursay.Crypto.Merkle.{
  MerkleStep, left, sibling, next_level, merkle_root, merkle_proof, verify_merkle_proof, join,
}
use oursay.Crypto.Merkle.Inputs.{check_inputs, root_inputs}
use oursay.Crypto.Merkle.Total.{IsHex, merkle_root-IsHex}
use oursay.Crypto.Merkle.Complete.{verify_merkle_proof-merkle_proof}
use oursay.Crypto.Merkle.Sound.{verify_merkle_proof_sound}

abbrev payloads : List Bytes
payloads = (1 ∷ []) ∷ (2 ∷ []) ∷ (4 ∷ []) ∷ []

abbrev leaves : List String
leaves = one_hex ∷ zero_hex ∷ zero_hex ∷ []

three_leaves : map (hash_leaf toy) payloads ≡ leaves
unfolding hash_leaf
three_leaves = refl

three_leaves_root : merkle_root toy leaves ≡ some one_hex
unfolding merkle_root next_level hash_node
three_leaves_root = refl

-- The last leaf is promoted at the first level.
last_proof : merkle_proof toy leaves 2 ≡ some (record { hash = zero_hex; side = left } ∷ [])
unfolding merkle_proof next_level hash_node sibling
last_proof = refl

merkle_root-IsHex_example : (root : String) × (merkle_root toy leaves ≡ some root) × IsHex toy root
merkle_root-IsHex_example =
    merkle_root-IsHex toy toy-Lawful leaves
      ((1 ∷ Toy.pad 31, refl), ((0 ∷ Toy.pad 31, refl), ((0 ∷ Toy.pad 31, refl), tt)))

verify_merkle_proof-merkle_proof_example :
    (p : List MerkleStep) × (merkle_proof toy leaves 2 ≡ some p)
    × (verify_merkle_proof toy zero_hex p one_hex ≡ some true)
verify_merkle_proof-merkle_proof_example =
    verify_merkle_proof-merkle_proof toy leaves 2 three_leaves_root refl

verify_merkle_proof_sound_example :
    ((i : ℕ) × (get_elem? payloads i ≡ some (4 ∷ [])))
    ⊎ Collides toy
        (check_inputs toy (4 ∷ []) (record { hash = zero_hex; side = left } ∷ []))
        (root_inputs toy payloads)
unfolding merkle_root next_level hash_node hash_leaf verify_merkle_proof join
verify_merkle_proof_sound_example =
    verify_merkle_proof_sound toy toy-Lawful (1 ∷ []) ((2 ∷ []) ∷ (4 ∷ []) ∷ []) (4 ∷ [])
      (record { hash = zero_hex; side = left } ∷ []) one_hex refl refl
