-- ===== src/Crypto/Merkle/Total.antt =====
-- The loops of crypto/merkle.ts end: over hexadecimal leaves there is a root.
use oursay.Base.{
  ℕ, zero, suc, ◌+◌, ◌≤◌, ◌≡◌, refl, String, some, List, [], ◌∷◌, ◌++◌, length, All, arith,
  Option-cases, inl, inr,
}
use oursay.Crypto.Hash.{Hasher, Lawful, Bytes, hash_leaf, hash_node}
use oursay.Crypto.Merkle.{next_level, root_loop, merkle_root}

module _ (h : Hasher) where
  -- A text that `hexToBytes` reads.
  abbrev pub IsHex : String → Type 0
  IsHex s = (b : Bytes) × (h.hex_to_bytes s ≡ some b)

  pub length-next_level :
      (level : List String) {next : List String}
      → next_level h level ≡ some next
      → length next + length next ≤ length level + 1
  unfolding next_level
  length-next_level [] e = ground arith
  length-next_level (x ∷ []) e = ground arith
  length-next_level (x ∷ y ∷ rest) e = elim (Option-cases (hash_node h x y)) [
    | inl f ↦ ground arith
    | inr (node, p) ↦ elim (Option-cases (next_level h rest)) [
      | inl f ↦ ground arith
      | inr (more, q) ↦ ground (arith, length-next_level rest q)
    ]
  ]

module _ (h : Hasher) (law : Lawful h) where
  pub hash_node-IsHex :
      (l r : String) → IsHex h l → IsHex h r → (s : String) × (hash_node h l r ≡ some s) × IsHex h s
  unfolding hash_node
  hash_node-IsHex l r (bl, el) (br, er) = (
    h.bytes_to_hex (h.sha256 (1 ∷ (bl ++ br))),
    rw (el, er) refl,
    (h.sha256 (1 ∷ (bl ++ br)), law.hex_digest _),
  )

  pub next_level-IsHex :
      (x : String) (rest : List String)
      → All (IsHex h) (x ∷ rest)
      → (z : String) × (zs : List String) × (next_level h (x ∷ rest) ≡ some (z ∷ zs))
        × All (IsHex h) (z ∷ zs)
  unfolding next_level
  next_level-IsHex x [] a = (x, [], refl, a)
  next_level-IsHex x (y ∷ []) a =
      let (node, p, hex) = hash_node-IsHex x y a.0 a.1.0 in (node, [], rw p refl, (hex, tt))
  next_level-IsHex x (y ∷ w ∷ rest) a =
      let (node, p, hex) = hash_node-IsHex x y a.0 a.1.0 in
      let (z, zs, q, all) = next_level-IsHex w rest a.1.1 in
      (node, z ∷ zs, rw (p, q) refl, (hex, all))

  root_loop-IsHex :
      (fuel : ℕ) (x : String) (rest : List String)
      → length rest ≤ fuel
      → All (IsHex h) (x ∷ rest)
      → (root : String) × (root_loop h fuel (x ∷ rest) ≡ some root) × IsHex h root
  unfolding root_loop
  root_loop-IsHex fuel x [] n a = (x, refl, a.0)
  root_loop-IsHex zero x (y ∷ rest) n a = absurd (omega arith)
  root_loop-IsHex (suc fuel) x (y ∷ rest) n a =
      let (z, zs, q, all) = next_level-IsHex x (y ∷ rest) a in
      let shorter = length-next_level h (x ∷ y ∷ rest) q in
      let (root, p, hex) = root_loop-IsHex fuel z zs (omega arith) all in (root, rw q p, hex)

  -- Every list of hexadecimal leaves has a root, and the root is hexadecimal: the loop ends within
  -- one round for each leaf, and no call of it throws.
  pub merkle_root-IsHex :
      (leaves : List String)
      → All (IsHex h) leaves
      → (root : String) × (merkle_root h leaves ≡ some root) × IsHex h root
  unfolding merkle_root hash_leaf
  merkle_root-IsHex [] a = (hash_leaf h [], refl, (h.sha256 (0 ∷ []), law.hex_digest _))
  merkle_root-IsHex (x ∷ rest) a = root_loop-IsHex (suc (length rest)) x rest (omega arith) a
