-- ===== src/Crypto/Hash.antt =====
-- The functions that public-record/src/crypto takes from `@noble/hashes` and the platform, as an
-- interface, and `sha256Hex`, `hashLeaf` and `hashNode` over it.
use oursay.Base.{
  ℕ, ◌≡◌, ◌≢◌, ◌⊎◌, [], none, String, Option, some, List, ◌∷◌, ◌++◌, length, ◌>>=◌, text_length,
  ◌+◌,
}

abbrev pub Bytes : Type 0
Bytes = List ℕ

-- `hexToBytes` throws on a text that is not hexadecimal.
pub record Hasher : Type 0 where
  pub sha256 : Bytes → Bytes
  pub bytes_to_hex : Bytes → String
  pub hex_to_bytes : String → Option Bytes
  pub utf8 : String → Bytes

-- What the documentation of the libraries says of them: a digest has 32 bytes, `hexToBytes` undoes
-- `bytesToHex` and reads two digits a byte, and `TextEncoder` loses nothing.
pub record Lawful (h : Hasher) : Type 0 where
  pub digest_length : (b : Bytes) → length (h.sha256 b) ≡ 32
  pub hex_digest : (b : Bytes) → h.hex_to_bytes (h.bytes_to_hex (h.sha256 b)) ≡ some (h.sha256 b)
  pub hex_length :
      (s : String) (b : Bytes) → h.hex_to_bytes s ≡ some b → text_length s ≡ length b + length b
  pub utf8_injective : (s t : String) → h.utf8 s ≡ h.utf8 t → s ≡ t

-- Two inputs of the hash function that differ and have one digest.
abbrev pub Collision : Hasher → Bytes → Bytes → Type 0
Collision h x y = (x ≢ y) × (h.sha256 x ≡ h.sha256 y)

-- An input of a list of inputs.
abbrev pub IsInput : Bytes → List Bytes → Type 0
IsInput x [] = ⊥
IsInput x (y ∷ ys) = (x ≡ y) ⊎ IsInput x ys

-- An input of one list collides with an input of the other.
abbrev pub Collides : Hasher → List Bytes → List Bytes → Type 0
Collides h xs ys = (x : Bytes) × (y : Bytes) × IsInput x xs × IsInput y ys × Collision h x y

-- What `hashLeaf` gives to the hash function.
abbrev pub leaf_input : Bytes → Bytes
leaf_input bytes = 0 ∷ bytes

module _ (h : Hasher) where
  -- `sha256Hex` of a text and of bytes.
  unfoldable pub sha256_hex : Bytes → String
  sha256_hex bytes = h.bytes_to_hex (h.sha256 bytes)

  -- `hashLeaf`; a text is first encoded.
  unfoldable pub hash_leaf : Bytes → String
  hash_leaf bytes = h.bytes_to_hex (h.sha256 (0 ∷ bytes))

  unfoldable pub hash_node : String → String → Option String
  hash_node left_hex right_hex = do
    l ← h.hex_to_bytes left_hex
    r ← h.hex_to_bytes right_hex
    some (h.bytes_to_hex (h.sha256 (1 ∷ (l ++ r))))

  -- What `hashNode` gives to the hash function: nothing, where it throws first.
  unfoldable pub node_inputs : String → String → List Bytes
  node_inputs left_hex right_hex = elim (h.hex_to_bytes left_hex) [
    | none ↦ []
    | some l ↦ elim (h.hex_to_bytes right_hex) [ none ↦ [] | some r ↦ (1 ∷ (l ++ r)) ∷ [] ]
  ]
