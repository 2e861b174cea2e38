-- ===== src/Crypto/Digest.antt =====
-- Digests as texts: when two of them are one, and what the preimages have to do with it.
use native.Mathlib.Decide.{ℕ_discrete}
use oursay.Base.{
  ◌≡◌, refl, sym, ap, ◌∙◌, ◌⊎◌, inl, inr, String, some, List, [], ◌∷◌, ◌++◌, length, arith,
  >>=-eq-some, length-append, some_inj,
}
use oursay.Crypto.Hash.{
  Hasher, Lawful, Collision, IsInput, Collides, Bytes, hash_leaf, hash_node, node_inputs,
}

pub Bytes-discrete : Discrete Bytes
Bytes-discrete = hlevel ℕ_discrete

pub append_cancel_left : (u v x y : Bytes) → length u ≡ length v → u ++ x ≡ v ++ y → u ≡ v
append_cancel_left [] [] x y n e = refl
append_cancel_left [] (b ∷ v) x y n e = absurd (omega arith)
append_cancel_left (a ∷ u) [] x y n e = absurd (omega arith)
append_cancel_left (a ∷ u) (b ∷ v) x y n e =
    ground (arith, append_cancel_left u v x y (omega arith) (cc))

pub append_cancel_right : (u v x y : Bytes) → length x ≡ length y → u ++ x ≡ v ++ y → x ≡ y
append_cancel_right [] [] x y n e = e
append_cancel_right [] (b ∷ v) x y n e =
    absurd (omega (arith, ap length e, length-append (b ∷ v) y))
append_cancel_right (a ∷ u) [] x y n e =
    absurd (omega (arith, ap length e, length-append (a ∷ u) x))
append_cancel_right (a ∷ u) (b ∷ v) x y n e = append_cancel_right u v x y n (cc)

pub IsInput-left : (x : Bytes) (xs ys : List Bytes) → IsInput x xs → IsInput x (xs ++ ys)
IsInput-left x [] ys i = absurd i
IsInput-left x (z ∷ xs) ys (inl e) = inl e
IsInput-left x (z ∷ xs) ys (inr i) = inr (IsInput-left x xs ys i)

pub IsInput-right : (x : Bytes) (xs ys : List Bytes) → IsInput x ys → IsInput x (xs ++ ys)
IsInput-right x [] ys i = i
IsInput-right x (z ∷ xs) ys i = inr (IsInput-right x xs ys i)

-- A collision stands, when more inputs are looked at.
pub Collides-mono :
    (h : Hasher) (xs xs' ys ys' : List Bytes)
    → ((x : Bytes) → IsInput x xs → IsInput x xs')
    → ((y : Bytes) → IsInput y ys → IsInput y ys')
    → Collides h xs ys
    → Collides h xs' ys'
Collides-mono h xs xs' ys ys' f g (x, y, i, j, c) = (x, y, f x i, g y j, c)

-- The text of a digest.
abbrev pub IsDigest : Hasher → String → Type 0
IsDigest h s = (w : Bytes) × (s ≡ h.bytes_to_hex (h.sha256 w))

module _ (h : Hasher) (law : Lawful h) where
  -- Digests are read back from their texts.
  pub digest_inj :
      (v w : Bytes)
      → h.bytes_to_hex (h.sha256 v) ≡ h.bytes_to_hex (h.sha256 w)
      → h.sha256 v ≡ h.sha256 w
  digest_inj v w e = some_inj (sym (law.hex_digest v) ∙ ap h.hex_to_bytes e ∙ law.hex_digest w)

  -- Two preimages of one digest are one, or collide.
  pub same_or_Collision :
      (v w : Bytes)
      → h.bytes_to_hex (h.sha256 v) ≡ h.bytes_to_hex (h.sha256 w)
      → (v ≡ w) ⊎ Collision h v w
  same_or_Collision v w e = elim (Bytes-discrete v w) [
    | yes p ↦ inl p
    | no p ↦ inr (p, digest_inj v w e)
  ]

  pub digest_bytes :
      {s : String} {b : Bytes}
      → IsDigest h s
      → h.hex_to_bytes s ≡ some b
      → (s ≡ h.bytes_to_hex b) × (length b ≡ 32)
  digest_bytes (w, e) p =
      let same = some_inj (sym (law.hex_digest w) ∙ ap h.hex_to_bytes (sym e) ∙ p) in
      (rw (← same) e, rw (← same) (law.digest_length w))

  pub same_text :
      {s r : String} {bs br : Bytes}
      → IsDigest h s
      → h.hex_to_bytes s ≡ some bs
      → IsDigest h r
      → h.hex_to_bytes r ≡ some br
      → bs ≡ br
      → s ≡ r
  same_text ds p dr q e = (digest_bytes ds p).0 ∙ ap h.bytes_to_hex e ∙ sym (digest_bytes dr q).0

  pub leaf_not_inner : (b c : Bytes) → ◌≡◌ {A = Bytes} (0 ∷ b) (1 ∷ c) → ⊥
  leaf_not_inner b c e = grind arith

  pub hash_node-eq-some :
      (l r : String) {s : String}
      → hash_node h l r ≡ some s
      → (bl : Bytes) × (br : Bytes) × (h.hex_to_bytes l ≡ some bl)
        × (h.hex_to_bytes r ≡ some br)
        × (s ≡ h.bytes_to_hex (h.sha256 (1 ∷ (bl ++ br))))
  unfolding hash_node
  hash_node-eq-some l r e =
      let (bl, p, e') = >>=-eq-some (h.hex_to_bytes l) _ e in
      let (br, q, e'') = >>=-eq-some (h.hex_to_bytes r) _ e' in (bl, br, p, q, sym (some_inj e''))

  pub hash_node-IsDigest : (l r : String) {s : String} → hash_node h l r ≡ some s → IsDigest h s
  hash_node-IsDigest l r e = let (bl, br, p, q, u) = hash_node-eq-some l r e in (1 ∷ (bl ++ br), u)

  pub hash_leaf-IsDigest : (b : Bytes) → IsDigest h (hash_leaf h b)
  unfolding hash_leaf
  hash_leaf-IsDigest b = (0 ∷ b, refl)

  pub node_inputs-eq :
      (l r : String) (bl br : Bytes)
      → h.hex_to_bytes l ≡ some bl
      → h.hex_to_bytes r ≡ some br
      → node_inputs h l r ≡ (1 ∷ (bl ++ br)) ∷ []
  unfolding node_inputs
  node_inputs-eq l r bl br p q = rw (p, q, node_inputs) refl
