-- ===== src/Crypto/Canonical/Binding.antt =====
-- A content commitment binds its identifier, its salt and its content: sorting the keys loses no
-- member, and equal digests have equal preimages, or the two preimages collide.
use mathlib.Core.Option
use oursay.Base.{
  ◌≡◌, ◌⊎◌, inl, inr, refl, sym, ap, ◌∙◌, String, none, some, arith, str_eq, str_eq_iff,
  if◌then◌else◌, Bool-cases, some_inj,
}
use oursay.Crypto.Hash.{Hasher, Lawful, Collision, Bytes, sha256_hex}
use oursay.Crypto.Digest.{same_or_Collision}
use oursay.Crypto.Canonical.{
  Json, str, obj, Members, close, member, get_member, Codec, insert_member, sort_deep, sort_members,
  canonical_hash, content_commitment,
}

-- No key stands twice, as in every object of the source language.
abbrev pub Distinct : Members → Type 0
Distinct close = Unit
Distinct (member k v rest) = (get_member k rest ≡ none) × Distinct rest

module _ (c : Codec) where
  pub get_member-insert_member :
      (k j : String) (v : Json) (ms : Members)
      → get_member j ms ≡ none
      → get_member k (insert_member c j v ms) ≡ (if str_eq j k then some v else get_member k ms)
  unfolding insert_member
  get_member-insert_member k j v close e = refl
  get_member-insert_member k j v (member i w rest) e =
      ground
        (arith, get_member-insert_member k j v rest, str_eq_iff i j, str_eq_iff i k, str_eq_iff j k)

  -- Sorting keeps what every key is bound to.
  pub get_member-sort_members :
      (k : String) (ms : Members)
      → Distinct ms
      → get_member k (sort_members c ms) ≡ Option.map (sort_deep c) (get_member k ms)
  unfolding sort_deep
  get_member-sort_members k close d = refl
  get_member-sort_members k (member j v rest) d =
      let ih = get_member-sort_members k rest d.1 in
      let absent = get_member-sort_members j rest d.1 ∙ ap (Option.map (sort_deep c)) d.0 in
      get_member-insert_member k j (sort_deep c v) (sort_members c rest) absent
      ∙ elim (Bool-cases (str_eq j k)) [ inl e ↦ rw e refl | inr e ↦ rw e ih ]

-- Two JSON values with one text are one value.
pub record CodecLawful (c : Codec) : Type 0 where
  pub stringify_injective : (a b : Json) → c.stringify a ≡ c.stringify b → a ≡ b

-- The members of an object; of another value, none.
abbrev members_of : Json → Members
members_of (obj ms) = ms
members_of _ = close

-- The object that `contentCommitment` hashes.
abbrev envelope_of : String → String → Json → Members
envelope_of id salt content =
    member "ds" (str "oursay/v1/content")
      (member "id" (str id) (member "salt" (str salt) (member "content" content close)))

envelope_of-Distinct : (id salt : String) (content : Json) → Distinct (envelope_of id salt content)
envelope_of-Distinct id salt content = (refl, (refl, (refl, (refl, tt))))

str_inj : {s t : String} → str s ≡ str t → s ≡ t
str_inj e = cc

module _ (h : Hasher) (law : Lawful h) (c : Codec) (codec : CodecLawful c) where
  -- What `canonicalJson` and `sha256Hex` give to the hash function.
  abbrev pub canonical_input : Json → Bytes
  canonical_input v = h.utf8 (c.stringify (sort_deep c v))

  pub canonical_hash_inj :
      (a b : Json)
      → canonical_hash h c a ≡ canonical_hash h c b
      → (sort_deep c a ≡ sort_deep c b) ⊎ Collision h (canonical_input a) (canonical_input b)
  unfolding canonical_hash sha256_hex
  canonical_hash_inj a b e = elim (same_or_Collision h law _ _ e) [
    | inl same ↦ inl (codec.stringify_injective _ _ (law.utf8_injective _ _ same))
    | inr col ↦ inr col
  ]

  -- Objects that sort to one have, under each key, values that sort to one.
  member_inj :
      (k : String) (ms ns : Members) {v w : Json}
      → Distinct ms
      → Distinct ns
      → sort_deep c (obj ms) ≡ sort_deep c (obj ns)
      → get_member k ms ≡ some v
      → get_member k ns ≡ some w
      → sort_deep c v ≡ sort_deep c w
  unfolding sort_deep
  member_inj k ms ns dm dn e gm gn =
      let same = ap (λ (j : Json). get_member k (members_of j)) e in
      some_inj (
        ap (Option.map (sort_deep c)) (sym gm)
        ∙ sym (get_member-sort_members c k ms dm)
        ∙ same
        ∙ get_member-sort_members c k ns dn
        ∙ ap (Option.map (sort_deep c)) gn)

  -- If two commitments are equal, then so are their identifiers, their salts and, up to the order
  -- of keys, their contents; or the two texts that are hashed differ and have one digest.
  pub content_commitment_binding :
      (id id' salt salt' : String) (content content' : Json)
      → content_commitment h c (some (str id)) salt content
        ≡ content_commitment h c (some (str id')) salt' content'
      → ((id ≡ id') × (salt ≡ salt') × (sort_deep c content ≡ sort_deep c content'))
        ⊎ Collision h
            (canonical_input (obj (envelope_of id salt content)))
            (canonical_input (obj (envelope_of id' salt' content')))
  unfolding content_commitment sort_deep
  content_commitment_binding id id' salt salt' content content' e =
      let ms = envelope_of id salt content in
      let ns = envelope_of id' salt' content' in
      let dm = envelope_of-Distinct id salt content in
      let dn = envelope_of-Distinct id' salt' content' in
      elim (canonical_hash_inj (obj ms) (obj ns) e) [
        | inl same ↦ inl (
          str_inj (member_inj "id" ms ns {v = str id} {w = str id'} dm dn same refl refl),
          str_inj (member_inj "salt" ms ns {v = str salt} {w = str salt'} dm dn same refl refl),
          member_inj "content" ms ns dm dn same refl refl,
        )
        | inr col ↦ inr col
      ]
