-- ===== src/Anchor/Tip/Binding.antt =====
-- The tip of a chain binds the roots of its blocks: the fold of `computeChainTipHash` over two
-- lists of one length has one value only if the roots are the same bytes, or inputs of the two folds
-- collide.
use Prim.Native.Char.{code}
use oursay.Base.{
  ◌&&◌, ◌+◌, ◌≡◌, ◌⊎◌, inl, inr, refl, sym, ap, ◌∙◌, String, Option, none, some, List, [], ◌∷◌,
  ◌++◌, length, map, arith, >>=-eq-some, some_inj, Bool-cases, ◌==◌, ==_iff, ◌>>=◌, text_length,
}
use oursay.Crypto.Hash.{Hasher, Lawful, Collides, IsInput, Bytes, sha256_hex}
use oursay.Crypto.Digest.{
  IsDigest, same_or_Collision, append_cancel_left, append_cancel_right, digest_bytes, IsInput-left,
  IsInput-right, Collides-mono,
}
use oursay.Anchor.Tip.{strip_0x, zeros, tip_preimage_half, compute_chain_tip_hash}

module _ (h : Hasher) where
  -- The tip after the blocks with these roots, from the tip before them.
  pub fold_tips : Option String → List String → Option (Option String)
  fold_tips tip [] = some tip
  fold_tips tip (root ∷ roots) = do
    next ← compute_chain_tip_hash h tip root
    fold_tips (some next) roots

  -- What `computeChainTipHash` gives to the hash function: nothing, where it throws first.
  unfoldable pub link_inputs : Option String → String → List Bytes
  link_inputs prev root = elim (tip_preimage_half h prev) [
    | none ↦ []
    | some bp ↦ elim (tip_preimage_half h (some root)) [ none ↦ [] | some br ↦ (bp ++ br) ∷ [] ]
  ]

  -- What is given to it in the fold over these roots.
  unfoldable pub tip_inputs : Option String → List String → List Bytes
  tip_inputs tip [] = []
  tip_inputs tip (root ∷ roots) = link_inputs tip root ++ elim (compute_chain_tip_hash h tip root) [
    | none ↦ []
    | some next ↦ tip_inputs (some next) roots
  ]

  link_inputs-eq :
      (prev : Option String) (root : String) (bp br : Bytes)
      → tip_preimage_half h prev ≡ some bp
      → tip_preimage_half h (some root) ≡ some br
      → link_inputs prev root ≡ (bp ++ br) ∷ []
  unfolding link_inputs
  link_inputs-eq prev root bp br p q = rw (p, q, link_inputs) refl

  -- The inputs of the first link, and those of the others.
  tip_inputs-here :
      (tip : Option String) (root : String) (roots : List String) (x : Bytes)
      → IsInput x (link_inputs tip root)
      → IsInput x (tip_inputs tip (root ∷ roots))
  unfolding tip_inputs
  tip_inputs-here tip root roots x i =
      IsInput-left x (link_inputs tip root)
        (elim (compute_chain_tip_hash h tip root) [
          | none ↦ []
          | some next ↦ tip_inputs (some next) roots
        ])
        i

  tip_inputs-there :
      (tip : Option String) (root : String) (roots : List String) {next : String} (x : Bytes)
      → compute_chain_tip_hash h tip root ≡ some next
      → IsInput x (tip_inputs (some next) roots)
      → IsInput x (tip_inputs tip (root ∷ roots))
  unfolding tip_inputs
  tip_inputs-there tip root roots x e i =
      let later : List Bytes = elim (compute_chain_tip_hash h tip root) [
        | none ↦ []
        | some next ↦ tip_inputs (some next) roots
      ] in
      let there : IsInput x later = rw e i in IsInput-right x (link_inputs tip root) later there

  pub fold_tips-nil : (tip : Option String) → fold_tips tip [] ≡ some tip
  unfolding fold_tips
  fold_tips-nil tip = refl

  pub fold_tips-cons :
      (tip : Option String) (root : String) (roots : List String) {next : String}
      → compute_chain_tip_hash h tip root ≡ some next
      → fold_tips tip (root ∷ roots) ≡ fold_tips (some next) roots
  unfolding fold_tips
  fold_tips-cons tip root roots e = rw e refl

  compute_chain_tip_hash-eq-some :
      (prev : Option String) (root : String) {tip : String}
      → compute_chain_tip_hash h prev root ≡ some tip
      → (bp : Bytes) × (br : Bytes) × (tip_preimage_half h prev ≡ some bp)
        × (tip_preimage_half h (some root) ≡ some br)
        × (tip ≡ h.bytes_to_hex (h.sha256 (bp ++ br)))
  unfolding compute_chain_tip_hash sha256_hex
  compute_chain_tip_hash-eq-some prev root e =
      let (bp, p, e') = >>=-eq-some (tip_preimage_half h prev) _ e in
      let (br, q, e'') = >>=-eq-some (tip_preimage_half h (some root)) _ e' in
      (bp, br, p, q, sym (some_inj e''))

cons_eq : {A : Type 0} {x y : A} {xs ys : List A} → x ≡ y → xs ≡ ys → x ∷ xs ≡ y ∷ ys
cons_eq e f = cc

module _ (h : Hasher) (law : Lawful h) where
  -- A half of the preimage has 32 bytes.
  length-tip_preimage_half :
      (hex : Option String) {b : Bytes} → tip_preimage_half h hex ≡ some b → length b ≡ 32
  unfolding tip_preimage_half zeros
  length-tip_preimage_half none e = ap length (sym (some_inj e))
  length-tip_preimage_half (some hex) {b = b} e =
      elim (Bool-cases (text_length (strip_0x hex) == 64)) [
        | inl t ↦
            let read : h.hex_to_bytes (strip_0x hex) ≡ some b = rw t at e in
            omega (
              arith,
              law.hex_length (strip_0x hex) b read,
              (==_iff (text_length (strip_0x hex)) 64).0 t,
            )
        | inr f ↦ let thrown : none ≡ some b = rw f at e in absurd (cc)
      ]

  same_halves :
      (prev prev' : Option String) (root root' : String) {tip : String}
      → compute_chain_tip_hash h prev root ≡ some tip
      → compute_chain_tip_hash h prev' root' ≡ some tip
      → ((tip_preimage_half h prev ≡ tip_preimage_half h prev')
          × (tip_preimage_half h (some root) ≡ tip_preimage_half h (some root')))
        ⊎ Collides h (link_inputs h prev root) (link_inputs h prev' root')
  same_halves prev prev' root root' e e' =
      let (bp, br, p, q, t) = compute_chain_tip_hash-eq-some h prev root e in
      let (bp', br', p', q', t') = compute_chain_tip_hash-eq-some h prev' root' e' in
      let lp = length-tip_preimage_half prev p ∙ sym (length-tip_preimage_half prev' p') in
      let lr =
        length-tip_preimage_half (some root) q ∙ sym (length-tip_preimage_half (some root') q') in
      elim (same_or_Collision h law (bp ++ br) (bp' ++ br') (sym t ∙ t')) [
        | inl same ↦ inl (
          p ∙ ap some (append_cancel_left bp bp' br br' lp same) ∙ sym p',
          q ∙ ap some (append_cancel_right bp bp' br br' lr same) ∙ sym q',
        )
        | inr col ↦
            let own : IsInput (bp ++ br) (link_inputs h prev root) =
              rw (link_inputs-eq h prev root bp br p q) (inl refl) in
            let other : IsInput (bp' ++ br') (link_inputs h prev' root') =
              rw (link_inputs-eq h prev' root' bp' br' p' q') (inl refl) in
            inr (bp ++ br, bp' ++ br', own, other, col)
      ]

  strip_0x-cases : (s : String) → (strip_0x s ≡ s) ⊎ (text_length (strip_0x s) + 2 ≡ text_length s)
  unfolding strip_0x
  strip_0x-cases String.[] = inl refl
  strip_0x-cases (String.◌∷◌ c String.[]) = inl refl
  strip_0x-cases (String.◌∷◌ c (String.◌∷◌ d s)) =
      elim (Bool-cases (code c == b'0' && code d == b'x')) [
        | inl t ↦ inr (rw t (omega arith))
        | inr f ↦ inl (rw f refl)
      ]

  text_length-digest : (q : String) → IsDigest h q → text_length q ≡ 64
  text_length-digest q (w, e) =
      rw e (omega (arith, law.hex_length _ (h.sha256 w) (law.hex_digest w), law.digest_length w))

  -- A tip that a block folded is the text of the bytes that the next block folds.
  digest_half :
      (q : String) {b : Bytes}
      → IsDigest h q
      → tip_preimage_half h (some q) ≡ some b
      → q ≡ h.bytes_to_hex b
  unfolding tip_preimage_half
  digest_half q {b = b} d e = elim (Bool-cases (text_length (strip_0x q) == 64)) [
    | inr f ↦ let thrown : none ≡ some b = rw f at e in absurd (cc)
    | inl t ↦
        let read : h.hex_to_bytes (strip_0x q) ≡ some b = rw t at e in
        elim (strip_0x-cases q) [
          | inl same ↦ (digest_bytes h law d (rw same at read)).0
          | inr shorter ↦
              absurd
                (omega (arith, (==_iff (text_length (strip_0x q)) 64).0 t, text_length-digest q d))
        ]
  ]

  compute_chain_tip_hash-IsDigest :
      (prev : Option String) (root : String) {tip : String}
      → compute_chain_tip_hash h prev root ≡ some tip
      → IsDigest h tip
  compute_chain_tip_hash-IsDigest prev root e =
      let (bp, br, p, q, t) = compute_chain_tip_hash-eq-some h prev root e in (bp ++ br, t)

  same_tip :
      (q q' root : String) {tip : String}
      → IsDigest h q
      → IsDigest h q'
      → compute_chain_tip_hash h (some q) root ≡ some tip
      → tip_preimage_half h (some q) ≡ tip_preimage_half h (some q')
      → q ≡ q'
  same_tip q q' root d d' e same =
      let (bp, br, p, _, _) = compute_chain_tip_hash-eq-some h (some q) root e in
      digest_half q d p ∙ sym (digest_half q' d' (sym same ∙ p))

  first_link :
      (tip tip' : Option String) (r r' : String) (rs rs' : List String)
      → Collides h (link_inputs h tip r) (link_inputs h tip' r')
      → Collides h (tip_inputs h tip (r ∷ rs)) (tip_inputs h tip' (r' ∷ rs'))
  first_link tip tip' r r' rs rs' col =
      Collides-mono h (link_inputs h tip r) (tip_inputs h tip (r ∷ rs)) (link_inputs h tip' r')
        (tip_inputs h tip' (r' ∷ rs')) (λ x i. tip_inputs-here h tip r rs x i)
        (λ y i. tip_inputs-here h tip' r' rs' y i) col

  later_link :
      (tip tip' : Option String) (r r' : String) (rs rs' : List String) {m m' : String}
      → compute_chain_tip_hash h tip r ≡ some m
      → compute_chain_tip_hash h tip' r' ≡ some m'
      → Collides h (tip_inputs h (some m) rs) (tip_inputs h (some m') rs')
      → Collides h (tip_inputs h tip (r ∷ rs)) (tip_inputs h tip' (r' ∷ rs'))
  later_link tip tip' r r' rs rs' {m = m} {m' = m'} p p' col =
      Collides-mono h (tip_inputs h (some m) rs) (tip_inputs h tip (r ∷ rs))
        (tip_inputs h (some m') rs') (tip_inputs h tip' (r' ∷ rs'))
        (λ x i. tip_inputs-there h tip r rs x p i) (λ y i. tip_inputs-there h tip' r' rs' y p' i)
        col

  fold_tips-same :
      (q q' : String) (roots roots' : List String) {t : Option String}
      → length roots ≡ length roots'
      → IsDigest h q
      → IsDigest h q'
      → fold_tips h (some q) roots ≡ some t
      → fold_tips h (some q') roots' ≡ some t
      → ((q ≡ q')
          × (map (λ r. tip_preimage_half h (some r)) roots
              ≡ map (λ r. tip_preimage_half h (some r)) roots'))
        ⊎ Collides h (tip_inputs h (some q) roots) (tip_inputs h (some q') roots')
  unfolding fold_tips
  fold_tips-same q q' [] [] n d d' e e' = inl (some_inj (some_inj e ∙ sym (some_inj e')), refl)
  fold_tips-same q q' [] (r' ∷ rs') n d d' e e' = absurd (omega arith)
  fold_tips-same q q' (r ∷ rs) [] n d d' e e' = absurd (omega arith)
  fold_tips-same q q' (r ∷ rs) (r' ∷ rs') n d d' e e' =
      let (m, p, f) = >>=-eq-some (compute_chain_tip_hash h (some q) r) _ e in
      let (m', p', f') = >>=-eq-some (compute_chain_tip_hash h (some q') r') _ e' in
      let dm = compute_chain_tip_hash-IsDigest (some q) r p in
      let dm' = compute_chain_tip_hash-IsDigest (some q') r' p' in
      elim (fold_tips-same m m' rs rs' (omega arith) dm dm' f f') [
        | inr col ↦ inr (later_link (some q) (some q') r r' rs rs' p p' col)
        | inl (same, roots) ↦
            elim (same_halves (some q) (some q') r r' p (p' ∙ ap some (sym same))) [
              | inr col ↦ inr (first_link (some q) (some q') r r' rs rs' col)
              | inl (prev, own) ↦ inl (same_tip q q' r d d' p prev, cons_eq own roots)
            ]
      ]

  -- If the fold of the tips over two lists of roots ends in one tip, and the lists have one length,
  -- then the roots are the same bytes, one by one; or two inputs of the two folds collide.
  pub fold_tips_binding :
      (roots roots' : List String) {t : String}
      → length roots ≡ length roots'
      → fold_tips h none roots ≡ some (some t)
      → fold_tips h none roots' ≡ some (some t)
      → (map (λ r. tip_preimage_half h (some r)) roots
          ≡ map (λ r. tip_preimage_half h (some r)) roots')
        ⊎ Collides h (tip_inputs h none roots) (tip_inputs h none roots')
  unfolding fold_tips
  fold_tips_binding [] [] n e e' = inl refl
  fold_tips_binding [] (r' ∷ rs') n e e' = absurd (omega arith)
  fold_tips_binding (r ∷ rs) [] n e e' = absurd (omega arith)
  fold_tips_binding (r ∷ rs) (r' ∷ rs') n e e' =
      let (m, p, f) = >>=-eq-some (compute_chain_tip_hash h none r) _ e in
      let (m', p', f') = >>=-eq-some (compute_chain_tip_hash h none r') _ e' in
      let dm = compute_chain_tip_hash-IsDigest none r p in
      let dm' = compute_chain_tip_hash-IsDigest none r' p' in
      elim (fold_tips-same m m' rs rs' (omega arith) dm dm' f f') [
        | inr col ↦ inr (later_link none none r r' rs rs' p p' col)
        | inl (same, roots) ↦ elim (same_halves none none r r' p (p' ∙ ap some (sym same))) [
          | inr col ↦ inr (first_link none none r r' rs rs' col)
          | inl (prev, own) ↦ inl (cons_eq own roots)
        ]
      ]
