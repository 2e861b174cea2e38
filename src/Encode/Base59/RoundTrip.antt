-- ===== src/Encode/Base59/RoundTrip.antt =====
-- Decoding an encoded number gives the number back, and encoding never throws.
use Prim.Native.Char.{Char, code}
use oursay.Base.{
  ℕ, zero, suc, ◌+◌, ◌*◌, ◌/◌, ◌%◌, ◌<◌, ◌≤◌, ◌≡◌, refl, ap, ◌∙◌, String, Bool, true, false, not,
  ◌&&◌, some, ◌==◌, arith, some_inj,
}
use oursay.Encode.Base59.{
  base59_alphabet, char_at, index_of, encode_loop, encode_base59, decode_loop, decode_base59,
}

-- No character stands twice.
fresh : Char → String → Bool
fresh c String.[] = true
fresh c (String.◌∷◌ d s) = not (code c == code d) && fresh c s

distinct : String → Bool
unfolding fresh
distinct String.[] = true
distinct (String.◌∷◌ c s) = fresh c s && distinct s

char_at-fresh :
    (c d : Char) (s : String) (i : ℕ)
    → fresh c s ≡ true
    → char_at s i ≡ some d
    → (code c == code d) ≡ false
unfolding fresh char_at
char_at-fresh c d String.[] i f e = absurd (cc)
char_at-fresh c d (String.◌∷◌ x s) zero f e = rw (← some_inj e) (ground arith)
char_at-fresh c d (String.◌∷◌ x s) (suc i) f e = char_at-fresh c d s i (ground arith) e

index_of-char_at :
    (s : String) (i : ℕ) {c : Char}
    → distinct s ≡ true
    → char_at s i ≡ some c
    → index_of c s ≡ some i
unfolding distinct char_at index_of
index_of-char_at String.[] i u e = absurd (cc)
index_of-char_at (String.◌∷◌ d s) zero u e = rw (← some_inj e) (ground arith)
index_of-char_at (String.◌∷◌ d s) (suc i) {c = c} u e =
    let other = char_at-fresh d c s i (ground arith) e in
    rw (other, index_of-char_at s i (ground arith) e) refl

alphabet_distinct : distinct base59_alphabet ≡ true
unfolding distinct base59_alphabet
alphabet_distinct = refl

text_chars : String → ℕ
text_chars String.[] = 0
text_chars (String.◌∷◌ c s) = suc (text_chars s)

char_at-lt : (s : String) (i : ℕ) → i < text_chars s → (c : Char) × (char_at s i ≡ some c)
unfolding text_chars char_at
char_at-lt String.[] i lt = absurd (omega arith)
char_at-lt (String.◌∷◌ c s) zero lt = (c, refl)
char_at-lt (String.◌∷◌ c s) (suc i) lt = char_at-lt s i (omega arith)

alphabet_digit : (i : ℕ) → i < 59 → (c : Char) × (char_at base59_alphabet i ≡ some c)
unfolding base59_alphabet text_chars
alphabet_digit i lt = char_at-lt base59_alphabet i lt

-- The digits of `n` in front of `encoded` read as `n` before the reading of `encoded`.
encode_loop-decodes :
    (fuel n : ℕ) (encoded : String)
    → n ≤ fuel
    → (s : String) × (encode_loop fuel n encoded ≡ some s)
      × (decode_loop 0 s ≡ decode_loop n encoded)
unfolding encode_loop decode_loop
encode_loop-decodes fuel zero encoded le = (encoded, refl, refl)
encode_loop-decodes zero (suc n) encoded le = absurd (omega arith)
encode_loop-decodes (suc fuel) (suc n) encoded le =
    let (c, e) = alphabet_digit (suc n % 59) (omega arith) in
    let value = index_of-char_at base59_alphabet (suc n % 59) alphabet_distinct e in
    let (s, p, q) =
      encode_loop-decodes fuel (suc n / 59) (String.◌∷◌ c encoded) (omega (arith, le)) in
    let whole : suc n / 59 * 59 + suc n % 59 ≡ suc n = omega arith in
    (s, rw e p, q ∙ rw value (ap (λ (m : ℕ). decode_loop m encoded) whole))

decode_base59-loop :
    (s : String) {n : ℕ} → decode_loop 0 s ≡ some (suc n) → decode_base59 s ≡ some (suc n)
unfolding decode_base59 decode_loop
decode_base59-loop String.[] e = absurd (cc)
decode_base59-loop (String.◌∷◌ c s) e = e

-- Every number has an encoding, and decoding it gives the number back.
pub decode_base59-encode_base59 :
    (n : ℕ) → (s : String) × (encode_base59 n ≡ some s) × (decode_base59 s ≡ some n)
unfolding encode_base59 decode_base59 decode_loop
decode_base59-encode_base59 zero = ("1", refl, refl)
decode_base59-encode_base59 (suc n) =
    let (s, p, q) = encode_loop-decodes (suc n) (suc n) "" (omega arith) in
    (s, p, decode_base59-loop s q)
