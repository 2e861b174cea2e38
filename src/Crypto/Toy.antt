-- ===== src/Crypto/Toy.antt =====
-- A hasher that can be run: its digests are the parity of the input's sum and 31 zeros. It meets
-- the laws of the interface, and is used by the examples only.
use Prim.Native.Char.{code}
use text.Mathlib.TextEquality.{Char-path}
use oursay.Base.{
  length, text_length, Bool-cases, str_eq_iff, some_inj, ℕ, zero, suc, ◌+◌, ◌%◌, ◌≡◌, refl, String,
  Option, none, some, [], ◌∷◌, arith, ◌==◌, str_eq, if◌then◌else◌, ◌⊎◌, inl, inr,
}
use oursay.Crypto.Hash.{Hasher, Lawful, Bytes}

abbrev pub codes : String → Bytes
codes String.[] = []
codes (String.◌∷◌ c s) = code c ∷ codes s

codes_inj : (s t : String) → codes s ≡ codes t → s ≡ t
codes_inj String.[] String.[] e = refl
codes_inj String.[] (String.◌∷◌ c t) e = absurd (cc)
codes_inj (String.◌∷◌ c s) String.[] e = absurd (cc)
codes_inj (String.◌∷◌ c s) (String.◌∷◌ d t) e = cc (Char-path c d (cc), codes_inj s t (cc))

abbrev pub total : Bytes → ℕ
total [] = 0
total (b ∷ bs) = b + total bs

abbrev pub pad : ℕ → Bytes
pad zero = []
pad (suc n) = 0 ∷ pad n

abbrev pub zero_hex : String
zero_hex = "0000000000000000000000000000000000000000000000000000000000000000"

abbrev pub one_hex : String
one_hex = "0100000000000000000000000000000000000000000000000000000000000000"

abbrev pub toy_hex : Bytes → String
toy_hex [] = ""
toy_hex (b ∷ bs) = if b == 0 then zero_hex else one_hex

abbrev pub toy_unhex : String → Option Bytes
toy_unhex s =
    if str_eq s zero_hex
    then some (0 ∷ pad 31)
    else if str_eq s one_hex
    then some (1 ∷ pad 31)
    else none

toy_hex_length :
    (s : String) (b : Bytes) → toy_unhex s ≡ some b → text_length s ≡ length b + length b
toy_hex_length s b e = elim (Bool-cases (str_eq s zero_hex)) [
  | inl z ↦
      let same = (str_eq_iff s zero_hex).0 z in
      let bytes : some (0 ∷ pad 31) ≡ some b = rw z at e in rw (same, ← some_inj bytes) refl
  | inr nz ↦ elim (Bool-cases (str_eq s one_hex)) [
    | inl o ↦
        let same = (str_eq_iff s one_hex).0 o in
        let bytes : some (1 ∷ pad 31) ≡ some b = rw (nz, o) at e in rw (same, ← some_inj bytes) refl
    | inr no_hex ↦ let absent : none ≡ some b = rw (nz, no_hex) at e in absurd (cc)
  ]
]

abbrev pub toy : Hasher
toy = record {
  sha256 = λ b. (total b % 2) ∷ pad 31;
  bytes_to_hex = toy_hex;
  hex_to_bytes = toy_unhex;
  utf8 = codes;
}

parity-cases : (n : ℕ) → (n % 2 ≡ 0) ⊎ (n % 2 ≡ 1)
parity-cases n = omega arith

toy_digest : (n : ℕ) → toy_unhex (toy_hex (n % 2 ∷ pad 31)) ≡ some (n % 2 ∷ pad 31)
toy_digest n = elim (parity-cases n) [ inl e ↦ rw e refl | inr e ↦ rw e refl ]

pub toy-Lawful : Lawful toy
toy-Lawful = record {
  digest_length = λ b. refl;
  hex_digest = λ b. toy_digest (total b);
  hex_length = toy_hex_length;
  utf8_injective = codes_inj;
}
