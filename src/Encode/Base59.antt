-- ===== src/Encode/Base59.antt =====
-- `encodeBase59` and `decodeBase59` of encode/src/base59.ts. `none` is a thrown exception; values
-- are not negative.
pub mod RoundTrip
mod Examples
use Prim.Native.Char.{Char, code}
use oursay.Base.{
  ℕ, zero, suc, ◌+◌, ◌*◌, ◌/◌, ◌%◌, String, Option, none, some, ◌==◌, if◌then◌else◌, ◌>>=◌,
}

pub base59_alphabet : String
base59_alphabet = "123456789ABCDEFGHJKLMNPQRSTUVWXYZabcdefghijkmnopqrstuvwxyz_"

pub char_at : String → ℕ → Option Char
char_at String.[] i = none
char_at (String.◌∷◌ c s) zero = some c
char_at (String.◌∷◌ c s) (suc i) = char_at s i

-- `BASE59_CHAR_TO_VALUE.get`, over the characters of a text.
pub index_of : Char → String → Option ℕ
index_of c String.[] = none
index_of c (String.◌∷◌ d s) =
    let rest = index_of c s in if code d == code c then some 0 else (do i ← rest; some (suc i))

-- The loop runs on fuel, one unit a digit.
pub encode_loop : ℕ → ℕ → String → Option String
unfolding char_at base59_alphabet
encode_loop fuel zero encoded = some encoded
encode_loop zero (suc n) encoded = none
encode_loop (suc fuel) (suc n) encoded = do
  c ← char_at base59_alphabet (suc n % 59)
  encode_loop fuel (suc n / 59) (String.◌∷◌ c encoded)

pub encode_base59 : ℕ → Option String
unfolding encode_loop
encode_base59 zero = do c ← char_at base59_alphabet 0; some (String.◌∷◌ c "")
encode_base59 (suc n) = encode_loop (suc n) (suc n) ""

pub decode_loop : ℕ → String → Option ℕ
unfolding index_of base59_alphabet
decode_loop value String.[] = some value
decode_loop value (String.◌∷◌ c s) = do
  digit ← index_of c base59_alphabet
  decode_loop (value * 59 + digit) s

pub decode_base59 : String → Option ℕ
unfolding decode_loop
decode_base59 String.[] = none
decode_base59 (String.◌∷◌ c s) = decode_loop 0 (String.◌∷◌ c s)
