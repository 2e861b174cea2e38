-- ===== src/Anchor/Tip.antt =====
-- `computeChainTipHash` of public-record/src/anchor/verify.ts.
pub mod Binding
use Prim.Native.Char.{code}
use oursay.Base.{
  ℕ, zero, suc, String, Option, none, some, [], ◌∷◌, ◌++◌, ◌==◌, ◌&&◌, if◌then◌else◌, ◌>>=◌,
  text_length,
}
use oursay.Crypto.Hash.{Hasher, Bytes, sha256_hex}

-- `slice(2)` after the test that the text begins with "0x".
pub strip_0x : String → String
strip_0x (String.◌∷◌ c (String.◌∷◌ d s)) =
    if code c == b'0' && code d == b'x' then s else String.◌∷◌ c (String.◌∷◌ d s)
strip_0x s = s

pub zeros : ℕ → Bytes
zeros zero = []
zeros (suc n) = 0 ∷ zeros n

module _ (h : Hasher) where
  pub tip_preimage_half : Option String → Option Bytes
  unfolding strip_0x zeros
  tip_preimage_half none = some (zeros 32)
  tip_preimage_half (some hex) =
      let stripped = strip_0x hex in
      if text_length stripped == 64 then h.hex_to_bytes stripped else none

  unfoldable pub compute_chain_tip_hash : Option String → String → Option String
  unfolding tip_preimage_half
  compute_chain_tip_hash prev_tip root = do
    prev ← tip_preimage_half prev_tip
    own ← tip_preimage_half (some root)
    some (sha256_hex h (prev ++ own))
