-- ===== src/Identity/Curve.antt =====
-- The functions that public-record/src/identity takes from `@noble/curves` and the platform, as an
-- interface. `none` is a thrown exception.
use oursay.Base.{String, Bool, Option, ℕ}
use oursay.Crypto.Hash.{Bytes}

-- `p256.verify` of a signature, a digest and a public key, with and without the demand of a low
-- `s`; `p256.sign` of a digest and a private key; the signature in its compact form;
-- `p256.getPublicKey`; `fromDER`; `atob` and `btoa` on bytes; `TextDecoder`; `Date.parse`, for
-- which `none` is NaN; `toLowerCase`.
pub record Curve : Type 0 where
  pub verify : Bytes → Bytes → Bytes → Option Bool
  pub verify_any_s : Bytes → Bytes → Bytes → Option Bool
  pub sign : Bytes → Bytes → Bytes
  pub public_key : Bytes → Bytes
  pub from_der : Bytes → Option Bytes
  pub atob : String → Option Bytes
  pub btoa : Bytes → String
  pub decode_text : Bytes → String
  pub date_parse : String → Option ℕ
  pub to_lower_case : String → String
