-- ===== src/Identity/Envelope.antt =====
-- public-record/src/identity/envelope.ts and webauthn.ts: the digest that a key signs, and the
-- verification of an envelope.
use Prim.Native.Char.{Char, code}
use Prim.Native.String.{◌++◌ as ◌+++◌}
use oursay.Base.{
  ℕ, ◌/◌, ◌%◌, String, Bool, false, not, ◌&&◌, Option, none, some, ◌++◌, length, get_elem?, ltb,
  ◌==◌, str_eq, if◌then◌else◌, ◌>>=◌, text_length,
}
use oursay.Crypto.Hash.{Hasher, Bytes}
use oursay.Crypto.Canonical.{Json, Codec, canonical_json, get_member}
use oursay.Schema.Types.{
  TxEnvelope, envelope_json, SignScheme, p256, webauthn_es256, WebauthnAssertion,
}
use oursay.Schema.Content.{members_of}
use oursay.Schema.Content.PlatformOps.{equals_text}
use oursay.Identity.Curve.{Curve}

-- What a test in JavaScript takes for absent: the empty text, too.
abbrev pub given : Option String → Option String
given none = none
given (some s) = if str_eq s "" then none else some s

abbrev pub is_given : Option String → Bool
is_given none = false
is_given (some s) = not (str_eq s "")

abbrev pub scheme_or_p256 : Option SignScheme → SignScheme
scheme_or_p256 none = p256
scheme_or_p256 (some s) = s

-- The two replacements of `base64urlDecode`.
abbrev pub from_url : Char → String
from_url c = if code c == 45 then "+" else if code c == 95 then "/" else String.◌∷◌ c ""

abbrev pub from_url_text : String → String
from_url_text String.[] = ""
from_url_text (String.◌∷◌ c s) = from_url c +++ from_url_text s

abbrev pub padding : ℕ → String
padding n =
    if n % 4 == 0 then "" else if n % 4 == 1 then "===" else if n % 4 == 2 then "==" else "="

-- Those of `base64urlEncode`, and the removal of the padding.
abbrev pub to_url : Char → String
to_url c = if code c == 43 then "-" else if code c == 47 then "_" else String.◌∷◌ c ""

abbrev pub to_url_text : String → String
to_url_text String.[] = ""
to_url_text (String.◌∷◌ c s) = to_url c +++ to_url_text s

abbrev pub strip_padding : String → String
strip_padding String.[] = ""
strip_padding (String.◌∷◌ c s) =
    let rest = strip_padding s in if code c == 61 && str_eq rest "" then "" else String.◌∷◌ c rest

-- A bit of the flags, by its value.
abbrev pub has_flag : ℕ → ℕ → Bool
has_flag flags bit = flags / bit % 2 == 1

abbrev pub holds : Option Bool → Bool
holds none = false
holds (some b) = b

module _ (h : Hasher) (codec : Codec) (curve : Curve) where
  unfoldable pub signing_digest : TxEnvelope → Bytes
  signing_digest env = h.sha256 (
      h.utf8
        (canonical_json codec (envelope_json (record env { signature = ""; webauthn = none }))))

  pub base64url_decode : String → Option Bytes
  base64url_decode s = curve.atob (from_url_text s +++ padding (text_length s))

  pub base64url_encode : Bytes → String
  base64url_encode bytes = strip_padding (to_url_text (curve.btoa bytes))

  -- The flags of the authenticator say that the user was present and verified.
  abbrev pub user_verified : Option ℕ → Bool
  user_verified none = false
  user_verified (some flags) = has_flag flags 1 && has_flag flags 4

  -- The type and the challenge of the client's data.
  abbrev pub client_data_ok : Bytes → Json → Bool
  unfolding base64url_encode
  client_data_ok challenge data' =
      let ms = members_of data' in
      equals_text (get_member "type" ms) "webauthn.get"
      && equals_text (get_member "challenge" ms) (base64url_encode challenge)

  -- The body of the `try`: `none` is an exception.
  abbrev pub check_assertion : WebauthnAssertion → Bytes → String → Option Bool
  unfolding base64url_decode base64url_encode
  check_assertion wa challenge signer_pubkey_hex = do
    auth_data ← base64url_decode wa.authenticator_data
    client_data ← base64url_decode wa.client_data_json
    sig_der ← base64url_decode wa.signature
    parsed ← codec.parse (curve.decode_text client_data)
    sig ← curve.from_der sig_der
    key ← h.hex_to_bytes signer_pubkey_hex
    verified ← curve.verify_any_s sig (h.sha256 (auth_data ++ h.sha256 client_data)) key
    some (
        not (ltb (length auth_data) 37)
        && (user_verified (get_elem? auth_data 32)
            && (client_data_ok challenge parsed && verified)))

  -- `verifyWebauthnAssertionForChallenge`: what throws is not verified.
  unfoldable pub verify_assertion_for_challenge : WebauthnAssertion → Bytes → String → Bool
  unfolding base64url_decode base64url_encode
  verify_assertion_for_challenge wa challenge signer_pubkey_hex =
      not (str_eq signer_pubkey_hex "") && holds (check_assertion wa challenge signer_pubkey_hex)

  abbrev pub assertion_verifies : Option WebauthnAssertion → Option String → Bytes → Bool
  unfolding verify_assertion_for_challenge
  assertion_verifies (some wa) (some key) challenge =
      verify_assertion_for_challenge wa challenge key
  assertion_verifies _ _ challenge = false

  pub verify_webauthn_assertion : TxEnvelope → Bool
  unfolding verify_assertion_for_challenge signing_digest
  verify_webauthn_assertion env =
      assertion_verifies env.webauthn env.signer_pubkey (signing_digest env)

  -- A signature in hexadecimal over a digest, with a key in hexadecimal.
  unfoldable pub verify_hex : String → Bytes → String → Bool
  verify_hex sig_hex digest key_hex =
      holds
        (do sig ← h.hex_to_bytes sig_hex; key ← h.hex_to_bytes key_hex; curve.verify sig digest key)

  -- `signerPubkey ?? authorPubkey`.
  abbrev pub verifying_key : TxEnvelope → String
  verifying_key env = elim env.signer_pubkey [ none ↦ env.author_pubkey | some key ↦ key ]

  unfoldable pub verify_envelope : TxEnvelope → Bool
  unfolding verify_webauthn_assertion verify_hex signing_digest
  verify_envelope env = elim (scheme_or_p256 env.sign_scheme) [
    | webauthn_es256 ↦ verify_webauthn_assertion env
    | p256 ↦
        not (str_eq env.signature "")
        && verify_hex env.signature (signing_digest env) (verifying_key env)
  ]
