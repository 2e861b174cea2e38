-- ===== src/Identity/PlatformOps.antt =====
-- public-record/src/identity/platform-ops.ts: the id of a platform operation's entity, and the
-- attestation of an administrator.
use Prim.Native.Char.{code}
use Prim.Native.String.{◌++◌ as ◌+++◌}
use oursay.Base.{
  ℕ, zero, suc, ◌+◌, ◌%◌, String, Bool, true, false, not, ◌&&◌, Option, none, some, [], ◌∷◌, ◌==◌,
  str_eq, if◌then◌else◌, ◌>>=◌,
}
use oursay.Crypto.Hash.{Hasher, Bytes}
use oursay.Crypto.Canonical.{Json, Members, Codec, canonical_json, str, get_member}
use oursay.Ledger.Store.{take}
use oursay.Schema.Types.{WebauthnAssertion}
use oursay.Schema.Content.{members_of}
use oursay.Schema.Content.PlatformOps.{
  is_space, PlatformOpsKind, official_seat_claim, official_seat_revoke, official_seat_upsert,
  jurisdiction_config_set, district_upsert,
}
use oursay.Identity.Curve.{Curve}
use oursay.Identity.Envelope.{given, verify_hex, verify_assertion_for_challenge}

abbrev trim_start : String → String
trim_start String.[] = ""
trim_start (String.◌∷◌ c s) =
    let rest = trim_start s in if is_space (code c) then rest else String.◌∷◌ c s

abbrev trim_end : String → String
trim_end String.[] = ""
trim_end (String.◌∷◌ c s) =
    let rest = trim_end s in if is_space (code c) && str_eq rest "" then "" else String.◌∷◌ c rest

abbrev pub trim : String → String
trim s = trim_end (trim_start s)

abbrev pub strip_at : String → String
strip_at String.[] = ""
strip_at (String.◌∷◌ c s) = if code c == 64 then s else String.◌∷◌ c s

abbrev pub text_take : ℕ → String → String
text_take zero s = ""
text_take (suc n) String.[] = ""
text_take (suc n) (String.◌∷◌ c s) = String.◌∷◌ c (text_take n s)

abbrev pub text_drop : ℕ → String → String
text_drop zero s = s
text_drop (suc n) String.[] = ""
text_drop (suc n) (String.◌∷◌ c s) = text_drop n s

abbrev pub slice : ℕ → ℕ → String → String
slice from n s = text_take n (text_drop from s)

-- Byte `i` of a digest, changed.
abbrev pub change_at : ℕ → (ℕ → ℕ) → Bytes → Bytes
change_at i f [] = []
change_at zero f (b ∷ bs) = f b ∷ bs
change_at (suc i) f (b ∷ bs) = b ∷ change_at i f bs

-- The version and the variant of a UUID: `(b & 0x0f) | 0x40` and `(b & 0x3f) | 0x80`.
abbrev pub stamp_uuid : Bytes → Bytes
stamp_uuid digest = change_at 8 (λ b. b % 64 + 128) (change_at 6 (λ b. b % 16 + 64) digest)

abbrev pub dashed : String → String
dashed s =
    slice 0 8 s
    +++ ("-"
        +++ (slice 8 4 s
            +++ ("-" +++ (slice 12 4 s +++ ("-" +++ (slice 16 4 s +++ ("-" +++ text_drop 20 s)))))))

abbrev pub text_member : String → Members → Option String
text_member key ms = elim (get_member key ms) [ some (str s) ↦ some s | _ ↦ none ]

-- What is a text, and not empty.
abbrev pub inner : String → Members → Members
inner key ms = elim (get_member key ms) [ some v ↦ members_of v | none ↦ members_of (str "") ]

abbrev pub seat_handle_of : Members → Option String
seat_handle_of payload = elim (text_member "seatHandle" payload) [
  | some s ↦ given (some s)
  | none ↦ given (text_member "seatHandle" (inner "seat" payload))
]

module _ (h : Hasher) (codec : Codec) (curve : Curve) where
  unfoldable pub deterministic_platform_ops_uuid : String → String
  deterministic_platform_ops_uuid scope = dashed (
      h.bytes_to_hex
        (take 16 (stamp_uuid (h.sha256 (h.utf8 ("oursay/v1/platform-ops/" +++ scope))))))

  unfoldable pub platform_ops_seat_entity_id : String → String → String
  platform_ops_seat_entity_id jurisdiction_id seat_handle = deterministic_platform_ops_uuid (
      "seat/"
      +++ (curve.to_lower_case (trim jurisdiction_id)
          +++ ("/" +++ curve.to_lower_case (trim (strip_at seat_handle)))))

  abbrev pub seat_id : String → Members → Option String
  seat_id jurisdiction payload =
      seat_handle_of payload >>= (λ handle. some (platform_ops_seat_entity_id jurisdiction handle))

  abbrev pub district_slug : Members → String
  district_slug payload = elim (text_member "districtSlug" (inner "district" payload)) [
    | none ↦ ""
    | some s ↦ curve.to_lower_case (trim s)
  ]

  abbrev pub id_of_kind : PlatformOpsKind → String → Members → Option String
  id_of_kind official_seat_claim jurisdiction payload = seat_id jurisdiction payload
  id_of_kind official_seat_revoke jurisdiction payload = seat_id jurisdiction payload
  id_of_kind official_seat_upsert jurisdiction payload = seat_id jurisdiction payload
  id_of_kind jurisdiction_config_set jurisdiction payload =
      some (deterministic_platform_ops_uuid ("jurisdiction-config/" +++ jurisdiction))
  id_of_kind district_upsert jurisdiction payload =
      given (some (district_slug payload)) >>= (λ slug.
        some (deterministic_platform_ops_uuid ("district/" +++ (jurisdiction +++ ("/" +++ slug)))))

  -- `platformOpsEntityId`; `none`: it throws.
  unfoldable pub platform_ops_entity_id : PlatformOpsKind → String → Members → Option String
  platform_ops_entity_id kind jurisdiction_id payload =
      given (some (curve.to_lower_case (trim jurisdiction_id)))
      >>= (λ jurisdiction. id_of_kind kind jurisdiction payload)

  unfoldable pub platform_ops_request_digest : Json → Bytes
  platform_ops_request_digest request = h.sha256 (h.utf8 (canonical_json codec request))

  pub verify_platform_ops_request_p256 : Json → String → String → Bool
  verify_platform_ops_request_p256 request sig_hex pub_hex =
      not (str_eq sig_hex "")
      && (not (str_eq pub_hex "")
          && verify_hex h codec curve sig_hex (platform_ops_request_digest request) pub_hex)

  -- The attestation of an administrator over a clear request.
  pub record AdminAttestation : Type 0 where
    pub signer_pubkey : String
    pub webauthn_scheme : Bool
    pub signature : String
    pub webauthn : Option WebauthnAssertion
    pub request_hash : String

  abbrev pub attested_by : Bool → Json → AdminAttestation → Bool
  unfolding verify_platform_ops_request_p256
  attested_by true request a = elim a.webauthn [
    | none ↦ false
    | some w ↦
        verify_assertion_for_challenge h codec curve w (platform_ops_request_digest request)
          a.signer_pubkey
  ]
  attested_by false request a = elim a.webauthn [
    | some w ↦ false
    | none ↦ verify_platform_ops_request_p256 request a.signature a.signer_pubkey
  ]

  unfoldable pub verify_platform_ops_admin_attestation : Json → AdminAttestation → Bool
  unfolding verify_platform_ops_request_p256
  verify_platform_ops_admin_attestation request a =
      str_eq a.request_hash (h.bytes_to_hex (platform_ops_request_digest request))
      && attested_by a.webauthn_scheme request a
