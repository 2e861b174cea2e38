-- ===== src/Schema/Content/PlatformOps.antt =====
-- The content of a platform operation: `validatePlatformOpsPayload` and `validateJurisdictionConfig`
-- of public-record/src/schema/content.ts. `true`: the check returns; `false`: it throws.
-- `date_parse` is `Date.parse`, and `none` its NaN.
use Prim.Native.Char.{code}
use Prim.Native.String.{◌++◌}
use oursay.Base.{
  ℕ, suc, zero, String, Bool, true, false, not, ◌&&◌, ◌||◌, Option, none, some, leb, ◌==◌, str_eq,
  if◌then◌else◌, List, [], ◌∷◌, all,
}
use oursay.Crypto.Hash.{Hasher, sha256_hex}
use oursay.Crypto.Canonical.{
  Json, Items, Members, null, bool, num, str, arr, obj, item, end, close, member, get_member, Codec,
  canonical_json,
}
use oursay.Schema.Types.{
  GatedAction, post, petition, poll, result, comment, reaction, vote, petition_signature,
  action_name,
}

-- The characters that `trim` removes.
abbrev pub is_space : ℕ → Bool
is_space n =
    (leb 9 n && leb n 13)
    || (n == 32
        || (n == 160
            || (n == 5760
                || ((leb 8192 n && leb n 8202)
                    || (n == 8232
                        || (n == 8233
                            || (n == 8239 || (n == 8287 || (n == 12288 || n == 65279)))))))))

-- `text.trim().length === 0`.
abbrev pub is_blank : String → Bool
is_blank String.[] = true
is_blank (String.◌∷◌ c s) = is_space (code c) && is_blank s

abbrev pub present : String → Members → Bool
present key close = false
present key (member k v rest) = str_eq k key || present key rest

-- `objectValue`, and what is checked of the members.
abbrev pub with_object : Option Json → (Members → Bool) → Bool
with_object (some (obj ms)) check = check ms
with_object _ check = false

-- `nonEmptyString` returns.
abbrev pub is_filled : Option Json → Bool
is_filled (some (str s)) = not (is_blank s)
is_filled _ = false

abbrev pub equals_text : Option Json → String → Bool
equals_text (some (str s)) t = str_eq s t
equals_text _ t = false

abbrev pub is_digit : ℕ → Bool
is_digit n = leb 48 n && leb n 57

-- `ISO_DATE_RE` from a position on: digits and dashes as the form says.
pub data Form : Type 0 where
  digit dash : Form

abbrev pub matches_form : List Form → String → Bool
matches_form [] String.[] = true
matches_form (digit ∷ fs) (String.◌∷◌ c s) = is_digit (code c) && matches_form fs s
matches_form (dash ∷ fs) (String.◌∷◌ c s) = code c == 45 && matches_form fs s
matches_form [] (String.◌∷◌ c s) = false
matches_form (f ∷ fs) String.[] = false

abbrev pub iso_date_form : List Form
iso_date_form = digit ∷ digit ∷ digit ∷ digit ∷ dash ∷ digit ∷ digit ∷ dash ∷ digit ∷ digit ∷ []

pub is_iso_date : String → Bool
is_iso_date s = matches_form iso_date_form s

-- `SHA256_RE`: so many digits of a hexadecimal number in lower case, and no more.
pub is_lower_hex : ℕ → String → Bool
is_lower_hex zero String.[] = true
is_lower_hex (suc n) (String.◌∷◌ c s) =
    (is_digit (code c) || (leb 97 (code c) && leb (code c) 102)) && is_lower_hex n s
is_lower_hex zero (String.◌∷◌ c s) = false
is_lower_hex (suc n) String.[] = false

abbrev pub is_parsed : Option ℕ → Bool
is_parsed none = false
is_parsed (some t) = true

abbrev pub positive_integer : Option Json → Bool
positive_integer (some (num n)) = not (n == 0)
positive_integer _ = false

abbrev pub one_member : Members → Bool
one_member (member k v close) = true
one_member _ = false

-- A list of texts that are not empty.
abbrev pub all_texts : Items → Bool
all_texts end = true
all_texts (item (str s) xs) = not (str_eq s "") && all_texts xs
all_texts (item _ xs) = false

abbrev pub text_list : Option Json → Bool
text_list (some (arr xs)) = all_texts xs
text_list _ = false

abbrev pub tier_list : Option Json → Bool
tier_list (some (arr (item x xs))) = all_texts (item x xs)
tier_list _ = false

abbrev pub is_true : Option Json → Bool
is_true (some (bool b)) = b
is_true _ = false

abbrev pub platform_gate_role : Option Json → Bool
platform_gate_role role =
    equals_text role "admin"
    || (equals_text role "dev"
        || (equals_text role "mod" || (equals_text role "auditor" || equals_text role "support")))

abbrev pub actor_selector : Members → Bool
actor_selector actor =
    one_member actor
    && (tier_list (get_member "tiers" actor)
        || (equals_text (get_member "residencyIn" actor) "jurisdiction"
            || (equals_text (get_member "role" actor) "official"
                || (is_true (get_member "mediaAccredited" actor)
                    || platform_gate_role (get_member "platformRole" actor)))))

pub validate_gate_actor : Option Json → Bool
validate_gate_actor value = equals_text value "anyone" || with_object value actor_selector

pub all_actors : Items → Bool
unfolding validate_gate_actor
all_actors end = true
all_actors (item x xs) = validate_gate_actor (some x) && all_actors xs

pub validate_act : Option Json → Bool
unfolding all_actors
validate_act (some (arr end)) = false
validate_act (some (arr (item x xs))) = all_actors (item x xs)
validate_act value = validate_gate_actor value

abbrev pub deny_list : Option Json → Bool
unfolding all_actors
deny_list none = true
deny_list (some (arr xs)) = all_actors xs
deny_list (some _) = false

abbrev pub official_count : Option Json → Bool
unfolding validate_gate_actor
official_count none = true
official_count (some v) = validate_gate_actor (some v)

abbrev pub gate_ok : Members → Bool
unfolding validate_act
gate_ok gate =
    validate_act (get_member "act" gate)
    && ((equals_text (get_member "signMin" gate) "quick"
          || equals_text (get_member "signMin" gate) "passkey")
        && (official_count (get_member "officialCount" gate) && deny_list (get_member "deny" gate)))

-- `GATED_ACTIONS`.
abbrev pub gated_actions : List GatedAction
gated_actions =
    post ∷ petition ∷ poll ∷ result ∷ comment ∷ reaction ∷ vote ∷ petition_signature ∷ []

abbrev pub gates_ok : Option Json → Bool
unfolding validate_act
gates_ok none = true
gates_ok (some v) = with_object (some v) (λ gates.
    all (λ gated. with_object (get_member (action_name gated) gates) gate_ok) gated_actions)

abbrev pub accreditation_ids : Option Json → Bool
accreditation_ids none = true
accreditation_ids (some v) = text_list (some v)

pub validate_jurisdiction_config : Option Json → String → Bool
unfolding validate_act
validate_jurisdiction_config value jurisdiction_id = with_object value (λ config.
    (is_filled (get_member "id" config) && equals_text (get_member "id" config) jurisdiction_id)
    && (is_filled (get_member "level" config)
        && (with_object (get_member "rules" config) (λ rules. true)
            && (accreditation_ids (get_member "recognizedAccreditationBodyIds" config)
                && gates_ok (get_member "gates" config)))))

pub data PlatformOpsKind : Type 0 where
  official_seat_claim official_seat_revoke jurisdiction_config_set : PlatformOpsKind
  district_upsert official_seat_upsert : PlatformOpsKind

abbrev pub kind_of : Option Json → Option PlatformOpsKind
kind_of kind =
    if equals_text kind "official_seat_claim"
    then some official_seat_claim
    else if equals_text kind "official_seat_revoke"
    then some official_seat_revoke
    else if equals_text kind "jurisdiction_config_set"
    then some jurisdiction_config_set
    else if equals_text kind "district_upsert"
    then some district_upsert
    else if equals_text kind "official_seat_upsert"
    then some official_seat_upsert
    else none

abbrev pub filled_if_present : Option Json → Bool
filled_if_present none = true
filled_if_present (some v) = is_filled (some v)

abbrev pub is_list : Option Json → Bool
is_list (some (arr xs)) = true
is_list _ = false

-- What is no object or list, or is missing, is refused.
abbrev pub is_compound : Option Json → Bool
is_compound (some (obj ms)) = true
is_compound (some (arr xs)) = true
is_compound _ = false

abbrev pub own_jurisdiction : Members → String → Bool
own_jurisdiction ms jurisdiction_id =
    is_filled (get_member "jurisdictionId" ms)
    && equals_text (get_member "jurisdictionId" ms) jurisdiction_id

module _ (h : Hasher) (codec : Codec) (date_parse : String → Option ℕ) where
  pub iso_date : Option Json → Bool
  unfolding is_iso_date
  iso_date (some (str s)) =
      not (is_blank s) && (is_iso_date s && is_parsed (date_parse (s ++ "T00:00:00Z")))
  iso_date _ = false

  abbrev pub iso_date_if_present : Option Json → Bool
  unfolding iso_date
  iso_date_if_present none = true
  iso_date_if_present (some null) = true
  iso_date_if_present (some v) = iso_date (some v)

  abbrev pub geometry_ok : Option Json → Members → Bool
  geometry_ok digest geometry =
      (equals_text (get_member "type" geometry) "Polygon"
        || equals_text (get_member "type" geometry) "MultiPolygon")
      && (is_list (get_member "coordinates" geometry)
          && (is_digest digest
              && equals_text digest (sha256_hex h (h.utf8 (canonical_json codec (obj geometry))))))
    where
      is_digest : Option Json → Bool
      is_digest (some (str s)) = is_lower_hex 64 s
      is_digest _ = false

  pub district_ok : String → Members → Bool
  unfolding iso_date
  district_ok jurisdiction_id district =
      is_filled (get_member "id" district)
      && (own_jurisdiction district jurisdiction_id
          && (is_filled (get_member "name" district)
              && (is_filled (get_member "districtSlug" district)
                  && (iso_date (get_member "effectiveDate" district)
                      && (iso_date_if_present (get_member "drawnDate" district)
                          && (positive_integer (get_member "boundaryYear" district)
                              && (is_filled (get_member "source" district)
                                  && (positive_integer (get_member "srid" district)
                                      && with_object (get_member "geometryGeoJSON" district) (
                                          geometry_ok
                                            (get_member "geometrySha256" district))))))))))

  pub seat_ok : String → Members → Bool
  unfolding iso_date
  seat_ok jurisdiction_id seat =
      is_filled (get_member "id" seat)
      && (own_jurisdiction seat jurisdiction_id
          && ((equals_text (get_member "seatKind" seat) "jurisdiction_leader"
                || equals_text (get_member "seatKind" seat) "district_mla")
              && (is_filled (get_member "title" seat)
                  && (is_filled (get_member "seatHandle" seat)
                      && (iso_date (get_member "effectiveDate" seat)
                          && (positive_integer (get_member "boundaryYear" seat)
                              && (is_filled (get_member "role" seat)
                                  && (is_filled (get_member "representativeName" seat)
                                      && is_filled (get_member "source" seat)))))))))

  abbrev pub validate_payload : PlatformOpsKind → String → Members → Bool
  unfolding validate_jurisdiction_config district_ok seat_ok
  validate_payload official_seat_claim id payload =
      is_filled (get_member "seatHandle" payload) && is_filled (get_member "userId" payload)
  validate_payload official_seat_revoke id payload =
      is_filled (get_member "seatHandle" payload)
      && (filled_if_present (get_member "expectedUserId" payload)
          && filled_if_present (get_member "expectedUserHandle" payload))
  validate_payload jurisdiction_config_set id payload =
      validate_jurisdiction_config (get_member "config" payload) id
  validate_payload district_upsert id payload =
      with_object (get_member "district" payload) (district_ok id)
  validate_payload official_seat_upsert id payload =
      with_object (get_member "seat" payload) (seat_ok id)

  -- `validatePlatformOpsPayload`.
  pub validate_platform_ops_payload : PlatformOpsKind → String → Option Json → Bool
  unfolding validate_jurisdiction_config
  validate_platform_ops_payload kind id value =
      not (is_blank id) && with_object value (validate_payload kind id)

  abbrev kind_and_payload : Option PlatformOpsKind → Option Json → Option Json → Bool
  unfolding validate_platform_ops_payload
  kind_and_payload (some kind) (some (str id)) payload =
      not (str_eq id "") && validate_platform_ops_payload kind id payload
  kind_and_payload _ _ payload = false

  -- The branch of `validateContent` for `platform_ops`.
  pub validate_platform_ops : Members → Bool
  unfolding validate_platform_ops_payload
  validate_platform_ops c =
      equals_text (get_member "ds" c) "oursay/v1/platform-ops"
      && (equals_number (get_member "v" c)
          && (is_compound (get_member "adminAttestation" c)
              && (is_compound (get_member "request" c)
                  && kind_and_payload (kind_of (get_member "kind" c))
                      (get_member "jurisdictionId" c) (get_member "payload" c))))
    where
      equals_number : Option Json → Bool
      equals_number (some (num n)) = n == 1
      equals_number _ = false
