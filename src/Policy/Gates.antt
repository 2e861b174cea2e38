-- ===== src/Policy/Gates.antt =====
-- `GateService` of api/src/services/gate.service.ts. What the account services answer about a user
-- is a parameter of the model.
pub mod Enforced
mod Examples
use oursay.Base.{
  ℕ, String, Bool, true, false, ◌&&◌, ◌||◌, Option, none, some, List, [], ◌∷◌, str_eq,
  if◌then◌else◌,
}
use oursay.Schema.Types.{GatedAction, vote}
use oursay.Policy.Jurisdiction.{
  GateActor, anyone, tiers, residency_in, official, media_accredited, platform_role,
  PlatformGateRole, ActionGate, Registry, JurisdictionConfig, get_jurisdiction, gate_for,
}

-- `KycService.currentTier`, `ParticipantGeoService.viewerDistrictId`, `MembershipRepo.hasRole` with
-- the role "official", `MediaAccreditationRepo.listValidBodyIds` and `PlatformRoleRepo.hasRole`.
pub record Accounts : Type 0 where
  pub current_tier : String → String
  pub viewer_district_id : String → String → Option String
  pub has_official_role : String → String → Bool
  pub list_valid_body_ids : String → List String
  pub has_platform_role : String → PlatformGateRole → Bool

pub data GateDenyReason : Type 0 where
  tier residency role media official_role : GateDenyReason

abbrev pub is_some : Option String → Bool
is_some none = false
is_some (some s) = true

-- `xs.includes(s)`.
abbrev pub includes : List String → String → Bool
includes [] s = false
includes (x ∷ xs) s = str_eq x s || includes xs s

-- `bodies.some((id) => recognized.includes(id))`.
abbrev pub some_recognized : List String → List String → Bool
some_recognized recognized [] = false
some_recognized recognized (id ∷ rest) = includes recognized id || some_recognized recognized rest

abbrev pub is_vote : GatedAction → Bool
is_vote GatedAction.vote = true
is_vote _ = false

module _ (a : Accounts) (r : Registry) where
  pub matches_actor : String → GateActor → String → Bool
  matches_actor user anyone j = true
  matches_actor user (tiers ts) j = includes ts (a.current_tier user)
  matches_actor user residency_in j =
      (str_eq (a.current_tier user) "residency_verified"
        || str_eq (a.current_tier user) "electoral_validated")
      && is_some (a.viewer_district_id user j)
  matches_actor user official j = a.has_official_role user j
  matches_actor user media_accredited j =
      some_recognized (get_jurisdiction (some j) r).recognized_accreditation_body_ids
        (a.list_valid_body_ids user)
  matches_actor user (platform_role p) j = a.has_platform_role user p

  pub matches_act : String → List GateActor → String → Bool
  unfolding matches_actor
  matches_act user [] j = false
  matches_act user (actor ∷ rest) j = matches_actor user actor j || matches_act user rest j

  pub rejection_for_single : GateActor → GateDenyReason
  rejection_for_single (tiers ts) = tier
  rejection_for_single residency_in = residency
  rejection_for_single official = role
  rejection_for_single media_accredited = media
  rejection_for_single (platform_role p) = role
  rejection_for_single anyone = role

  pub rejection_for : List GateActor → GateDenyReason
  unfolding rejection_for_single
  rejection_for (actor ∷ []) = rejection_for_single actor
  rejection_for _ = role

  -- `none`: the call returns; otherwise the reason that the rejection carries.
  pub assert_act : String → GatedAction → String → Option GateDenyReason
  unfolding matches_act rejection_for
  assert_act user gated j =
      let gate = gate_for gated (some j) r in
      if is_vote gated && matches_act user gate.deny j
      then some official_role
      else if matches_act user gate.act j
      then none
      else some (rejection_for gate.act)
