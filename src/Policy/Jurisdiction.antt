-- ===== src/Policy/Jurisdiction.antt =====
-- The registry of jurisdictions and their gates, public-record/src/jurisdiction.ts.
use oursay.Base.{
  ℕ, String, Bool, true, false, Option, none, some, List, [], ◌∷◌, str_eq, if◌then◌else◌,
}
use oursay.Schema.Types.{GatedAction, RecordType, SignScheme, civic, platform_ops, webauthn_es256}

pub data SignMethod : Type 0 where
  quick passkey : SignMethod

pub data PlatformGateRole : Type 0 where
  admin dev moderator auditor support : PlatformGateRole

pub data GateActor : Type 0 where
  anyone : GateActor
  tiers : List String → GateActor
  residency_in : GateActor
  official : GateActor
  media_accredited : GateActor
  platform_role : PlatformGateRole → GateActor

-- `act` as a list: a single actor is a list of one.
pub record ActionGate : Type 0 where
  pub act : List GateActor
  pub sign_min : SignMethod
  pub official_count : Option (List GateActor)
  pub deny : List GateActor

-- A deadline: the empty text, which is none, or a time in milliseconds.
pub data Deadline : Type 0 where
  empty : Deadline
  until : ℕ → Deadline

pub record JurisdictionRules : Type 0 where
  pub allow_change : Option Bool
  pub allow_revoke : Option Bool
  pub default_deadline : Option Deadline
  pub default_scheme : Option SignScheme

-- `JurisdictionContentLimits`: an absent cap is no cap.
pub record TextCaps : Type 0 where
  pub title : Option ℕ
  pub body : Option ℕ

pub record PetitionCaps : Type 0 where
  pub title : Option ℕ
  pub text : Option ℕ

pub record PollCaps : Type 0 where
  pub question : Option ℕ
  pub option : Option ℕ
  pub max_options : Option ℕ
  pub description : Option ℕ

pub record ContentLimits : Type 0 where
  pub post : Option TextCaps
  pub comment : Option (Option ℕ)
  pub petition : Option PetitionCaps
  pub poll : Option PollCaps

pub record JurisdictionConfig : Type 0 where
  pub id : String
  pub rules : JurisdictionRules
  pub gates : Option (GatedAction → ActionGate)
  pub content_limits : Option ContentLimits
  pub recognized_accreditation_body_ids : List String

-- The router and the deployment's default.
pub record Registry : Type 0 where
  pub registered : List JurisdictionConfig
  pub deployment : JurisdictionConfig

pub find_jurisdiction : String → List JurisdictionConfig → Option JurisdictionConfig
find_jurisdiction id [] = none
find_jurisdiction id (j ∷ rest) =
    let rest' = find_jurisdiction id rest in if str_eq j.id id then some j else rest'

pub register_jurisdiction : JurisdictionConfig → Registry → Registry
register_jurisdiction j r = record r { registered = j ∷ r.registered }

abbrev pub or_default_id : Option String → Registry → String
or_default_id none r = r.deployment.id
or_default_id (some id) r = id

-- `getJurisdiction`: the deployment's default stands in for an id that is not registered.
unfoldable pub get_jurisdiction : Option String → Registry → JurisdictionConfig
unfolding find_jurisdiction
get_jurisdiction id r = elim (find_jurisdiction (or_default_id id r) r.registered) [
  | none ↦ r.deployment
  | some j ↦ j
]

pub has_jurisdiction : String → Registry → Bool
unfolding find_jurisdiction
has_jurisdiction id r = elim (find_jurisdiction id r.registered) [ none ↦ false | some j ↦ true ]

-- `requireJurisdiction`: fail-closed.
pub require_jurisdiction : String → Registry → Option JurisdictionConfig
unfolding find_jurisdiction
require_jurisdiction id r = find_jurisdiction id r.registered

pub action_for_type : RecordType → Option GatedAction
action_for_type (civic a) = some a
action_for_type platform_ops = none

pub default_gates : GatedAction → ActionGate
default_gates gated = record {
  act = anyone ∷ [];
  sign_min = quick;
  official_count = none;
  deny = [];
}

unfoldable pub gate_for : GatedAction → Option String → Registry → ActionGate
unfolding get_jurisdiction default_gates
gate_for gated id r = elim (get_jurisdiction id r).gates [
  | none ↦ default_gates gated
  | some gates ↦ gates gated
]

abbrev pub scheme_of : SignMethod → Option SignScheme
scheme_of passkey = some webauthn_es256
scheme_of quick = none

unfoldable pub required_sign_scheme : RecordType → Option String → Registry → Option SignScheme
unfolding get_jurisdiction
required_sign_scheme platform_ops id r = none
required_sign_scheme (civic gated) id r =
    let j = get_jurisdiction id r in
    elim j.gates [ none ↦ j.rules.default_scheme | some gates ↦ scheme_of (gates gated).sign_min ]
