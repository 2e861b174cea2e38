-- ===== src/Policy/Gates/Examples.antt =====
-- A jurisdiction in which officials may not vote, and what it says to an official and to another.
use oursay.Base.{◌≡◌, ◌↔◌, refl, true, false, Option, none, some, [], ◌∷◌, str_eq}
use oursay.Schema.Types.{vote}
use oursay.Policy.Jurisdiction.{
  anyone, official, quick, until, ActionGate, Registry, JurisdictionConfig, JurisdictionRules,
  gate_for, get_jurisdiction,
}
use oursay.Policy.Governance.{EntityState, can_change_vote, resolve_rules, within_deadline}
use oursay.Policy.Gates.{Accounts, official_role, assert_act}
use oursay.Policy.Gates.Enforced.{IsOneOf, IsExcluded, assert_act_iff, assert_act-IsExcluded}

abbrev accounts : Accounts
accounts = record {
  current_tier = λ user. "registered";
  viewer_district_id = λ user j. none;
  has_official_role = λ user j. str_eq user "mla";
  list_valid_body_ids = λ user. [];
  has_platform_role = λ user p. false;
}

abbrev gate : ActionGate
gate = record { act = anyone ∷ []; sign_min = quick; official_count = none; deny = official ∷ [] }

abbrev rules : JurisdictionRules
rules = record {
  allow_change = some true;
  allow_revoke = none;
  default_deadline = some (until 900);
  default_scheme = none;
}

abbrev alberta : JurisdictionConfig
alberta = record {
  id = "alberta";
  rules = rules;
  gates = some (λ gated. gate);
  content_limits = none;
  recognized_accreditation_body_ids = [];
}

abbrev registry : Registry
registry = record { registered = alberta ∷ []; deployment = alberta }

official_is_excluded : assert_act accounts registry "mla" vote "alberta" ≡ some official_role
unfolding assert_act gate_for
official_is_excluded = refl

assert_act_iff_example : (assert_act accounts registry "voter" vote "alberta" ≡ none) ↔ (
    IsOneOf accounts registry "voter" "alberta" (gate_for vote (some "alberta") registry).act
    × (¬ IsExcluded accounts registry "voter" "alberta" vote
        (gate_for vote (some "alberta") registry)))
assert_act_iff_example = assert_act_iff accounts registry "voter" "alberta" vote

assert_act-IsExcluded_example :
    (assert_act accounts registry "mla" vote "alberta" ≡ some official_role)
    ↔ IsExcluded accounts registry "mla" "alberta" vote (gate_for vote (some "alberta") registry)
assert_act-IsExcluded_example = assert_act-IsExcluded accounts registry "mla" "alberta" vote

abbrev poll : Option EntityState
poll = some (record {
  is_deleted = false;
  rules = record { deadline = none; allow_change = none; allow_revoke = none };
})

before_deadline : can_change_vote poll 899 (some "alberta") registry ≡ true
unfolding can_change_vote resolve_rules within_deadline get_jurisdiction
before_deadline = refl

at_deadline : can_change_vote poll 900 (some "alberta") registry ≡ false
unfolding can_change_vote resolve_rules within_deadline get_jurisdiction
at_deadline = refl
