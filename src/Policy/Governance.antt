-- ===== src/Policy/Governance.antt =====
-- The rules of a poll or a petition, public-record/src/governance.ts. Times are milliseconds;
-- `date_parse` is `Date.parse`, and `none` its NaN.
pub mod Overlay
use oursay.Base.{
  ℕ, String, Bool, true, false, not, ◌&&◌, Option, none, some, ltb, ◌==◌, str_eq, if◌then◌else◌,
}
use oursay.Crypto.Canonical.{Json, null, bool, num, str, arr, obj, get_member}
use oursay.Policy.Jurisdiction.{
  Deadline, empty, until, JurisdictionRules, Registry, get_jurisdiction,
}

-- The rules that the content of an entity carries; those that only record an area are left out.
pub record EntityRules : Type 0 where
  pub deadline : Option Deadline
  pub allow_change : Option Bool
  pub allow_revoke : Option Bool

-- The rules in effect.
pub record ResolvedRules : Type 0 where
  pub deadline : Option Deadline
  pub allow_change : Bool
  pub allow_revoke : Bool

pub record EntityState : Type 0 where
  pub is_deleted : Bool
  pub rules : EntityRules

-- `??`.
abbrev pub or_else {ℓ} : {A : Type ℓ} → Option A → Option A → Option A
or_else (some x) o = some x
or_else none o = o

abbrev pub or_default {ℓ} : {A : Type ℓ} → Option A → A → A
or_default (some x) d = x
or_default none d = d

-- `Boolean(value)`.
abbrev pub truthy : Json → Bool
truthy null = false
truthy (bool b) = b
truthy (num n) = not (n == 0)
truthy (str s) = not (str_eq s "")
truthy (arr xs) = true
truthy (obj ms) = true

-- `null` is absent for `??`.
abbrev pub flag : Option Json → Option Bool
flag none = none
flag (some null) = none
flag (some (bool b)) = some b
flag (some v) = some (truthy v)

-- The time 0 stands for a date that is none: no time is before either of them.
abbrev pub time_or_zero : Option ℕ → ℕ
time_or_zero none = 0
time_or_zero (some t) = t

abbrev pub deadline_of : (String → Option ℕ) → Option Json → Option Deadline
deadline_of date_parse (some (str s)) =
    if str_eq s "" then some empty else some (until (time_or_zero (date_parse s)))
deadline_of date_parse _ = none

abbrev pub own_rules : (String → Option ℕ) → Option Json → EntityRules
own_rules date_parse (some (obj rules)) = record {
  deadline = deadline_of date_parse (get_member "deadline" rules);
  allow_change = flag (get_member "allowChange" rules);
  allow_revoke = flag (get_member "allowRevoke" rules);
}
own_rules date_parse _ = record { deadline = none; allow_change = none; allow_revoke = none }

-- `rulesOf`. A deadline is a text, as its type says.
unfoldable pub rules_of : (String → Option ℕ) → Option Json → EntityRules
rules_of date_parse (some (obj content)) = own_rules date_parse (get_member "rules" content)
rules_of date_parse _ = own_rules date_parse none

unfoldable pub resolve_rules : JurisdictionRules → EntityRules → ResolvedRules
resolve_rules base over = record {
  deadline = or_else over.deadline base.default_deadline;
  allow_change = or_default (or_else over.allow_change base.allow_change) true;
  allow_revoke = or_default (or_else over.allow_revoke base.allow_revoke) true;
}

unfoldable pub within_deadline : Option Deadline → ℕ → Bool
within_deadline none now = true
within_deadline (some empty) now = true
within_deadline (some (until t)) now = ltb now t

unfoldable pub can_change_vote : Option EntityState → ℕ → Option String → Registry → Bool
unfolding resolve_rules within_deadline
can_change_vote none now id r = false
can_change_vote (some poll) now id r =
    let rules = resolve_rules (get_jurisdiction id r).rules poll.rules in
    not poll.is_deleted && (rules.allow_change && within_deadline rules.deadline now)

unfoldable pub can_revoke_signature : Option EntityState → ℕ → Option String → Registry → Bool
unfolding resolve_rules within_deadline
can_revoke_signature none now id r = false
can_revoke_signature (some petition) now id r =
    let rules = resolve_rules (get_jurisdiction id r).rules petition.rules in
    not petition.is_deleted && (rules.allow_revoke && within_deadline rules.deadline now)
