-- ===== src/Policy/Gates/Enforced.antt =====
-- Whom `assertAct` lets pass.
use oursay.Base.{
  ◌⊎◌, false, Option-cases, str_eq, str_eq_iff, and_left, and_right, ◌≡◌, ◌≢◌, ◌↔◌, refl, inl, inr,
  String, true, false, ◌&&◌, none, some, List, [], ◌∷◌, Bool-cases, arith,
}
use oursay.Schema.Types.{GatedAction}
use oursay.Policy.Jurisdiction.{
  GateActor, anyone, tiers, residency_in, official, media_accredited, platform_role, ActionGate,
  Registry, gate_for, get_jurisdiction, PlatformGateRole,
}
use oursay.Policy.Gates.{
  Accounts, includes, some_recognized, is_some, official_role, matches_actor, matches_act,
  rejection_for, rejection_for_single, is_vote, assert_act,
}

-- An element of the list.
pub data Listed {ℓ} {A : Type ℓ} (x : A) : List A → Type ℓ where
  here : {xs : List A} → Listed x (x ∷ xs)
  there : {y : A} {xs : List A} → Listed x xs → Listed x (y ∷ xs)

includes-Listed : (xs : List String) (s : String) → includes xs s ≡ true → Listed s xs
includes-Listed [] s e = absurd (cc)
includes-Listed (x ∷ xs) s e = elim (Bool-cases (str_eq x s)) [
  | inl y ↦ rw ((str_eq_iff x s).0 y) here
  | inr n ↦ let later : includes xs s ≡ true = rw n at e in there (includes-Listed xs s later)
]

Listed-includes : (xs : List String) (s : String) → Listed s xs → includes xs s ≡ true
Listed-includes [] s l = elim l [ ]
Listed-includes (x ∷ xs) s here = rw ((str_eq_iff s s).1 refl) refl
Listed-includes (x ∷ xs) s (there l) = ground (arith, Listed-includes xs s l)

-- A body of the first list that is recognized.
some_recognized-Listed :
    (recognized bodies : List String)
    → some_recognized recognized bodies ≡ true
    → (id : String) × Listed id bodies × Listed id recognized
some_recognized-Listed recognized [] e = absurd (cc)
some_recognized-Listed recognized (x ∷ xs) e = elim (Bool-cases (includes recognized x)) [
  | inl y ↦ (x, here, includes-Listed recognized x y)
  | inr n ↦
      let later : some_recognized recognized xs ≡ true = rw n at e in
      let (id, l, r) = some_recognized-Listed recognized xs later in (id, there l, r)
]

Listed-some_recognized :
    (recognized bodies : List String) (id : String)
    → Listed id bodies
    → Listed id recognized
    → some_recognized recognized bodies ≡ true
Listed-some_recognized recognized [] id l r = elim l [ ]
Listed-some_recognized recognized (x ∷ xs) id here r = rw (Listed-includes recognized id r) refl
Listed-some_recognized recognized (x ∷ xs) id (there l) r =
    ground (arith, Listed-some_recognized recognized xs id l r)

module _ (a : Accounts) (r : Registry) (user j : String) where
  -- What makes a user an actor in the jurisdiction.
  pub data IsActor : GateActor → Type 0 where
    any_user : IsActor anyone
    in_tier : {ts : List String} → Listed (a.current_tier user) ts → IsActor (tiers ts)
    resident :
        (district : String)
        → (a.current_tier user ≡ "residency_verified")
          ⊎ (a.current_tier user ≡ "electoral_validated")
        → a.viewer_district_id user j ≡ some district
        → IsActor residency_in
    officer : a.has_official_role user j ≡ true → IsActor official
    media :
        (body : String)
        → Listed body (a.list_valid_body_ids user)
        → Listed body (get_jurisdiction (some j) r).recognized_accreditation_body_ids
        → IsActor media_accredited
    staff : {p : PlatformGateRole} → a.has_platform_role user p ≡ true → IsActor (platform_role p)

  matches_actor-IsActor : (x : GateActor) → matches_actor a r user x j ≡ true → IsActor x
  unfolding matches_actor
  matches_actor-IsActor anyone e = any_user
  matches_actor-IsActor (tiers ts) e = in_tier (includes-Listed ts (a.current_tier user) e)
  matches_actor-IsActor residency_in e = elim (Option-cases (a.viewer_district_id user j)) [
    | inl no_district ↦
        let stuck : is_some (a.viewer_district_id user j) ≡ true = ground (arith, e) in
        let stuck' : false ≡ true = rw no_district at stuck in absurd (cc)
    | inr (d, lives) ↦ elim (Bool-cases (str_eq (a.current_tier user) "residency_verified")) [
      | inl y ↦ resident d (inl ((str_eq_iff (a.current_tier user) "residency_verified").0 y)) lives
      | inr n ↦
          let y : str_eq (a.current_tier user) "electoral_validated" ≡ true =
            ground (arith, e, n) in
          resident d (inr ((str_eq_iff (a.current_tier user) "electoral_validated").0 y)) lives
    ]
  ]
  matches_actor-IsActor official e = officer e
  matches_actor-IsActor media_accredited e =
      let (body, l, known) =
        some_recognized-Listed (get_jurisdiction (some j) r).recognized_accreditation_body_ids
          (a.list_valid_body_ids user) e in
      media body l known
  matches_actor-IsActor (platform_role p) e = staff e

  IsActor-matches_actor : (x : GateActor) → IsActor x → matches_actor a r user x j ≡ true
  unfolding matches_actor
  IsActor-matches_actor _ any_user = refl
  IsActor-matches_actor _ (in_tier {ts = ts} l) = Listed-includes ts (a.current_tier user) l
  IsActor-matches_actor _ (resident d (inl e) lives) =
      rw ((str_eq_iff (a.current_tier user) "residency_verified").1 e, lives) refl
  IsActor-matches_actor _ (resident d (inr e) lives) =
      let y = (str_eq_iff (a.current_tier user) "electoral_validated").1 e in
      let known : is_some (a.viewer_district_id user j) ≡ true = rw lives refl in
      ground (arith, y, known)
  IsActor-matches_actor _ (officer e) = e
  IsActor-matches_actor _ (media body l known) =
      Listed-some_recognized (get_jurisdiction (some j) r).recognized_accreditation_body_ids
        (a.list_valid_body_ids user) body l known
  IsActor-matches_actor _ (staff e) = e

  -- The user is one of these actors.
  pub record IsOneOf (actors : List GateActor) : Type 0 where
    pub actor : GateActor
    pub listed : Listed actor actors
    pub is_actor : IsActor actor

  matches_act-IsOneOf :
      (actors : List GateActor) → matches_act a r user actors j ≡ true → IsOneOf actors
  unfolding matches_act
  matches_act-IsOneOf [] e = absurd (cc)
  matches_act-IsOneOf (x ∷ xs) e = elim (Bool-cases (matches_actor a r user x j)) [
    | inl t ↦ record { actor = x; listed = here; is_actor = matches_actor-IsActor x t }
    | inr f ↦
        let found = matches_act-IsOneOf xs (ground arith) in
        record { actor = found.actor; listed = there found.listed; is_actor = found.is_actor }
  ]

  Listed-matches_act :
      (actor : GateActor) (actors : List GateActor)
      → Listed actor actors
      → matches_actor a r user actor j ≡ true
      → matches_act a r user actors j ≡ true
  unfolding matches_act
  Listed-matches_act actor [] l m = elim l [ ]
  Listed-matches_act actor (x ∷ xs) here m = rw m refl
  Listed-matches_act actor (x ∷ xs) (there l) m = ground (arith, Listed-matches_act actor xs l m)

  IsOneOf-matches_act :
      (actors : List GateActor) → IsOneOf actors → matches_act a r user actors j ≡ true
  IsOneOf-matches_act actors o =
      Listed-matches_act o.actor actors o.listed (IsActor-matches_actor o.actor o.is_actor)

  -- The action is a vote, and the user is one of those whom the gate excludes.
  pub record IsExcluded (gated : GatedAction) (gate : ActionGate) : Type 0 where
    pub voting : gated ≡ GatedAction.vote
    pub excluded : IsOneOf gate.deny

  is_vote_eq : (gated : GatedAction) → is_vote gated ≡ true → gated ≡ GatedAction.vote
  is_vote_eq GatedAction.vote e = refl
  is_vote_eq GatedAction.post e = absurd (cc)
  is_vote_eq GatedAction.petition e = absurd (cc)
  is_vote_eq GatedAction.poll e = absurd (cc)
  is_vote_eq GatedAction.result e = absurd (cc)
  is_vote_eq GatedAction.comment e = absurd (cc)
  is_vote_eq GatedAction.reaction e = absurd (cc)
  is_vote_eq GatedAction.petition_signature e = absurd (cc)

  -- The gate of an action lets a user pass exactly if the user is one of the actors that may act,
  -- by tier, residence, office, accreditation or role, and the action is no vote from which the user
  -- is excluded as one of the actors whom the gate denies.
  pub assert_act_iff :
      (gated : GatedAction)
      → (assert_act a r user gated j ≡ none) ↔ (
          IsOneOf (gate_for gated (some j) r).act
          × (¬ IsExcluded gated (gate_for gated (some j) r)))
  unfolding assert_act
  assert_act_iff gated =
      let gate = gate_for gated (some j) r in
      (
        λ e.
            let passed : (is_vote gated && matches_act a r user gate.deny j) ≡ false =
              ground (arith, e) in
            (
              matches_act-IsOneOf gate.act (ground (arith, e)),
              λ x.
                  let voting : is_vote gated ≡ true = rw (x.voting) refl in
                  let denied = IsOneOf-matches_act gate.deny x.excluded in
                  let stuck : true ≡ false = rw (voting, denied) at passed in absurd (cc),
            ),
        λ p.
            let acts = IsOneOf-matches_act gate.act p.0 in
            elim (Bool-cases (is_vote gated && matches_act a r user gate.deny j)) [
              | inr n ↦ rw (n, acts) refl
              | inl y ↦ absurd (
                  p.1 (record {
                    voting = is_vote_eq gated (and_left (is_vote gated) _ y);
                    excluded = matches_act-IsOneOf gate.deny (and_right (is_vote gated) _ y);
                  }))
            ],
      )

  rejection_for-other : (actors : List GateActor) → rejection_for a r actors ≢ official_role
  unfolding rejection_for rejection_for_single
  rejection_for-other [] e = absurd (cc)
  rejection_for-other (tiers ts ∷ []) e = absurd (cc)
  rejection_for-other (residency_in ∷ []) e = absurd (cc)
  rejection_for-other (official ∷ []) e = absurd (cc)
  rejection_for-other (media_accredited ∷ []) e = absurd (cc)
  rejection_for-other (platform_role p ∷ []) e = absurd (cc)
  rejection_for-other (anyone ∷ []) e = absurd (cc)
  rejection_for-other (x ∷ y ∷ rest) e = absurd (cc)

  -- The reason "official_role" is given exactly to a voter whom the gate excludes.
  pub assert_act-IsExcluded :
      (gated : GatedAction)
      → (assert_act a r user gated j ≡ some official_role)
        ↔ IsExcluded gated (gate_for gated (some j) r)
  unfolding assert_act
  assert_act-IsExcluded gated = (
    λ e.
        let other = rejection_for-other (gate_for gated (some j) r).act in
        record {
          voting = is_vote_eq gated (ground (arith, other));
          excluded = matches_act-IsOneOf (gate_for gated (some j) r).deny (ground (arith, other));
        },
    λ x.
        let voting : is_vote gated ≡ true = rw (x.voting) refl in
        ground (arith, voting, IsOneOf-matches_act (gate_for gated (some j) r).deny x.excluded),
  )
