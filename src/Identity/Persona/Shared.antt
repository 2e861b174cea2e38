-- ===== src/Identity/Persona/Shared.antt =====
-- The personas that `ensureThreadPersona` gives: one jurisdiction for each thread, and one persona
-- for all the devices of a user.
use mathlib.Core.Path.{subst}
use oursay.Base.{
  ◌≡◌, refl, sym, ap, ◌∙◌, inl, inr, String, Bool, true, not, ◌&&◌, ◌||◌, Option, none, some, List,
  [], ◌∷◌, all, All, str_eq, str_eq_iff, Bool-cases, Option-cases, some_inj, ◌>>=◌, >>=-eq-some,
  arith, and_left, and_right,
}
use oursay.Identity.Tables.{
  ThreadKey, Keys, find, has, upsert, update_where, of_user_thread, get_thread_binding,
}
use oursay.Identity.Persona.{
  Join, join_key, join_binding, commitment_agrees, returning, peer_agrees, may_join, of_pubkey,
  joined, first_join, ensure_thread_persona,
}

-- The keys of every thread have one jurisdiction.
abbrev pub IsOf : String → String → ThreadKey → Type 0
IsOf thread jurisdiction t = t.thread_id ≡ thread → t.jurisdiction ≡ jurisdiction

unfoldable pub OneJurisdiction : Keys → Type 0
OneJurisdiction k =
    (thread : String) → (jurisdiction : String) × All (IsOf thread jurisdiction) k.thread_keys

all-IsOf :
    (j : Join) (thread : String) (keys : List ThreadKey)
    → j.thread_id ≡ thread
    → all (peer_agrees j) keys ≡ true
    → All (IsOf thread j.jurisdiction) keys
all-IsOf j thread [] name e = tt
all-IsOf j thread (t ∷ rest) name e =
    let e' : (peer_agrees j t && all (peer_agrees j) rest) ≡ true = e in
    let first : (not (str_eq t.thread_id j.thread_id) || str_eq t.jurisdiction j.jurisdiction)
        ≡ true =
      and_left (peer_agrees j t) (all (peer_agrees j) rest) e' in
    (
      λ same.
          let own : str_eq t.thread_id j.thread_id ≡ true =
            (str_eq_iff t.thread_id j.thread_id).1 (same ∙ sym name) in
          (str_eq_iff t.jurisdiction j.jurisdiction).0 (ground (arith, first, own)),
      all-IsOf j thread rest name (and_right (peer_agrees j t) (all (peer_agrees j) rest) e'),
    )

-- What a call that returned did: nothing, for a user with a persona, or a first join.
pub data Joins (sign_binding : String → Option String) (j : Join) (k : Keys) (out : Keys × String)
    : Type 0 where
  returns :
      (t : ThreadKey)
      → find (of_user_thread j.user_id j.thread_id) k.thread_keys ≡ some t
      → (str_eq t.jurisdiction j.jurisdiction
          && commitment_agrees j.commitment (get_thread_binding t.pubkey k))
        ≡ true
      → (k, t.pubkey) ≡ out
      → Joins sign_binding j k out
  enters :
      (sig : String)
      → may_join j k ≡ true
      → (joined j sig k, j.proposed_pubkey) ≡ out
      → Joins sign_binding j k out

pub ensure-Joins :
    (sign_binding : String → Option String) (j : Join) (k : Keys) (out : Keys × String)
    → ensure_thread_persona sign_binding j k ≡ some out
    → Joins sign_binding j k out
unfolding ensure_thread_persona returning first_join
ensure-Joins sign_binding j k out e =
    elim (Option-cases (find (of_user_thread j.user_id j.thread_id) k.thread_keys)) [
      | inr (t, found) ↦
          let agrees =
            str_eq t.jurisdiction j.jurisdiction
            && commitment_agrees j.commitment (get_thread_binding t.pubkey k) in
          let e' : returning j t k ≡ some out = rw (found, ensure_thread_persona) at e in
          elim (Bool-cases agrees) [
            | inl y ↦
                let done : some (k, t.pubkey) ≡ some out = rw (y, returning) at e' in
                returns t found y (some_inj done)
            | inr n ↦ let stuck : none ≡ some out = rw (n, returning) at e' in absurd (cc)
          ]
      | inl missing ↦
          let e' : first_join sign_binding j k ≡ some out =
            rw (missing, ensure_thread_persona) at e in
          elim (Bool-cases (may_join j k)) [
            | inl y ↦
                let signed : (sign_binding j.proposed_pubkey
                      >>= (λ (s : String). some (joined j s k, j.proposed_pubkey)))
                    ≡ some out =
                  rw (y, first_join) at e' in
                let (sig, s, done) = >>=-eq-some (sign_binding j.proposed_pubkey) _ signed in
                enters sig y (some_inj done)
            | inr n ↦ let stuck : none ≡ some out = rw (n, first_join) at e' in absurd (cc)
          ]
    ]

joined-OneJurisdiction :
    (j : Join) (sig : String) (k : Keys)
    → all (peer_agrees j) k.thread_keys ≡ true
    → OneJurisdiction k
    → OneJurisdiction (joined j sig k)
unfolding OneJurisdiction
joined-OneJurisdiction j sig k agree one thread = elim (Bool-cases (str_eq j.thread_id thread)) [
  | inl y ↦
      let name = (str_eq_iff j.thread_id thread).0 y in
      (j.jurisdiction, ((λ same. refl), all-IsOf j thread k.thread_keys name agree))
  | inr n ↦
      let (jurisdiction, others) = one thread in
      (
        jurisdiction,
        ((λ same. let y = (str_eq_iff j.thread_id thread).1 same in absurd (cc (y, n))), others),
      )
]

-- A call that returns keeps the keys of every thread of one jurisdiction.
pub ensure_thread_persona-OneJurisdiction :
    (sign_binding : String → Option String) (j : Join) (k k' : Keys) (persona : String)
    → ensure_thread_persona sign_binding j k ≡ some (k', persona)
    → OneJurisdiction k
    → OneJurisdiction k'
ensure_thread_persona-OneJurisdiction sign_binding j k k' persona e one =
    elim (ensure-Joins sign_binding j k (k', persona) e) [
      | returns t found agrees same ↦
          let kept : k ≡ k' = ap (λ (o : Keys × String). o.0) same in rw (← kept) one
      | enters sig may same ↦
          let grown : joined j sig k ≡ k' = ap (λ (o : Keys × String). o.0) same in
          let others =
            has
              (λ (t : ThreadKey).
                str_eq t.pubkey j.proposed_pubkey || str_eq t.persona_name j.persona_name)
              k.thread_keys in
          let agree = and_left (all (peer_agrees j) k.thread_keys) (not others) may in
          rw (← grown) (joined-OneJurisdiction j sig k agree one)
    ]

eq_refl : (s : String) → str_eq s s ≡ true
eq_refl s = (str_eq_iff s s).1 refl

find-update_where {ℓ} :
    {A : Type ℓ} (p : A → Bool) (row : A) (rows : List A)
    → p row ≡ true
    → has p rows ≡ true
    → find p (update_where p (λ old. row) rows) ≡ some row
find-update_where p row [] own e = absurd (cc)
find-update_where p row (x ∷ xs) own e = elim (Bool-cases (p x)) [
  | inl y ↦ rw (y, own) refl
  | inr n ↦
      let later : has p xs ≡ true = rw n at e in rw (n, n) (find-update_where p row xs own later)
]

find-upsert {ℓ} :
    {A : Type ℓ} (p : A → Bool) (row : A) (rows : List A)
    → p row ≡ true
    → find p (upsert p row rows) ≡ some row
find-upsert p row rows own = elim (Bool-cases (has p rows)) [
  | inr n ↦ rw (n, own) refl
  | inl y ↦ rw y (find-update_where p row rows own y)
]

-- The persona of a join is found again.
again-returning :
    (j : Join) (other : String) (t : ThreadKey) (k : Keys)
    → (str_eq t.jurisdiction j.jurisdiction
        && commitment_agrees j.commitment (get_thread_binding t.pubkey k))
      ≡ true
    → returning (record j { proposed_pubkey = other }) t k ≡ some (k, t.pubkey)
unfolding returning
again-returning j other t k agrees = rw agrees refl

-- If a call returns a persona, then a call with the same user, thread, jurisdiction and commitment,
-- from a device that proposes any key, returns the same persona and leaves the tables as they are.
pub ensure_thread_persona_again :
    (sign_binding sign_again : String → Option String) (j : Join) (other : String) (k k' : Keys)
    (persona : String)
    → ensure_thread_persona sign_binding j k ≡ some (k', persona)
    → ensure_thread_persona sign_again (record j { proposed_pubkey = other }) k'
      ≡ some (k', persona)
unfolding ensure_thread_persona get_thread_binding
ensure_thread_persona_again sign_binding sign_again j other k k' persona e =
    elim (ensure-Joins sign_binding j k (k', persona) e) [
      | returns t found agrees same ↦
          let at_k : ensure_thread_persona sign_again (record j { proposed_pubkey = other }) k
              ≡ some (k, t.pubkey) =
            rw (found, ensure_thread_persona) (again-returning j other t k agrees) in
          subst
            (λ (o : Keys × String).
              ensure_thread_persona sign_again (record j { proposed_pubkey = other }) o.0 ≡ some o)
            same at_k
      | enters sig may same ↦
          let k1 = joined j sig k in
          let own : of_user_thread j.user_id j.thread_id (join_key j) ≡ true =
            rw (eq_refl j.user_id, eq_refl j.thread_id) refl in
          let bound : get_thread_binding j.proposed_pubkey k1 ≡ some (join_binding j sig) =
            find-upsert (of_pubkey j.proposed_pubkey) (join_binding j sig) k.thread_bindings
              (eq_refl j.proposed_pubkey) in
          let agrees : (str_eq j.jurisdiction j.jurisdiction
                && commitment_agrees j.commitment (get_thread_binding j.proposed_pubkey k1))
              ≡ true =
            rw (bound, eq_refl j.jurisdiction, eq_refl j.commitment) refl in
          let at_k : ensure_thread_persona sign_again (record j { proposed_pubkey = other }) k1
              ≡ some (k1, j.proposed_pubkey) =
            rw (own, ensure_thread_persona) (again-returning j other (join_key j) k1 agrees) in
          subst
            (λ (o : Keys × String).
              ensure_thread_persona sign_again (record j { proposed_pubkey = other }) o.0 ≡ some o)
            same at_k
    ]
