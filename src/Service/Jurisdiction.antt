-- ===== src/Service/Jurisdiction.antt =====
-- `resolveThreadJurisdiction` of public-record/src/private/store.ts: the jurisdiction of a thread,
-- on the paths that write. `none` is a thrown exception, `some none` the null that it returns. What
-- `getEntityAudienceJurisdiction` reads from the projection of audiences is an argument, and so is
-- what PostgreSQL takes for a UUID: the query of the entity throws on another text.
use oursay.Base.{
  ◌≡◌, refl, sym, ap, ◌∙◌, inl, inr, String, Bool, true, false, Option, none, some, List, [], ◌∷◌,
  all, All, All-all, str_eq, str_eq_iff, if◌then◌else◌, Bool-cases, some_inj, ◌>>=◌, arith,
  and_left, and_right,
}
use oursay.Ledger.Store.{StoredTx, filter}
use oursay.Identity.Envelope.{given}
use oursay.Identity.Tables.{ThreadKey, Keys, find, of_user_thread, get_thread_key}
use oursay.Identity.Persona.{Join, join_key, joined, ensure_thread_persona}
use oursay.Identity.Persona.Shared.{
  IsOf, OneJurisdiction, returns, enters, ensure-Joins, ensure_thread_persona-OneJurisdiction,
}
use oursay.Service.State.{get_entity_state}

abbrev pub of_thread : String → ThreadKey → Bool
of_thread thread_id t = str_eq t.thread_id thread_id

abbrev pub in_jurisdiction : String → ThreadKey → Bool
in_jurisdiction jurisdiction t = str_eq t.jurisdiction jurisdiction

-- The only distinct jurisdiction of the rows.
abbrev pub single_jurisdiction : List ThreadKey → Option (Option String)
single_jurisdiction [] = some none
single_jurisdiction (t ∷ rest) =
    if all (in_jurisdiction t.jurisdiction) rest then some (some t.jurisdiction) else none

-- The jurisdiction of the author, for a row with no parent.
abbrev pub author_jurisdiction : Option StoredTx → Keys → Option String
author_jurisdiction none k = none
author_jurisdiction (some root) k = elim root.parent_id [
  | some parent ↦ none
  | none ↦ get_thread_key root.author_pubkey k >>= (λ t. given (some t.jurisdiction))
]

abbrev pub first_of : Option String → Option String → List ThreadKey → Option (Option String)
first_of (some j) audience ts = some (some j)
first_of none (some j) ts = some (some j)
first_of none none ts = single_jurisdiction ts

unfoldable pub resolve_thread_jurisdiction :
    (String → Bool) → String → Option String → List StoredTx → Keys → Option (Option String)
resolve_thread_jurisdiction is_uuid thread_id audience rows k =
    if is_uuid thread_id
    then first_of (author_jurisdiction (get_entity_state thread_id rows) k) (given audience)
        (filter (of_thread thread_id) k.thread_keys)
    else none

abbrev pub Is : String → ThreadKey → Type 0
Is jurisdiction t = t.jurisdiction ≡ jurisdiction

filter-Is :
    (thread jurisdiction : String) (ts : List ThreadKey)
    → All (IsOf thread jurisdiction) ts
    → All (Is jurisdiction) (filter (of_thread thread) ts)
filter-Is thread jurisdiction [] a = tt
filter-Is thread jurisdiction (t ∷ rest) (own, others) =
    let ih = filter-Is thread jurisdiction rest others in
    elim (Bool-cases (str_eq t.thread_id thread)) [
      | inl y ↦ rw y (own ((str_eq_iff t.thread_id thread).0 y), ih)
      | inr n ↦ rw n ih
    ]

single_jurisdiction-Is :
    (jurisdiction : String) (t : ThreadKey) (rest : List ThreadKey)
    → All (Is jurisdiction) (t ∷ rest)
    → single_jurisdiction (t ∷ rest) ≡ some (some jurisdiction)
single_jurisdiction-Is jurisdiction t rest (own, others) =
    let same : all (in_jurisdiction jurisdiction) rest ≡ true =
      All-all (in_jurisdiction jurisdiction) (λ r e. (str_eq_iff r.jurisdiction jurisdiction).1 e)
        rest others in
    rw (own, same) refl

-- A user who has a key in the thread: the rows of the thread are not none.
found-single :
    (user thread jurisdiction : String) (ts : List ThreadKey) (t : ThreadKey)
    → find (of_user_thread user thread) ts ≡ some t
    → All (Is jurisdiction) (filter (of_thread thread) ts)
    → single_jurisdiction (filter (of_thread thread) ts) ≡ some (some jurisdiction)
found-single user thread jurisdiction [] t e a = absurd (cc)
found-single user thread jurisdiction (x ∷ xs) t e a =
    elim (Bool-cases (str_eq x.thread_id thread)) [
      | inl y ↦
          let here : All (Is jurisdiction) (x ∷ filter (of_thread thread) xs) = rw y at a in
          rw y (single_jurisdiction-Is jurisdiction x (filter (of_thread thread) xs) here)
      | inr n ↦
          let later : All (Is jurisdiction) (filter (of_thread thread) xs) = rw n at a in
          let other : of_user_thread user thread x ≡ false = ground (arith, n) in
          let e' : find (of_user_thread user thread) xs ≡ some t = rw other at e in
          rw n (found-single user thread jurisdiction xs t e' later)
    ]

found-Is :
    (user thread jurisdiction : String) (ts : List ThreadKey) (t : ThreadKey)
    → find (of_user_thread user thread) ts ≡ some t
    → All (IsOf thread jurisdiction) ts
    → t.jurisdiction ≡ jurisdiction
found-Is user thread jurisdiction [] t e a = absurd (cc)
found-Is user thread jurisdiction (x ∷ xs) t e (own, others) =
    elim (Bool-cases (of_user_thread user thread x)) [
      | inl y ↦
          let is_x : some x ≡ some t = rw y at e in
          let in_thread = and_right (str_eq x.user_id user) (str_eq x.thread_id thread) y in
          rw (← some_inj is_x) (own ((str_eq_iff x.thread_id thread).0 in_thread))
      | inr n ↦
          let e' : find (of_user_thread user thread) xs ≡ some t = rw n at e in
          found-Is user thread jurisdiction xs t e' others
    ]

-- The key of the user that a join leaves.
ensure-key :
    (sign_binding : String → Option String) (j : Join) (k k' : Keys) (persona : String)
    → ensure_thread_persona sign_binding j k ≡ some (k', persona)
    → (t : ThreadKey) × (find (of_user_thread j.user_id j.thread_id) k'.thread_keys ≡ some t)
      × (t.jurisdiction ≡ j.jurisdiction)
ensure-key sign_binding j k k' persona e = elim (ensure-Joins sign_binding j k (k', persona) e) [
  | returns t found agrees same ↦
      let kept : k ≡ k' = ap (λ (o : Keys × String). o.0) same in
      (t, rw (← kept) found, (str_eq_iff t.jurisdiction j.jurisdiction).0 (and_left _ _ agrees))
  | enters sig may same ↦
      let grown : joined j sig k ≡ k' = ap (λ (o : Keys × String). o.0) same in
      let user : str_eq j.user_id j.user_id ≡ true = (str_eq_iff j.user_id j.user_id).1 refl in
      let thread : str_eq j.thread_id j.thread_id ≡ true =
        (str_eq_iff j.thread_id j.thread_id).1 refl in
      (join_key j, rw (← grown, user, thread) refl, refl)
]

-- If a user joins a thread whose id is a UUID, and the keys of every thread were of one jurisdiction, then
-- `resolveThreadJurisdiction` returns the jurisdiction of the join, as long as no transaction of the
-- thread is stored and no audience is known.
pub resolve_thread_jurisdiction-ensure_thread_persona :
    (is_uuid : String → Bool) (sign_binding : String → Option String) (j : Join) (k k' : Keys)
    (persona : String) (rows : List StoredTx)
    → is_uuid j.thread_id ≡ true
    → ensure_thread_persona sign_binding j k ≡ some (k', persona)
    → OneJurisdiction k
    → get_entity_state j.thread_id rows ≡ none
    → resolve_thread_jurisdiction is_uuid j.thread_id none rows k' ≡ some (some j.jurisdiction)
unfolding resolve_thread_jurisdiction OneJurisdiction
resolve_thread_jurisdiction-ensure_thread_persona is_uuid sign_binding j k k' persona rows uuid e
      one absent =
    let (t, found, is_join) = ensure-key sign_binding j k k' persona e in
    let (jurisdiction, same) =
      ensure_thread_persona-OneJurisdiction sign_binding j k k' persona e one j.thread_id in
    let is_found = found-Is j.user_id j.thread_id jurisdiction k'.thread_keys t found same in
    let single =
      found-single j.user_id j.thread_id jurisdiction k'.thread_keys t found
        (filter-Is j.thread_id jurisdiction k'.thread_keys same) in
    let named : jurisdiction ≡ j.jurisdiction = sym is_found ∙ is_join in
    rw (uuid, absent, single, named) refl
