-- ===== src/Service/Attested/Table.antt =====
-- The table of attested nullifiers: what `attestNullifier` keeps and adds.
use oursay.Base.{
  ◌≡◌, ◌≢◌, refl, inl, inr, String, Bool, true, false, none, some, List, [], ◌∷◌, All, str_eq,
  str_eq_iff, Bool-cases, Option-cases, some_inj, >>=-eq-some, and_left, and_right,
}
use oursay.Identity.Envelope.{given}
use oursay.Identity.Tables.{
  Keys, NullifierAttestation, find, has, attests, bears, attest_nullifier, get_attested_nullifier,
}
use oursay.Service.Attested.Kept.{IsKept}

-- The nullifier that a user is attested on a parent.
abbrev pub Has : String → String → String → Keys → Type 0
Has user p n k = get_attested_nullifier user p k ≡ some n

has-find {ℓ} :
    {A : Type ℓ} (q : A → Bool) (xs : List A) {x : A} → find q xs ≡ some x → has q xs ≡ true
has-find q [] e = absurd (cc)
has-find q (y ∷ ys) {x = x} e = elim (Bool-cases (q y)) [
  | inl t ↦ rw t refl
  | inr f ↦ let later : find q ys ≡ some x = rw f at e in rw f (has-find q ys later)
]

Has-found :
    (user p n : String) (k : Keys)
    → Has user p n k
    → (r : NullifierAttestation) × (find (attests user p) k.nullifiers ≡ some r) × (r.nullifier ≡ n)
unfolding get_attested_nullifier
Has-found user p n k e =
    let (r, found, same) = >>=-eq-some (find (attests user p) k.nullifiers) _ e in
    (r, found, some_inj same)

attests_inj :
    (user p : String) (row : NullifierAttestation)
    → attests user p row ≡ true
    → (row.user_id ≡ user) × (row.parent_id ≡ p)
attests_inj user p row e =
    let one = str_eq row.user_id user in
    let two = str_eq row.parent_id p in
    (
      (str_eq_iff row.user_id user).0 (and_left one two e),
      (str_eq_iff row.parent_id p).0 (and_right one two e),
    )

-- A further attestation leaves the first of a user and a parent as it is.
pub Has-IsKept : (user p n : String) → IsKept (Has user p n)
unfolding attest_nullifier get_attested_nullifier
Has-IsKept user p n row k k' filled e own =
    let (r, found, is_n) = Has-found user p n k own in
    elim (Bool-cases (has (attests row.user_id row.parent_id) k.nullifiers)) [
      | inl y ↦
          let kept : some k ≡ some k' = rw (y, attest_nullifier) at e in rw (← some_inj kept) own
      | inr u ↦ elim (Bool-cases (has (bears row.parent_id row.nullifier) k.nullifiers)) [
        | inl y ↦ let stuck : none ≡ some k' = rw (u, y, attest_nullifier) at e in absurd (cc)
        | inr m ↦
            let grown : some (record k { nullifiers = row ∷ k.nullifiers }) ≡ some k' =
              rw (u, m, attest_nullifier) at e in
            elim (Bool-cases (attests user p row)) [
              | inr other ↦ rw (← some_inj grown, other, found, is_n) refl
              | inl same ↦
                  let (is_user, is_parent) = attests_inj user p row same in
                  let known = has-find (attests user p) k.nullifiers found in
                  let u' : has (attests user p) k.nullifiers ≡ false =
                    rw (is_user, is_parent) at u in
                  absurd (cc (known, u'))
            ]
      ]
    ]

-- No attested nullifier is empty.
abbrev pub NoneEmpty : Keys → Type 0
NoneEmpty k = All (λ (r : NullifierAttestation). r.nullifier ≢ "") k.nullifiers

pub NoneEmpty-IsKept : IsKept NoneEmpty
unfolding attest_nullifier
NoneEmpty-IsKept row k k' filled e all_filled =
    elim (Bool-cases (has (attests row.user_id row.parent_id) k.nullifiers)) [
      | inl y ↦
          let kept : some k ≡ some k' = rw (y, attest_nullifier) at e in
          rw (← some_inj kept) all_filled
      | inr u ↦ elim (Bool-cases (has (bears row.parent_id row.nullifier) k.nullifiers)) [
        | inl y ↦ let stuck : none ≡ some k' = rw (u, y, attest_nullifier) at e in absurd (cc)
        | inr m ↦
            let grown : some (record k { nullifiers = row ∷ k.nullifiers }) ≡ some k' =
              rw (u, m, attest_nullifier) at e in
            rw (← some_inj grown) (filled, all_filled)
      ]
    ]

find_filled :
    (q : NullifierAttestation → Bool) (rows : List NullifierAttestation) {r : NullifierAttestation}
    → All (λ (r : NullifierAttestation). r.nullifier ≢ "") rows
    → find q rows ≡ some r
    → r.nullifier ≢ ""
find_filled q [] a e = absurd (cc)
find_filled q (x ∷ xs) {r = r} (own, others) e = elim (Bool-cases (q x)) [
  | inl t ↦ let here : some x ≡ some r = rw t at e in rw (← some_inj here) own
  | inr f ↦ let later : find q xs ≡ some r = rw f at e in find_filled q xs others later
]

given_filled : (s : String) → s ≢ "" → given (some s) ≡ some s
given_filled s n = elim (Bool-cases (str_eq s "")) [
  | inl y ↦ absurd (n ((str_eq_iff s "").0 y))
  | inr k ↦ rw k refl
]

pub Has-given :
    (user p n : String) (k : Keys)
    → NoneEmpty k
    → Has user p n k
    → given (get_attested_nullifier user p k) ≡ some n
Has-given user p n k filled own =
    let (r, found, is_n) = Has-found user p n k own in
    let full : n ≢ "" = rw is_n at (find_filled (attests user p) k.nullifiers filled found) in
    rw own (given_filled n full)

find-none {ℓ} : {A : Type ℓ} (q : A → Bool) (xs : List A) → find q xs ≡ none → has q xs ≡ false
find-none q [] e = refl
find-none q (y ∷ ys) e = elim (Bool-cases (q y)) [
  | inl t ↦ let stuck : some y ≡ none = rw t at e in absurd (cc)
  | inr f ↦ let later : find q ys ≡ none = rw f at e in rw f (find-none q ys later)
]

-- The first attestation of a user and a parent is found again.
pub attest_nullifier_first :
    (row : NullifierAttestation) (k k' : Keys)
    → find (attests row.user_id row.parent_id) k.nullifiers ≡ none
    → attest_nullifier row k ≡ some k'
    → Has row.user_id row.parent_id row.nullifier k'
unfolding attest_nullifier get_attested_nullifier
attest_nullifier_first row k k' missing e =
    let u = find-none (attests row.user_id row.parent_id) k.nullifiers missing in
    elim (Bool-cases (has (bears row.parent_id row.nullifier) k.nullifiers)) [
      | inl y ↦ let stuck : none ≡ some k' = rw (u, y, attest_nullifier) at e in absurd (cc)
      | inr m ↦
          let grown : some (record k { nullifiers = row ∷ k.nullifiers }) ≡ some k' =
            rw (u, m, attest_nullifier) at e in
          let own : attests row.user_id row.parent_id row ≡ true =
            rw
              (
                (str_eq_iff row.user_id row.user_id).1 refl,
                (str_eq_iff row.parent_id row.parent_id).1 refl,
              )
              refl in
          rw (← some_inj grown, own) refl
    ]

-- No attestation is found where there is none.
pub missing-find :
    (user p : String) (k : Keys)
    → get_attested_nullifier user p k ≡ none
    → find (attests user p) k.nullifiers ≡ none
unfolding get_attested_nullifier
missing-find user p k e = elim (Option-cases (find (attests user p) k.nullifiers)) [
  | inl missing ↦ missing
  | inr (r, found) ↦
      let stuck : some r.nullifier ≡ none = rw (found, get_attested_nullifier) at e in absurd (cc)
]
