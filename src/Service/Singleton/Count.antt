-- ===== src/Service/Singleton/Count.antt =====
-- The count of the holders of a nullifier, by the entity of a row.
use oursay.Base.{
  ℕ, ◌+◌, ◌≡◌, ◌≢◌, refl, sym, ap, ◌∙◌, inl, inr, String, Bool, true, false, not, ◌&&◌, ◌||◌,
  Option, none, some, List, [], ◌∷◌, ◌++◌, str_eq, str_eq_iff, Bool-cases, Option-cases, arith,
}
use oursay.Ledger.Store.{StoredTx}
use oursay.Identity.Tables.{has}
use oursay.Identity.Envelope.{given}
use oursay.Service.State.{
  active_rows, is_deleted, find_last, bears_nullifier, is_value, has_active_singleton_by_nullifier,
}

abbrev pub one_if : Bool → ℕ
one_if true = 1
one_if false = 0

abbrev pub count_if {ℓ} : {A : Type ℓ} → (A → Bool) → List A → ℕ
count_if p [] = 0
count_if p (x ∷ xs) = one_if (p x) + count_if p xs

-- The active entities that bear a nullifier on a parent.
unfoldable pub holders : String → String → List StoredTx → ℕ
holders p n rows = count_if (bears_nullifier p n) (active_rows rows)

abbrev pub of_entity : String → StoredTx → Bool
of_entity e t = str_eq t.entity_id e

-- A row counts, if it is the last of its entity, is not deleted and bears the nullifier.
abbrev pub counts : String → String → StoredTx → List StoredTx → Bool
counts p n t later =
    (not (is_deleted t) && not (has (of_entity t.entity_id) later)) && bears_nullifier p n t

-- The holders among the entities other than `e`.
abbrev pub others : String → String → String → List StoredTx → ℕ
others e p n [] = 0
others e p n (t ∷ rest) = one_if (not (of_entity e t) && counts p n t rest) + others e p n rest

abbrev pub as_head : String → String → Option StoredTx → ℕ
as_head p n none = 0
as_head p n (some t) = one_if (not (is_deleted t) && bears_nullifier p n t)

holders_cons :
    (p n : String) (t : StoredTx) (rest : List StoredTx)
    → holders p n (t ∷ rest) ≡ one_if (counts p n t rest) + holders p n rest
unfolding holders
holders_cons p n t rest =
    elim (Bool-cases (not (is_deleted t) && not (has (of_entity t.entity_id) rest))) [
      | inl y ↦ rw y refl
      | inr k ↦ rw k (omega arith)
    ]

find_last-has :
    (e : String) (rows : List StoredTx)
    → find_last (of_entity e) rows ≡ none
    → has (of_entity e) rows ≡ false
find_last-has e [] f = refl
find_last-has e (t ∷ rest) f = elim (Option-cases (find_last (of_entity e) rest)) [
  | inr (later, l) ↦ let stuck : some later ≡ none = rw l at f in absurd (cc)
  | inl l ↦ elim (Bool-cases (str_eq t.entity_id e)) [
    | inl y ↦ let stuck : some t ≡ none = rw (l, y) at f in absurd (cc)
    | inr k ↦ rw (k, find_last-has e rest l) refl
  ]
]

has_later :
    (e : String) (rows : List StoredTx) (later : StoredTx)
    → find_last (of_entity e) rows ≡ some later
    → has (of_entity e) rows ≡ true
has_later e [] later f = absurd (cc)
has_later e (t ∷ rest) later f = elim (Option-cases (find_last (of_entity e) rest)) [
  | inr (l, found) ↦ let ih = has_later e rest l found in ground (arith, ih)
  | inl missing ↦ elim (Bool-cases (str_eq t.entity_id e)) [
    | inl y ↦ rw y refl
    | inr k ↦ let stuck : none ≡ some later = rw (missing, k) at f in absurd (cc)
  ]
]

has-append :
    (e : String) (rows : List StoredTx) (t : StoredTx)
    → has (of_entity e) (rows ++ (t ∷ [])) ≡ has (of_entity e) rows || str_eq t.entity_id e
has-append e [] t = ground arith
has-append e (r ∷ rest) t = let ih = has-append e rest t in ground (arith, ih)

str_eq_sym : (s t : String) → str_eq s t ≡ str_eq t s
str_eq_sym s t = elim (Bool-cases (str_eq s t)) [
  | inl y ↦ rw ((str_eq_iff s t).0 y) refl
  | inr n ↦ elim (Bool-cases (str_eq t s)) [
    | inl y ↦
        let same : str_eq s t ≡ true = (str_eq_iff s t).1 (sym ((str_eq_iff t s).0 y)) in
        absurd (cc (same, n))
    | inr m ↦ rw (n, m) refl
  ]
]

pub holders_nil : (p n : String) → holders p n [] ≡ 0
unfolding holders
holders_nil p n = refl

-- The holders behind one row more.
pub holders-append :
    (p n : String) (rows : List StoredTx) (t : StoredTx)
    → holders p n (rows ++ (t ∷ []))
      ≡ others t.entity_id p n rows + one_if (not (is_deleted t) && bears_nullifier p n t)
holders-append p n [] t =
    let step = holders_cons p n t [] in
    let last : counts p n t [] ≡ (not (is_deleted t) && bears_nullifier p n t) = ground arith in
    omega (arith, step, holders_nil p n, ap one_if last)
holders-append p n (r ∷ rest) t =
    let ih = holders-append p n rest t in
    let step = holders_cons p n r (rest ++ (t ∷ [])) in
    let later = has-append r.entity_id rest t in
    let turned = str_eq_sym t.entity_id r.entity_id in
    let same : counts p n r (rest ++ (t ∷ []))
        ≡ (not (of_entity t.entity_id r) && counts p n r rest) =
      rw (later, turned) (ground arith) in
    omega (arith, ih, step, ap one_if same)

-- A row of an entity of which there is a later row counts for nothing.
superseded :
    (e p n : String) (r : StoredTx) (rest : List StoredTx)
    → has (of_entity e) rest ≡ true
    → counts p n r rest ≡ (not (of_entity e r) && counts p n r rest)
superseded e p n r rest later = elim (Bool-cases (str_eq r.entity_id e)) [
  | inr k ↦ ground (arith, k)
  | inl y ↦
      let name = (str_eq_iff r.entity_id e).0 y in
      let gone : has (of_entity r.entity_id) rest ≡ true =
        ap (λ (i : String). has (of_entity i) rest) name ∙ later in
      ground (arith, gone, y)
]

-- The holders are those of the other entities, and the head.
pub holders_split :
    (e p n : String) (rows : List StoredTx)
    → holders p n rows ≡ others e p n rows + as_head p n (find_last (of_entity e) rows)
holders_split e p n [] = holders_nil p n
holders_split e p n (r ∷ rest) =
    let ih = holders_split e p n rest in
    let step = holders_cons p n r rest in
    elim (Option-cases (find_last (of_entity e) rest)) [
      | inr (later, l) ↦
          let ih' : holders p n rest ≡ others e p n rest + as_head p n (some later) = rw l at ih in
          let same : counts p n r rest ≡ (not (of_entity e r) && counts p n r rest) =
            superseded e p n r rest (has_later e rest later l) in
          rw l (omega (arith, ih', step, ap one_if same))
      | inl l ↦
          let ih' : holders p n rest ≡ others e p n rest + 0 = rw l at ih in
          elim (Bool-cases (of_entity e r)) [
            | inr k ↦
                let same : counts p n r rest ≡ (not (of_entity e r) && counts p n r rest) =
                  ground (arith, k) in
                rw (l, k) (omega (arith, ih', step))
            | inl y ↦
                let free = find_last-has e rest l in
                let name = (str_eq_iff r.entity_id e).0 y in
                let gone : has (of_entity r.entity_id) rest ≡ false =
                  ap (λ (i : String). has (of_entity i) rest) name ∙ free in
                let same : counts p n r rest ≡ (not (is_deleted r) && bears_nullifier p n r) =
                  ground (arith, gone) in
                rw (l, y) (omega (arith, ih', step, ap one_if same))
          ]
    ]

-- The row of a head that is not deleted is among the holders, if it bears the nullifier.
count_if-has {ℓ} : {A : Type ℓ} (q : A → Bool) (xs : List A) → has q xs ≡ false → count_if q xs ≡ 0
count_if-has q [] e = refl
count_if-has q (x ∷ xs) e =
    let here : q x ≡ false = ground (arith, e) in
    let rest = count_if-has q xs (ground (arith, e)) in rw here (omega (arith, rest))

pub unclaimed-holders :
    (p n : String) (rows : List StoredTx)
    → has_active_singleton_by_nullifier p n rows ≡ false
    → holders p n rows ≡ 0
unfolding has_active_singleton_by_nullifier holders
unclaimed-holders p n rows e = count_if-has (bears_nullifier p n) (active_rows rows) e

pub is_value-some : (o : Option String) (s : String) → is_value o s ≡ true → o ≡ some s
is_value-some none s e = absurd (cc)
is_value-some (some r) s e = ap some ((str_eq_iff r s).0 e)

pub given_nonempty : (s : String) → s ≢ "" → given (some s) ≡ some s
given_nonempty s ne = elim (Bool-cases (str_eq s "")) [
  | inl y ↦ absurd (ne ((str_eq_iff s "").0 y))
  | inr k ↦ rw k refl
]
