-- ===== src/Service/Roots.antt =====
-- The loop of `resolveRoot` ends, where every parent begins before its children.
use oursay.Base.{
  ℕ, suc, zero, ◌<◌, ◌≡◌, refl, sym, ◌∙◌, inl, inr, String, false, Option, none, some, List, [],
  ◌∷◌, length, str_eq, if◌then◌else◌, Bool-cases, Option-cases, some_inj, arith,
}
use oursay.Schema.Types.{is_root_type}
use oursay.Ledger.Store.{StoredTx}
use oursay.Identity.Envelope.{given}
use oursay.Service.State.{get_head_tx, get_entity_state}
use oursay.Service.Validate.{next_ancestor, climb, resolve_root}

-- One more, in an option.
abbrev pub next_place : Option ℕ → Option ℕ
next_place none = none
next_place (some i) = some (suc i)

-- The place of the first row of an entity.
abbrev pub first_place : String → List StoredTx → Option ℕ
first_place e [] = none
first_place e (t ∷ rest) =
    let later = next_place (first_place e rest) in if str_eq t.entity_id e then some 0 else later

-- An entity that takes a parent, and names one, begins after it.
abbrev pub ParentsFirst : List StoredTx → Type 0
ParentsFirst rows =
    (e p : String) (head : StoredTx)
    → get_head_tx e rows ≡ some head
    → is_root_type head.type ≡ false
    → given head.parent_id ≡ some p
    → (i : ℕ) × (j : ℕ) × (first_place p rows ≡ some i) × (first_place e rows ≡ some j) × (i < j)

first_place-lt :
    (e : String) (rows : List StoredTx) (i : ℕ) → first_place e rows ≡ some i → i < length rows
first_place-lt e [] i f = absurd (cc)
first_place-lt e (t ∷ rest) i f = elim (Bool-cases (str_eq t.entity_id e)) [
  | inl y ↦ let here : some 0 ≡ some i = rw y at f in omega (arith, some_inj here)
  | inr k ↦ elim (Option-cases (first_place e rest)) [
    | inl n ↦ let stuck : none ≡ some i = rw (k, n) at f in absurd (cc)
    | inr (j, later) ↦
        let there : some (suc j) ≡ some i = rw (k, later) at f in
        omega (arith, some_inj there, first_place-lt e rest j later)
  ]
]

-- What the loop goes on from.
next_ancestor-some :
    (o : Option StoredTx) (up : String)
    → next_ancestor o ≡ some up
    → (head : StoredTx) × (o ≡ some head)
      × (is_root_type head.type ≡ false)
      × (given head.parent_id ≡ some up)
next_ancestor-some none up e = absurd (cc)
next_ancestor-some (some head) up e = elim (Bool-cases (is_root_type head.type)) [
  | inl y ↦ let stuck : none ≡ some up = rw y at e in absurd (cc)
  | inr k ↦ (head, refl, k, rw k at e)
]

-- The answer of the loop is an entity from which it does not go on.
abbrev pub IsRootOf : List StoredTx → Option String → Type 0
IsRootOf rows o =
    (root : String) × (o ≡ some root) × (next_ancestor (get_entity_state root rows) ≡ none)

climb-IsRootOf :
    (fuel : ℕ) (id : String) (rows : List StoredTx) (i : ℕ)
    → ParentsFirst rows
    → first_place id rows ≡ some i
    → i < fuel
    → IsRootOf rows (climb fuel id rows)
unfolding climb get_entity_state
climb-IsRootOf zero id rows i first place lt = absurd (omega (arith, lt))
climb-IsRootOf (suc fuel) id rows i first place lt =
    elim (Option-cases (next_ancestor (get_head_tx id rows))) [
      | inl stop ↦ rw (stop, climb) (id, refl, stop)
      | inr (up, go) ↦
          let (head, is_head, no_root, named) = next_ancestor-some (get_head_tx id rows) up go in
          let (j, k, above, here, before) = first id up head is_head no_root named in
          let same : k ≡ i = some_inj (sym here ∙ place) in
          rw (go, climb)
            (climb-IsRootOf fuel up rows j first above (omega (arith, lt, before, same)))
    ]

-- Where every entity that takes a parent begins after it, `resolveRoot` ends within one round for
-- each row and one more, at an entity that is a root, is missing or names no parent.
pub resolve_root-IsRootOf :
    (id : String) (rows : List StoredTx) → ParentsFirst rows → IsRootOf rows (resolve_root id rows)
unfolding resolve_root climb get_entity_state
resolve_root-IsRootOf id rows first = elim (Option-cases (next_ancestor (get_head_tx id rows))) [
  | inl stop ↦ rw (stop, climb) (id, refl, stop)
  | inr (up, go) ↦
      let (head, is_head, no_root, named) = next_ancestor-some (get_head_tx id rows) up go in
      let (j, k, above, here, before) = first id up head is_head no_root named in
      rw (go, climb)
        (climb-IsRootOf (length rows) up rows j first above (first_place-lt up rows j above))
]
