-- ===== src/Service/Lifecycle.antt =====
-- The life of an entity: absent, live, deleted. The history of every entity is a run of this
-- machine, whatever the operations of the service do.
use oursay.Base.{
  ◌≡◌, ◌≢◌, refl, inl, inr, String, Bool, true, false, Option, none, some, List, [], ◌∷◌, ◌++◌,
  str_eq, str_eq_iff, if◌then◌else◌, Bool-cases, Option-cases, ◌>>=◌,
}
use oursay.Crypto.Hash.{Hasher}
use oursay.Crypto.Canonical.{Codec}
use oursay.Schema.Types.{Op, create, update, delete}
use oursay.Ledger.Store.{StoredTx}
use oursay.Identity.Curve.{Curve}
use oursay.Service.State.{is_deleted, find_last, get_head_tx}
use oursay.Service.Config.{Config, Db}
use oursay.Service.Accepted.{Extends, Outcome, kept, grown}
use oursay.Service.Alive.{NoDeletedOps, GoesOn-alive, Outcome-NoDeletedOps}
use oursay.Service.Reach.{Reach, Reach-invariant}

pub data Phase : Type 0 where
  absent live deleted : Phase

-- The machine: a creation of what is absent, and updates until a deletion.
abbrev pub advance : Phase → Op → Option Phase
advance absent create = some live
advance live update = some live
advance live delete = some deleted
advance _ _ = none

-- A run over the operations, oldest first.
abbrev pub replay : Phase → List Op → Option Phase
replay phase [] = some phase
replay phase (op ∷ ops) = advance phase op >>= (λ next. replay next ops)

-- The operations on an entity, oldest first.
abbrev pub ops_of : String → List StoredTx → List Op
ops_of e [] = []
ops_of e (t ∷ rest) =
    let later = ops_of e rest in if str_eq t.entity_id e then t.op ∷ later else later

-- The phase that the head shows.
abbrev pub phase_of : Option StoredTx → Phase
phase_of none = absent
phase_of (some t) = if is_deleted t then deleted else live

-- The history of every entity is a run of the machine, to the phase that its head shows.
abbrev pub IsRun : List StoredTx → Type 0
IsRun rows = (e : String) → replay absent (ops_of e rows) ≡ some (phase_of (get_head_tx e rows))

abbrev of_entity : String → StoredTx → Bool
of_entity e t = str_eq t.entity_id e

replay-append :
    (phase : Phase) (ops : List Op) (op : Op)
    → replay phase (ops ++ (op ∷ [])) ≡ (replay phase ops >>= (λ next. advance next op))
replay-append phase [] op = elim (Option-cases (advance phase op)) [
  | inl n ↦ rw n refl
  | inr (next, s) ↦ rw s refl
]
replay-append phase (o ∷ ops) op = elim (Option-cases (advance phase o)) [
  | inl n ↦ rw n refl
  | inr (next, s) ↦ rw s (replay-append next ops op)
]

ops_of-own :
    (e : String) (rows : List StoredTx) (t : StoredTx)
    → str_eq t.entity_id e ≡ true
    → ops_of e (rows ++ (t ∷ [])) ≡ ops_of e rows ++ (t.op ∷ [])
ops_of-own e [] t own = rw own refl
ops_of-own e (r ∷ rest) t own =
    let ih = ops_of-own e rest t own in
    elim (Bool-cases (str_eq r.entity_id e)) [ inl y ↦ rw (y, ih) refl | inr k ↦ rw (k, ih) refl ]

ops_of-other :
    (e : String) (rows : List StoredTx) (t : StoredTx)
    → str_eq t.entity_id e ≡ false
    → ops_of e (rows ++ (t ∷ [])) ≡ ops_of e rows
ops_of-other e [] t other = rw other refl
ops_of-other e (r ∷ rest) t other =
    let ih = ops_of-other e rest t other in
    elim (Bool-cases (str_eq r.entity_id e)) [ inl y ↦ rw (y, ih) refl | inr k ↦ rw (k, ih) refl ]

find_last-own :
    (q : StoredTx → Bool) (rows : List StoredTx) (t : StoredTx)
    → q t ≡ true
    → find_last q (rows ++ (t ∷ [])) ≡ some t
find_last-own q [] t own = rw own refl
find_last-own q (r ∷ rest) t own = rw (find_last-own q rest t own) refl

find_last-other :
    (q : StoredTx → Bool) (rows : List StoredTx) (t : StoredTx)
    → q t ≡ false
    → find_last q (rows ++ (t ∷ [])) ≡ find_last q rows
find_last-other q [] t other = rw other refl
find_last-other q (r ∷ rest) t other = rw (find_last-other q rest t other) refl

-- The machine follows a row that begins its entity or goes on from a head that is not deleted.
advance-Extends :
    (rows : List StoredTx) (t : StoredTx)
    → Extends rows t
    → NoDeletedOps rows
    → advance (phase_of (get_head_tx t.entity_id rows)) t.op ≡ some (phase_of (some t))
advance-Extends rows t ext alive = elim ext.from [
  | inl b ↦ let op = b.is_create in rw (b.is_new, op) refl
  | inr g ↦ rw (g.is_head, GoesOn-alive rows t g alive) (from_live t.op g.no_create)
]
  where
    from_live :
        (op : Op) → op ≢ create → advance live op ≡ some (phase_of (some (record t { op = op })))
    from_live create n = absurd (n refl)
    from_live update n = refl
    from_live delete n = refl

Outcome-IsRun :
    (rows rows' : List StoredTx)
    → Outcome rows rows'
    → IsRun rows × NoDeletedOps rows
    → IsRun rows' × NoDeletedOps rows'
unfolding get_head_tx
Outcome-IsRun rows rows' (kept e) both = (rw e both.0, rw e both.1)
Outcome-IsRun rows rows' (grown t e ext) both = (
  λ entity. elim (Bool-cases (str_eq t.entity_id entity)) [
    | inr other ↦
        rw (e, ops_of-other entity rows t other, find_last-other (of_entity entity) rows t other)
          (both.0 entity)
    | inl own ↦
        let name = (str_eq_iff t.entity_id entity).0 own in
        let step = advance-Extends rows t ext both.1 in
        rw
          (
            e,
            ops_of-own entity rows t own,
            find_last-own (of_entity entity) rows t own,
            replay-append absent (ops_of entity rows) t.op,
            both.0 entity,
            ← name,
          )
          step
  ],
  Outcome-NoDeletedOps rows rows' (grown t e ext) both.1,
)

module _ (h : Hasher) (codec : Codec) (curve : Curve) (cfg : Config) where
  -- In every state that the calls of the service reach from a store with no rows, the operations of
  -- every entity, oldest first, are a run of the machine that begins with the absent entity: one
  -- creation, then updates, then at most one deletion, after which there is nothing; and the run
  -- ends in the phase that the head of the entity shows.
  pub Reach-IsRun :
      (start db : Db)
      → start.store.rows ≡ []
      → Reach h codec curve cfg start db
      → IsRun db.store.rows
  unfolding get_head_tx
  Reach-IsRun start db e r =
      let first : IsRun start.store.rows × NoDeletedOps start.store.rows =
        rw e ((λ entity. refl), tt) in
      (Reach-invariant h codec curve cfg (λ rows. IsRun rows × NoDeletedOps rows) Outcome-IsRun r
        first).0
