-- ===== src/Service/Singleton.antt =====
-- One active vote, signature or reaction for each nullifier.
pub mod Count
use oursay.Base.{
  ℕ, suc, zero, ◌+◌, ◌≤◌, ◌≡◌, ◌≢◌, refl, sym, ap, ◌∙◌, ◌⊎◌, inl, inr, String, Bool, true, false,
  not, ◌&&◌, ◌||◌, Option, none, some, List, [], ◌∷◌, ◌++◌, str_eq, str_eq_iff, if◌then◌else◌,
  Bool-cases, Option-cases, arith, some_inj,
}
use oursay.Crypto.Hash.{Hasher}
use oursay.Crypto.Canonical.{Codec}
use oursay.Ledger.Store.{StoredTx}
use oursay.Identity.Curve.{Curve}
use oursay.Identity.Tables.{has}
use oursay.Identity.Envelope.{given}
use oursay.Service.State.{
  active_rows, is_deleted, find_last, later_or, get_head_tx, bears_nullifier, is_value,
  has_active_singleton_by_nullifier,
}
use oursay.Service.Config.{Config, Db}
use oursay.Service.Accepted.{Begins, GoesOn, Extends, Outcome, kept, grown}
use oursay.Service.Alive.{NoDeletedOps, GoesOn-alive, Outcome-NoDeletedOps}
use oursay.Service.Singleton.Count.{
  one_if, holders, others, as_head, holders_nil, holders-append, holders_split, unclaimed-holders,
  is_value-some, given_nonempty,
}
use oursay.Service.Reach.{Reach, Reach-invariant}

-- No nullifier is borne by two active entities of one parent.
abbrev pub OneActive : List StoredTx → Type 0
OneActive rows = (p n : String) → n ≢ "" → holders p n rows ≤ 1

-- The bound for a nullifier that the new row bears.
borne-bound :
    (p n : String) (rows : List StoredTx) (t : StoredTx)
    → n ≢ ""
    → Extends rows t
    → NoDeletedOps rows
    → holders p n rows ≤ 1
    → bears_nullifier p n t ≡ true
    → others t.entity_id p n rows ≡ 0
unfolding get_head_tx
borne-bound p n rows t ne ext alive one bears =
    let at_parent = is_value-some t.parent_id p (ground (arith, bears)) in
    let borne = is_value-some t.nullifier n (ground (arith, bears)) in
    let kept : given t.nullifier ≡ some n = ap given borne ∙ given_nonempty n ne in
    let split = holders_split t.entity_id p n rows in
    elim ext.from [
      | inl b ↦
          let free = unclaimed-holders p n rows (b.unclaimed p n at_parent kept) in
          omega (arith, split, free)
      | inr g ↦ elim g.carried [
        | inl no_nullifier ↦ absurd (cc)
        | inr (same_n, same_p) ↦
            let living = GoesOn-alive rows t g alive in
            let bears' : bears_nullifier p n g.head ≡ true = rw (← same_n, ← same_p) bears in
            let head_counts : (not (is_deleted g.head) && bears_nullifier p n g.head) ≡ true =
              ground (arith, living, bears') in
            let split' : holders p n rows
                ≡ others t.entity_id p n rows
                  + one_if (not (is_deleted g.head) && bears_nullifier p n g.head) =
              rw g.is_head at split in
            omega (arith, split', ap one_if head_counts, one)
      ]
    ]

one_if_le : (b : Bool) → one_if b ≤ 1
one_if_le true = omega arith
one_if_le false = omega arith

grown-bound :
    (p n : String) (rows : List StoredTx) (t : StoredTx)
    → n ≢ ""
    → Extends rows t
    → NoDeletedOps rows
    → holders p n rows ≤ 1
    → holders p n (rows ++ (t ∷ [])) ≤ 1
grown-bound p n rows t ne ext alive one =
    let step = holders-append p n rows t in
    let split = holders_split t.entity_id p n rows in
    let live = not (is_deleted t) && bears_nullifier p n t in
    elim (Bool-cases (bears_nullifier p n t)) [
      | inl bears ↦
          omega (arith, step, one_if_le live, borne-bound p n rows t ne ext alive one bears)
      | inr k ↦
          let dead : live ≡ false = ground (arith, k) in
          omega (arith, step, split, one, ap one_if dead)
    ]

-- What an operation keeps of both properties of the rows.
Outcome-OneActive :
    (rows rows' : List StoredTx)
    → Outcome rows rows'
    → OneActive rows × NoDeletedOps rows
    → OneActive rows' × NoDeletedOps rows'
Outcome-OneActive rows rows' (kept e) both = (rw e both.0, rw e both.1)
Outcome-OneActive rows rows' (grown t e ext) both = (
  λ p n ne. rw e (grown-bound p n rows t ne ext both.1 (both.0 p n ne)),
  Outcome-NoDeletedOps rows rows' (grown t e ext) both.1,
)

holders_empty : OneActive []
holders_empty p n ne = omega (arith, holders_nil p n)

module _ (h : Hasher) (codec : Codec) (curve : Curve) (cfg : Config) where
  -- In every state that the calls of the service reach from a store with no rows, signed and
  -- unsigned, creations, updates and deletions in any order, at most one active entity of a parent
  -- bears a nullifier that is not empty.
  pub Reach-OneActive :
      (start db : Db)
      → start.store.rows ≡ []
      → Reach h codec curve cfg start db
      → OneActive db.store.rows
  Reach-OneActive start db e r =
      let first : OneActive start.store.rows × NoDeletedOps start.store.rows =
        rw e (holders_empty, tt) in
      (Reach-invariant h codec curve cfg (λ rows. OneActive rows × NoDeletedOps rows)
        Outcome-OneActive r first).0
