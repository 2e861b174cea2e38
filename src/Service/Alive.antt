-- ===== src/Service/Alive.antt =====
-- A deleted entity is at its end: no operation goes on from a deletion.
use oursay.Base.{
  ◌≡◌, inl, inr, Bool, true, false, none, some, List, [], ◌∷◌, ◌++◌, All, str_eq, Bool-cases,
  Option-cases, some_inj,
}
use oursay.Schema.Types.{platform_ops, same_type}
use oursay.Ledger.Store.{StoredTx}
use oursay.Service.State.{is_deleted, find_last, get_head_tx}
use oursay.Service.Accepted.{GoesOn, Outcome, kept, grown}

-- No platform operation is a deletion.
abbrev pub NoDeletedOps : List StoredTx → Type 0
NoDeletedOps rows =
    All (λ (t : StoredTx). is_deleted t ≡ true → same_type t.type platform_ops ≡ false) rows

All-append {ℓ κ} :
    {A : Type ℓ} (P : A → Type κ) (xs : List A) (x : A) → All P xs → P x → All P (xs ++ (x ∷ []))
All-append P [] x a p = (p, tt)
All-append P (y ∷ ys) x a p = (a.0, All-append P ys x a.1 p)

-- The row that is found has what all rows have.
All-find_last {κ} :
    (P : StoredTx → Type κ) (q : StoredTx → Bool) (rows : List StoredTx) {t : StoredTx}
    → All P rows
    → find_last q rows ≡ some t
    → P t
All-find_last P q [] a f = absurd (cc)
All-find_last P q (r ∷ rest) {t = t} a f = elim (Option-cases (find_last q rest)) [
  | inr (later, l) ↦
      let same : some later ≡ some t = rw l at f in
      rw (← some_inj same) (All-find_last P q rest a.1 l)
  | inl l ↦ elim (Bool-cases (q r)) [
    | inl y ↦ let same : some r ≡ some t = rw (l, y) at f in rw (← some_inj same) a.0
    | inr k ↦ let stuck : none ≡ some t = rw (l, k) at f in absurd (cc)
  ]
]

pub Outcome-NoDeletedOps :
    (rows rows' : List StoredTx) → Outcome rows rows' → NoDeletedOps rows → NoDeletedOps rows'
Outcome-NoDeletedOps rows rows' (kept e) n = rw e n
Outcome-NoDeletedOps rows rows' (grown t e ext) n = rw e (All-append _ rows t n ext.deletes_no_ops)

-- The head from which a row goes on is not deleted.
pub GoesOn-alive :
    (rows : List StoredTx) (t : StoredTx) (g : GoesOn rows t)
    → NoDeletedOps rows
    → is_deleted g.head ≡ false
unfolding get_head_tx
GoesOn-alive rows t g n = elim g.alive [
  | inl a ↦ a
  | inr o ↦ elim (Bool-cases (is_deleted g.head)) [
    | inr a ↦ a
    | inl d ↦
        let civic : same_type g.head.type platform_ops ≡ false =
          All-find_last
            (λ (r : StoredTx). is_deleted r ≡ true → same_type r.type platform_ops ≡ false)
            (λ r. str_eq r.entity_id t.entity_id) rows n g.is_head d in
        absurd (cc (o, civic))
  ]
]
