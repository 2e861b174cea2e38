-- ===== src/Record/Append/Linked.antt =====
-- The transactions of every entity are a hash chain, and appending keeps it.
use oursay.Base.{
  ℕ, ◌≡◌, inl, inr, refl, sym, ap, ◌∙◌, String, true, false, Option, none, some, List, [], ◌∷◌,
  ◌++◌, str_eq, str_eq_iff, Bool-cases, Option-cases, some_inj, arith,
}
use oursay.Crypto.Hash.{Hasher}
use oursay.Crypto.Canonical.{Codec}
use oursay.Schema.Types.{Op, create, update, delete}
use oursay.Ledger.Store.{Store, StoredTx}
use oursay.Ledger.Connector.{Ledger, get_envelope}
use oursay.Record.Append.{
  NewTx, entity_rows, last_hash, same_hash, has_tx, head_refused, stored_row, append_tx_and_enqueue,
  append,
}

-- Each transaction names the hash of the one before it, and the first one names `head`.
abbrev pub LinkedFrom : Option String → List StoredTx → Type 0
LinkedFrom head [] = Unit
LinkedFrom head (t ∷ rest) = (t.prev_hash ≡ head) × LinkedFrom (some t.tx_hash) rest

-- The hash chain of every entity of the store begins with a transaction that names none.
abbrev pub AreLinked : Store → Type 0
AreLinked s = (entity_id : String) → LinkedFrom none (entity_rows entity_id s.rows)

LinkedFrom-append :
    (head : Option String) (rows : List StoredTx) (t : StoredTx)
    → LinkedFrom head rows
    → t.prev_hash ≡ last_hash head rows
    → LinkedFrom head (rows ++ (t ∷ []))
LinkedFrom-append head [] t l e = (e, tt)
LinkedFrom-append head (r ∷ rest) t l e = (l.0, LinkedFrom-append (some r.tx_hash) rest t l.1 e)

entity_rows-append :
    (id : String) (rows : List StoredTx) (t : StoredTx)
    → entity_rows id (rows ++ (t ∷ [])) ≡ entity_rows id rows ++ entity_rows id (t ∷ [])
entity_rows-append id [] t = refl
entity_rows-append id (r ∷ rest) t =
    let ih = entity_rows-append id rest t in
    elim (Bool-cases (str_eq r.entity_id id)) [ inl e ↦ rw (e, ih) refl | inr e ↦ rw (e, ih) refl ]

append_nil : (rows : List StoredTx) → rows ++ [] ≡ rows
append_nil [] = refl
append_nil (r ∷ rest) = ap (λ (xs : List StoredTx). r ∷ xs) (append_nil rest)

pub same_hash-eq : (a b : Option String) → same_hash a b ≡ true → a ≡ b
unfolding same_hash
same_hash-eq none none e = refl
same_hash-eq none (some t) e = absurd (cc)
same_hash-eq (some s) none e = absurd (cc)
same_hash-eq (some s) (some t) e = ap some ((str_eq_iff s t).0 e)

pub same_hash_refl : (a : Option String) → same_hash a a ≡ true
unfolding same_hash
same_hash_refl none = refl
same_hash_refl (some s) = (str_eq_iff s s).1 refl

-- A creation names no predecessor.
abbrev pub StartsFresh : NewTx → Type 0
StartsFresh x = x.op ≡ create → x.prev_hash ≡ none

not_refused_op :
    (op : Op) (prev head : Option String)
    → (op ≡ create → prev ≡ none)
    → head_refused op prev head ≡ false
    → prev ≡ head
unfolding head_refused
not_refused_op create prev none o e = o refl
not_refused_op create prev (some s) o e = absurd (cc)
not_refused_op update prev head o e = sym (same_hash-eq head prev (ground (arith, e)))
not_refused_op delete prev head o e = sym (same_hash-eq head prev (ground (arith, e)))

module _ (h : Hasher) (c : Codec) where
  appended :
      (x : NewTx) (chain_id : String) (now : ℕ) (s : Store) {s' : Store}
      → append_tx_and_enqueue h c x chain_id now s ≡ some s'
      → (head_refused x.op x.prev_hash (last_hash none (entity_rows x.entity_id s.rows)) ≡ false)
        × (s'.rows ≡ s.rows ++ (stored_row h c x chain_id s.next_seq now ∷ []))
  unfolding append_tx_and_enqueue
  appended x chain_id now s {s' = s'} e =
      let refused =
        head_refused x.op x.prev_hash (last_hash none (entity_rows x.entity_id s.rows)) in
      elim (Bool-cases refused) [
        | inl t ↦ let thrown : none ≡ some s' = rw t at e in absurd (cc)
        | inr f ↦ elim (Bool-cases (has_tx x.tx_id s.rows)) [
          | inl t ↦ let thrown : none ≡ some s' = rw (f, t) at e in absurd (cc)
          | inr g ↦
              let done : some _ ≡ some s' = rw (f, g) at e in
              (f, ap (λ (y : Store). y.rows) (sym (some_inj done)))
        ]
      ]

  stored_row-fields :
      (x : NewTx) (chain_id : String) (seq now : ℕ)
      → ((stored_row h c x chain_id seq now).entity_id ≡ x.entity_id)
        × ((stored_row h c x chain_id seq now).prev_hash ≡ x.prev_hash)
  unfolding stored_row
  stored_row-fields x chain_id seq now = (refl, refl)

  -- An append that succeeds puts one row behind the others, and was not refused.
  pub append_rows :
      (x : NewTx) (chain_id : String) (now : ℕ) (ledger : Option Ledger) (s s' : Store)
      → append h c x chain_id now ledger s ≡ some s'
      → (head_refused x.op x.prev_hash (last_hash none (entity_rows x.entity_id s.rows)) ≡ false)
        × (s'.rows ≡ s.rows ++ (stored_row h c x chain_id s.next_seq now ∷ []))
  unfolding append
  append_rows x chain_id now none s s' e = absurd (cc)
  append_rows x chain_id now (some ledger) s s' e =
      elim (Option-cases (get_envelope x.tx_id ledger)) [
        | inl free ↦
            let e' : append_tx_and_enqueue h c x chain_id now s ≡ some s' =
              rw (free, append) at e in
            appended x chain_id now s e'
        | inr (env, taken) ↦ let thrown : none ≡ some s' = rw (taken, append) at e in absurd (cc)
      ]

  -- An append that succeeds keeps the transactions of every entity a hash chain, if a creation names
  -- no predecessor.
  pub append-AreLinked :
      (x : NewTx) (chain_id : String) (now : ℕ) (ledger : Option Ledger) (s s' : Store)
      → StartsFresh x
      → AreLinked s
      → append h c x chain_id now ledger s ≡ some s'
      → AreLinked s'
  append-AreLinked x chain_id now ledger s s' o l e id =
      let (kept, rows) = append_rows x chain_id now ledger s s' e in
      let t = stored_row h c x chain_id s.next_seq now in
      let (entity, prev) = stored_row-fields x chain_id s.next_seq now in
      let parts = entity_rows-append id s.rows t in
      elim (Bool-cases (str_eq t.entity_id id)) [
        | inr f ↦ rw (rows, parts, f, append_nil (entity_rows id s.rows)) (l id)
        | inl y ↦
            let same : x.entity_id ≡ id = sym entity ∙ (str_eq_iff t.entity_id id).0 y in
            let named : t.prev_hash ≡ last_hash none (entity_rows id s.rows) =
              prev
              ∙ not_refused_op x.op x.prev_hash (last_hash none (entity_rows x.entity_id s.rows)) o
                  kept
              ∙ ap (λ (i : String). last_hash none (entity_rows i s.rows)) same in
            rw (rows, parts, y) (LinkedFrom-append none (entity_rows id s.rows) t (l id) named)
      ]
