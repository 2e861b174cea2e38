-- ===== src/Record/Entity/Erased.antt =====
-- The history of an entity stands, when a plaintext of it is erased.
use oursay.Base.{
  ◌≡◌, refl, String, Bool, true, not, ◌&&◌, Option, none, some, List, [], ◌∷◌, all, str_eq,
  Bool-cases, inl, inr, arith, and_left, and_right,
}
use oursay.Crypto.Hash.{Hasher, hash_leaf}
use oursay.Crypto.Canonical.{Codec}
use oursay.Ledger.Store.{Store, StoredTx, map_rows, without_plaintext, erase}
use oursay.Ledger.Connector.{Ledger}
use oursay.Record.Append.{entity_rows, same_hash}
use oursay.Record.Entity.{
  TxVerdict, is_empty, content_of, ledger_agrees, not_false, tx_verdict, walk_history,
  verify_entity_chain,
}

entity_rows-map_rows :
    (e tx_id : String) (rows : List StoredTx)
    → entity_rows e (map_rows (without_plaintext tx_id) rows)
      ≡ map_rows (without_plaintext tx_id) (entity_rows e rows)
entity_rows-map_rows e tx_id [] = refl
entity_rows-map_rows e tx_id (t ∷ rest) =
    let ih = entity_rows-map_rows e tx_id rest in
    elim (Bool-cases (str_eq t.tx_id tx_id)) [
      | inl y ↦ elim (Bool-cases (str_eq t.entity_id e)) [
        | inl own ↦ rw (y, own, ih, y) refl
        | inr other ↦ rw (y, other, ih) refl
      ]
      | inr k ↦ elim (Bool-cases (str_eq t.entity_id e)) [
        | inl own ↦ rw (k, own, ih, k) refl
        | inr other ↦ rw (k, other, ih) refl
      ]
    ]

map_rows-is_empty :
    (f : StoredTx → StoredTx) (rows : List StoredTx) → is_empty (map_rows f rows) ≡ is_empty rows
map_rows-is_empty f [] = refl
map_rows-is_empty f (t ∷ rest) = refl

both : (a b : Bool) → a ≡ true → b ≡ true → (a && b) ≡ true
both a b x y = rw (x, y) refl

drop_last : (a b c d : Bool) → (a && (b && (c && d))) ≡ true → (a && (b && (c && true))) ≡ true
drop_last a b c d e = ground (arith, e)

module _ (h : Hasher) (c : Codec) (verify_row : String → Bool) where
  abbrev all_ok : Ledger → Option String → List StoredTx → Bool
  unfolding walk_history
  all_ok l prev rows = all (λ (v : TxVerdict). v.ok) (walk_history h c verify_row l prev rows)

  all_ok-erased :
      (l : Ledger) (tx_id : String) (prev : Option String) (rows : List StoredTx)
      → all_ok l prev rows ≡ true
      → all_ok l prev (map_rows (without_plaintext tx_id) rows) ≡ true
  unfolding walk_history tx_verdict content_of ledger_agrees
  all_ok-erased l tx_id prev [] e = refl
  all_ok-erased l tx_id prev (t ∷ rest) e =
      let first = (tx_verdict h c verify_row l prev t).ok in
      let others = all_ok l (some t.tx_hash) rest in
      let e' : (first && others) ≡ true = e in
      let ih = all_ok-erased l tx_id (some t.tx_hash) rest (and_right first others e') in
      let intact = str_eq (hash_leaf h (h.utf8 t.envelope)) t.tx_hash in
      let linked = same_hash t.prev_hash prev in
      let agrees = ledger_agrees h c verify_row l t in
      let content = not_false (content_of h c verify_row t.tx_id t.content_hash t.salt t.content) in
      let ok : (intact && (linked && (agrees && content))) ≡ true = and_left first others e' in
      elim (Bool-cases (str_eq t.tx_id tx_id)) [
        | inr k ↦ rw k (both (intact && (linked && (agrees && content))) _ ok ih)
        | inl y ↦ rw y (
            both (intact && (linked && (agrees && true))) _
              (drop_last intact linked agrees content ok) ih)
      ]

  -- If the history of an entity is found to be in order, then it is so after the plaintext of a
  -- transaction, of that entity or another, is erased.
  pub verify_entity_chain-erase :
      (s : Store) (l : Ledger) (e tx_id : String)
      → (verify_entity_chain h c verify_row s l e).ok ≡ true
      → (verify_entity_chain h c verify_row (erase tx_id s) l e).ok ≡ true
  unfolding verify_entity_chain erase walk_history
  verify_entity_chain-erase s l e tx_id ok =
      let rows = entity_rows e s.rows in
      let erased_rows = entity_rows-map_rows e tx_id s.rows in
      let kept = map_rows-is_empty (without_plaintext tx_id) rows in
      let found = not (is_empty rows) in
      let verdicts = all_ok l none rows in
      let ok' : (found && verdicts) ≡ true = ok in
      rw (erased_rows, kept)
        (both found _ (and_left found verdicts ok')
          (all_ok-erased l tx_id none rows (and_right found verdicts ok')))
