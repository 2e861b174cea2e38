-- ===== src/Record/Entity/Verified.antt =====
-- What `verifyEntityChain` establishes.
use oursay.Base.{
  ◌≡◌, ◌↔◌, refl, String, Bool, true, false, Option, none, some, List, [], ◌∷◌, all, All, str_eq,
  str_eq_iff, arith, inl, inr, ap, ◌∙◌, Option-cases, Bool-cases,
}
use oursay.Crypto.Hash.{Hasher, hash_leaf}
use oursay.Crypto.Canonical.{Codec, Json, null, bool, num, str, arr, obj, content_commitment}
use oursay.Ledger.Store.{Store, StoredTx}
use oursay.Ledger.Connector.{Ledger, get_envelope}
use oursay.Record.Append.{entity_rows}
use oursay.Record.Append.Linked.{LinkedFrom, same_hash-eq, same_hash_refl}
use oursay.Record.Entity.{
  is_json_null, not_false, is_empty, content_of, ledger_agrees, tx_verdict, walk_history,
  verify_entity_chain,
}

is_json_null_eq : (j : Json) → is_json_null j ≡ true → j ≡ null
is_json_null_eq null e = refl
is_json_null_eq (bool b) e = absurd (cc)
is_json_null_eq (num n) e = absurd (cc)
is_json_null_eq (str s) e = absurd (cc)
is_json_null_eq (arr xs) e = absurd (cc)
is_json_null_eq (obj ms) e = absurd (cc)

module _ (h : Hasher) (c : Codec) (verify_row : String → Bool) where
  -- The plaintext of a transaction is gone, or its hash under the id and the salt of the transaction
  -- is the one that the envelope commits to.
  pub data IsCommitted (t : StoredTx) : Type 0 where
    no_salt : t.salt ≡ none → IsCommitted t
    no_content : t.content ≡ none → IsCommitted t
    null_content : t.content ≡ some null → IsCommitted t
    committed :
        (salt : String) (content : Json)
        → t.salt ≡ some salt
        → t.content ≡ some content
        → content_commitment h c (some (str t.tx_id)) salt content ≡ t.content_hash
        → IsCommitted t

  -- A transaction as it was written: its hash is that of its envelope, the ledger has this envelope
  -- and vouches for the row, and the plaintext, if it is still there, is the one committed to.
  pub record IsAuthentic (l : Ledger) (t : StoredTx) : Type 0 where
    pub hash : hash_leaf h (h.utf8 t.envelope) ≡ t.tx_hash
    pub on_ledger : get_envelope t.tx_id l ≡ some t.envelope
    pub vouched : verify_row t.tx_id ≡ true
    pub content : IsCommitted t

  abbrev content_passes : StoredTx → Bool
  unfolding content_of
  content_passes t = not_false (content_of h c verify_row t.tx_id t.content_hash t.salt t.content)

  content_passes-IsCommitted : (t : StoredTx) → content_passes t ≡ true → IsCommitted t
  unfolding content_of
  content_passes-IsCommitted t e = elim (Option-cases t.salt) [
    | inl gone ↦ no_salt gone
    | inr (salt, is_salt) ↦ elim (Option-cases t.content) [
      | inl gone ↦ no_content gone
      | inr (content, is_content) ↦ elim (Bool-cases (is_json_null content)) [
        | inl y ↦ null_content (is_content ∙ ap some (is_json_null_eq content y))
        | inr n ↦
            let hash = content_commitment h c (some (str t.tx_id)) salt content in
            let e' : str_eq hash t.content_hash ≡ true =
              rw (is_salt, is_content, n, content_of) at e in
            committed salt content is_salt is_content ((str_eq_iff hash t.content_hash).0 e')
      ]
    ]
  ]

  IsCommitted-content_passes : (t : StoredTx) → IsCommitted t → content_passes t ≡ true
  unfolding content_of
  IsCommitted-content_passes t (no_salt gone) = rw (gone, content_of) refl
  IsCommitted-content_passes t (no_content gone) = elim (Option-cases t.salt) [
    | inl e ↦ rw (e, content_of) refl
    | inr (salt, e) ↦ rw (e, gone, content_of) refl
  ]
  IsCommitted-content_passes t (null_content gone) = elim (Option-cases t.salt) [
    | inl e ↦ rw (e, content_of) refl
    | inr (salt, e) ↦ rw (e, gone, content_of) refl
  ]
  IsCommitted-content_passes t (committed salt content is_salt is_content same) =
      elim (Bool-cases (is_json_null content)) [
        | inl y ↦ rw (is_salt, is_content, y, content_of) refl
        | inr n ↦
            rw (is_salt, is_content, n, content_of)
              ((str_eq_iff (content_commitment h c (some (str t.tx_id)) salt content)
                  t.content_hash).1
                same)
      ]

  tx_verdict-ok :
      (l : Ledger) (prev : Option String) (t : StoredTx)
      → (tx_verdict h c verify_row l prev t).ok ≡ true
      → IsAuthentic l t × (t.prev_hash ≡ prev)
  unfolding tx_verdict ledger_agrees
  tx_verdict-ok l prev t e = (
    record {
      hash = (str_eq_iff _ _).0 (ground arith);
      on_ledger = same_hash-eq _ _ (ground arith);
      vouched = ground arith;
      content = content_passes-IsCommitted t (ground arith);
    },
    same_hash-eq _ _ (ground arith),
  )

  authentic_ok :
      (l : Ledger) (prev : Option String) (t : StoredTx)
      → IsAuthentic l t
      → t.prev_hash ≡ prev
      → (tx_verdict h c verify_row l prev t).ok ≡ true
  unfolding tx_verdict ledger_agrees
  authentic_ok l prev t a e = ground (
    arith,
    e,
    a.on_ledger,
    a.vouched,
    IsCommitted-content_passes t a.content,
    (str_eq_iff _ _).1 a.hash,
    same_hash_refl prev,
    same_hash_refl (some t.envelope),
  )

  walk_history-ok :
      (l : Ledger) (prev : Option String) (history : List StoredTx)
      → all (λ v. v.ok) (walk_history h c verify_row l prev history) ≡ true
      → All (IsAuthentic l) history × LinkedFrom prev history
  unfolding walk_history
  walk_history-ok l prev [] e = (tt, tt)
  walk_history-ok l prev (t ∷ rest) e =
      let (a, p) = tx_verdict-ok l prev t (ground arith) in
      let (as_written, linked) = walk_history-ok l (some t.tx_hash) rest (ground arith) in
      ((a, as_written), (p, linked))

  authentic_history :
      (l : Ledger) (prev : Option String) (history : List StoredTx)
      → All (IsAuthentic l) history
      → LinkedFrom prev history
      → all (λ v. v.ok) (walk_history h c verify_row l prev history) ≡ true
  unfolding walk_history
  authentic_history l prev [] a k = refl
  authentic_history l prev (t ∷ rest) a k =
      ground
        (arith, authentic_ok l prev t a.0 k.0, authentic_history l (some t.tx_hash) rest a.1 k.1)

  -- The history of an entity is found to be in order exactly if it is not empty, is a hash chain,
  -- and every transaction of it is as it was written.
  pub verify_entity_chain_iff :
      (s : Store) (l : Ledger) (entity_id : String)
      → ((verify_entity_chain h c verify_row s l entity_id).ok ≡ true) ↔ (
          (is_empty (entity_rows entity_id s.rows) ≡ false)
          × LinkedFrom none (entity_rows entity_id s.rows)
          × All (IsAuthentic l) (entity_rows entity_id s.rows))
  unfolding verify_entity_chain
  verify_entity_chain_iff s l entity_id =
      let history = entity_rows entity_id s.rows in
      (
        λ e.
            let found = walk_history-ok l none history (ground arith) in
            (ground arith, found.1, found.0),
        λ p. ground (arith, p.0, authentic_history l none history p.2 p.1),
      )
