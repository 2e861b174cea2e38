-- ===== src/Service/Examples/Parents.antt =====
-- Examples: a comment on a post, and a comment that names itself.
use oursay.Base.{
  zero, suc, sym, ◌∙◌, inl, inr, str_eq, str_eq_iff, Bool-cases, some_inj, arith, ℕ, ◌≡◌, refl,
  true, none, some, List, [], ◌∷◌,
}
use oursay.Crypto.Toy.{toy}
use oursay.Schema.Types.{civic, post, comment, is_root_type}
use oursay.Ledger.Store.{StoredTx}
use oursay.Record.Append.{stored_row}
use oursay.Identity.Envelope.{given}
use oursay.Service.State.{get_head_tx, get_entity_state}
use oursay.Service.Config.{new_tx}
use oursay.Service.Validate.{climb, resolve_root}
use oursay.Service.Roots.{ParentsFirst, IsRootOf, resolve_root-IsRootOf}
use oursay.Service.Examples.{codec, content, envelope}

-- A comment on the post.
abbrev first_row : StoredTx
first_row = stored_row toy codec (new_tx envelope "s" content) "canada" 1 2000

abbrev note : StoredTx
note = record first_row {
  tx_id = "t3";
  seq = 2;
  type = civic comment;
  entity_id = "c1";
  parent_type = some (civic post);
  parent_id = some "e1";
}

abbrev two_rows : List StoredTx
two_rows = first_row ∷ note ∷ []

two_rows-ParentsFirst : ParentsFirst two_rows
unfolding stored_row new_tx get_head_tx is_root_type
two_rows-ParentsFirst e p head is_head no_root named = elim (Bool-cases (str_eq "c1" e)) [
  | inl y ↦
      let e_is : "c1" ≡ e = (str_eq_iff "c1" e).0 y in
      let is_note : some note ≡ some head = rw y at is_head in
      let head_is : note ≡ head = some_inj is_note in
      let up : given head.parent_id ≡ some "e1" = rw (← head_is) refl in
      let p_is : "e1" ≡ p = some_inj (sym up ∙ named) in
      (0, 1, rw (← p_is) refl, rw (← e_is) refl, omega arith)
  | inr k ↦ elim (Bool-cases (str_eq "e1" e)) [
    | inl y ↦
        let is_post : some first_row ≡ some head = rw (k, y) at is_head in
        let root : is_root_type head.type ≡ true = rw (← some_inj is_post) refl in
        absurd (cc (root, no_root))
    | inr l ↦ let stuck : none ≡ some head = rw (k, l) at is_head in absurd (cc)
  ]
]

resolve_root-IsRootOf_example : IsRootOf two_rows (resolve_root "c1" two_rows)
resolve_root-IsRootOf_example = resolve_root-IsRootOf "c1" two_rows two_rows-ParentsFirst

-- A comment that names itself: the climb does not end on any fuel.
abbrev looped : StoredTx
looped = record note { parent_type = none; parent_id = some "c1" }

endless : (fuel : ℕ) → climb fuel "c1" (looped ∷ []) ≡ none
unfolding climb get_entity_state is_root_type stored_row new_tx
endless zero = refl
endless (suc fuel) = endless fuel
