-- ===== src/Service/Tally/Polls.antt =====
-- The view `poll_results` of public-record/src/schema/postgres.sql.ts. What `content->>'option'`
-- gives for a row is an argument, and the order of the groups is left open by the view.
use oursay.Base.{
  ℕ, ◌+◌, ◌≡◌, refl, ap, ◌∙◌, inl, inr, String, Bool, true, false, ◌&&◌, Option, none, some, List,
  [], ◌∷◌, length, All, str_eq, str_eq_iff, if◌then◌else◌, Bool-cases, arith,
}
use oursay.Schema.Types.{civic, vote, same_type}
use oursay.Ledger.Store.{StoredTx, filter}
use oursay.Identity.Tables.{has}
use oursay.Crypto.Hash.{Hasher}
use oursay.Crypto.Canonical.{Codec}
use oursay.Identity.Curve.{Curve}
use oursay.Service.State.{active_rows, is_value, bears_nullifier}
use oursay.Service.Config.{Config, Db}
use oursay.Service.Reach.{Reach}
use oursay.Service.Singleton.{Reach-OneActive}
use oursay.Service.Singleton.Count.{holders, count_if, one_if}
use oursay.Service.Tally.{
  IsVerified, Distinct, count_participants, count_participants-length, count_if-filter,
}

abbrev pub is_vote_on : String → StoredTx → Bool
is_vote_on poll_id t = same_type t.type (civic vote) && is_value t.parent_id poll_id

unfoldable pub active_votes : String → List StoredTx → List StoredTx
active_votes poll_id rows = filter (is_vote_on poll_id) (active_rows rows)

-- `GROUP BY` takes two nulls for the same.
abbrev pub same_option : Option String → Option String → Bool
same_option none none = true
same_option none (some b) = false
same_option (some a) none = false
same_option (some a) (some b) = str_eq a b

-- The groups of a list of options.
abbrev pub groups : List (Option String) → List (Option String)
groups [] = []
groups (o ∷ rest) = let more = groups rest in if has (same_option o) rest then more else o ∷ more

abbrev pub total : List (Option String × ℕ) → ℕ
total [] = 0
total (group ∷ rest) = group.1 + total rest

same_option_eq : (a b : Option String) → same_option a b ≡ true → a ≡ b
same_option_eq none none e = refl
same_option_eq none (some b) e = absurd (cc)
same_option_eq (some a) none e = absurd (cc)
same_option_eq (some a) (some b) e = ap some ((str_eq_iff a b).0 e)

same_option_refl : (a : Option String) → same_option a a ≡ true
same_option_refl none = refl
same_option_refl (some a) = (str_eq_iff a a).1 refl

-- An option that occurs is in one group.
count_if-groups :
    (x : Option String) (os : List (Option String))
    → count_if (same_option x) (groups os) ≡ one_if (has (same_option x) os)
count_if-groups x [] = refl
count_if-groups x (o ∷ rest) =
    let ih = count_if-groups x rest in
    elim (Bool-cases (has (same_option o) rest)) [
      | inl y ↦ elim (Bool-cases (same_option x o)) [
        | inl same ↦
            let y' : has (same_option x) rest ≡ true = rw (same_option_eq x o same) y in
            rw (y, ih, y', same) refl
        | inr other ↦ rw (y, ih, other) refl
      ]
      | inr n ↦ elim (Bool-cases (same_option x o)) [
        | inl same ↦
            let n' : has (same_option x) rest ≡ false = rw (same_option_eq x o same) n in
            rw (n, same, ih, n') refl
        | inr other ↦ rw (n, other, ih) (omega arith)
      ]
    ]

All-filter {ℓ κ} :
    {A : Type ℓ} (P : A → Type κ) (q : A → Bool) (xs : List A) → All P xs → All P (filter q xs)
All-filter P q [] a = tt
All-filter P q (x ∷ xs) (own, others) = elim (Bool-cases (q x)) [
  | inl y ↦ rw y (own, All-filter P q xs others)
  | inr n ↦ rw n (All-filter P q xs others)
]

module _ (option_of : StoredTx → Option String) where
  abbrev pub chooses : Option String → StoredTx → Bool
  chooses o t = same_option (option_of t) o

  abbrev pub options : List StoredTx → List (Option String)
  options [] = []
  options (t ∷ rest) = option_of t ∷ options rest

  abbrev pub tally : List (Option String) → List StoredTx → List (Option String × ℕ)
  tally [] ts = []
  tally (o ∷ os) ts = (o, count_participants (filter (chooses o) ts)) ∷ tally os ts

  unfoldable pub poll_results : String → List StoredTx → List (Option String × ℕ)
  poll_results poll_id rows =
      let votes = active_votes poll_id rows in tally (groups (options votes)) votes

  abbrev lengths : List (Option String) → List StoredTx → ℕ
  lengths [] ts = 0
  lengths (o ∷ os) ts = length (filter (chooses o) ts) + lengths os ts

  total-tally :
      (p : String) (os : List (Option String)) (ts : List StoredTx)
      → All (IsVerified p) ts
      → Distinct p ts
      → total (tally os ts) ≡ lengths os ts
  total-tally p [] ts a d = refl
  total-tally p (o ∷ os) ts a d =
      let own =
        count_participants-length p (filter (chooses o) ts)
          (All-filter (IsVerified p) (chooses o) ts a)
          (λ n ne. omega (arith, d n ne, count_if-filter (bears_nullifier p n) (chooses o) ts)) in
      rw (own, total-tally p os ts a d) refl

  lengths_nil : (os : List (Option String)) → lengths os [] ≡ 0
  lengths_nil [] = refl
  lengths_nil (o ∷ os) = omega (arith, lengths_nil os)

  lengths_cons :
      (os : List (Option String)) (t : StoredTx) (ts : List StoredTx)
      → lengths os (t ∷ ts) ≡ count_if (same_option (option_of t)) os + lengths os ts
  lengths_cons [] t ts = omega arith
  lengths_cons (o ∷ os) t ts =
      let ih = lengths_cons os t ts in
      elim (Bool-cases (same_option (option_of t) o)) [
        | inl y ↦ rw (y, ih) (omega arith)
        | inr n ↦ rw (n, ih) (omega arith)
      ]

  -- A list of options that has the option of each row once.
  abbrev OnceIn : List (Option String) → StoredTx → Type 0
  OnceIn os t = count_if (same_option (option_of t)) os ≡ 1

  lengths-OnceIn :
      (os : List (Option String)) (ts : List StoredTx)
      → All (OnceIn os) ts
      → lengths os ts ≡ length ts
  lengths-OnceIn os [] a = lengths_nil os
  lengths-OnceIn os (t ∷ ts) (own, others) =
      rw (lengths_cons os t ts, own, lengths-OnceIn os ts others) (omega arith)

  groups-OnceIn :
      (os : List (Option String)) (ts : List StoredTx)
      → All (λ t. has (same_option (option_of t)) os ≡ true) ts
      → All (OnceIn (groups os)) ts
  groups-OnceIn os [] a = tt
  groups-OnceIn os (t ∷ ts) (own, others) =
      (rw (count_if-groups (option_of t) os, own) refl, groups-OnceIn os ts others)

  has_later :
      (o : Option String) (os : List (Option String)) (ts : List StoredTx)
      → All (λ t. has (same_option (option_of t)) os ≡ true) ts
      → All (λ t. has (same_option (option_of t)) (o ∷ os) ≡ true) ts
  has_later o os [] a = tt
  has_later o os (t ∷ ts) (own, others) = (ground (arith, own), has_later o os ts others)

  has-options :
      (ts : List StoredTx) → All (λ t. has (same_option (option_of t)) (options ts) ≡ true) ts
  has-options [] = tt
  has-options (t ∷ ts) = (
    rw (same_option_refl (option_of t)) refl,
    has_later (option_of t) (options ts) ts (has-options ts),
  )

  module _ (h : Hasher) (codec : Codec) (curve : Curve) (cfg : Config) where
    -- In every state that the calls of the service reach from a store with no rows, if every active
    -- vote on a poll bears a nullifier that is not empty, then the counts of its options sum up to
    -- the number of its active votes: each vote is counted once, for one option.
    pub total-poll_results :
        (start db : Db) (poll_id : String)
        → start.store.rows ≡ []
        → Reach h codec curve cfg start db
        → All (IsVerified poll_id) (active_votes poll_id db.store.rows)
        → total (poll_results poll_id db.store.rows) ≡ length (active_votes poll_id db.store.rows)
    unfolding poll_results active_votes holders
    total-poll_results start db poll_id e r verified =
        let one = Reach-OneActive h codec curve cfg start db e r in
        let all_rows = active_rows db.store.rows in
        let votes = filter (is_vote_on poll_id) all_rows in
        let counted = total-tally poll_id (groups (options votes)) votes verified (λ n ne. omega (
          arith,
          count_if-filter (bears_nullifier poll_id n) (is_vote_on poll_id) all_rows,
          one poll_id n ne,
        )) in
        counted
        ∙ lengths-OnceIn (groups (options votes)) votes
            (groups-OnceIn (options votes) votes (has-options votes))
