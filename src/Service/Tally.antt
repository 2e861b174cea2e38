-- ===== src/Service/Tally.antt =====
-- `getPetitionSignatureCount` of public-record/src/private/store.ts, with the views
-- `active_signatures` and `petition_signature_counts` of schema/postgres.sql.ts.
pub mod Polls
use oursay.Base.{
  ℕ, ◌+◌, ◌≤◌, ◌≡◌, ◌≢◌, refl, inl, inr, String, Bool, true, ◌&&◌, none, some, List, [], ◌∷◌,
  length, All, str_eq, str_eq_iff, if◌then◌else◌, Bool-cases, arith,
}
use oursay.Schema.Types.{civic, petition_signature, same_type}
use oursay.Ledger.Store.{StoredTx, filter}
use oursay.Identity.Tables.{has}
use oursay.Crypto.Hash.{Hasher}
use oursay.Crypto.Canonical.{Codec}
use oursay.Identity.Curve.{Curve}
use oursay.Service.State.{active_rows, is_value, bears_nullifier}
use oursay.Service.Config.{Config, Db}
use oursay.Service.Reach.{Reach}
use oursay.Service.Singleton.{Reach-OneActive}
use oursay.Service.Singleton.Count.{holders, count_if, one_if}

abbrev pub is_signature_of : String → StoredTx → Bool
is_signature_of petition_id t =
    same_type t.type (civic petition_signature) && is_value t.parent_id petition_id

-- The rows of `active_signatures` for a petition.
unfoldable pub active_signatures : String → List StoredTx → List StoredTx
active_signatures petition_id rows = filter (is_signature_of petition_id) (active_rows rows)

-- `COALESCE(nullifier, author_pubkey)`.
abbrev pub participant : StoredTx → String
participant t = elim t.nullifier [ some n ↦ n | none ↦ t.author_pubkey ]

-- `COUNT(DISTINCT ...)`, over the participants of rows.
abbrev pub count_participants : List StoredTx → ℕ
count_participants [] = 0
count_participants (t ∷ rest) =
    let more = count_participants rest in
    if has (λ r. str_eq (participant r) (participant t)) rest then more else 1 + more

unfoldable pub get_petition_signature_count : String → List StoredTx → ℕ
get_petition_signature_count petition_id rows =
    count_participants (active_signatures petition_id rows)

-- A row of the parent with a nullifier that is not empty.
abbrev pub IsVerified : String → StoredTx → Type 0
IsVerified p t = (n : String) × (t.nullifier ≡ some n) × (n ≢ "") × (is_value t.parent_id p ≡ true)

-- No nullifier is borne twice.
abbrev pub Distinct : String → List StoredTx → Type 0
Distinct p ts = (n : String) → n ≢ "" → count_if (bears_nullifier p n) ts ≤ 1

pub count_if-filter {ℓ} :
    {A : Type ℓ} (p q : A → Bool) (xs : List A) → count_if p (filter q xs) ≤ count_if p xs
count_if-filter p q [] = omega arith
count_if-filter p q (x ∷ xs) = elim (Bool-cases (q x)) [
  | inl y ↦ rw y (omega (arith, count_if-filter p q xs))
  | inr n ↦ rw n (omega (arith, count_if-filter p q xs))
]

-- A participant who comes again bears the nullifier.
has-count_if :
    (p n : String) (ts : List StoredTx)
    → All (IsVerified p) ts
    → has (λ r. str_eq (participant r) n) ts ≡ true
    → 1 ≤ count_if (bears_nullifier p n) ts
has-count_if p n [] a e = absurd (cc)
has-count_if p n (t ∷ rest) ((m, is_m, ne, of_p), others) e =
    elim (Bool-cases (str_eq (participant t) n)) [
      | inl y ↦
          let y' : str_eq m n ≡ true = rw is_m at y in
          let bears : bears_nullifier p n t ≡ true = rw (of_p, is_m, y') refl in
          rw bears (omega arith)
      | inr k ↦
          let e' : has (λ r. str_eq (participant r) n) rest ≡ true = rw k at e in
          omega (arith, has-count_if p n rest others e')
    ]

pub count_participants-length :
    (p : String) (ts : List StoredTx)
    → All (IsVerified p) ts
    → Distinct p ts
    → count_participants ts ≡ length ts
count_participants-length p [] a d = refl
count_participants-length p (t ∷ rest) ((m, is_m, ne, of_p), others) d =
    let own : str_eq m m ≡ true = (str_eq_iff m m).1 refl in
    let bears : bears_nullifier p m t ≡ true = rw (of_p, is_m, own) refl in
    let once : one_if (bears_nullifier p m t) + count_if (bears_nullifier p m) rest ≤ 1 = d m ne in
    let once' : 1 + count_if (bears_nullifier p m) rest ≤ 1 = rw bears at once in
    let ih = count_participants-length p rest others (λ n e. omega (arith, d n e)) in
    elim (Bool-cases (has (λ r. str_eq (participant r) (participant t)) rest)) [
      | inl y ↦
          let y' : has (λ r. str_eq (participant r) m) rest ≡ true = rw is_m at y in
          absurd (omega (arith, once', has-count_if p m rest others y'))
      | inr k ↦ rw (k, ih) (omega arith)
    ]

module _ (h : Hasher) (codec : Codec) (curve : Curve) (cfg : Config) where
  -- In every state that the calls of the service reach from a store with no rows, if every active
  -- signature of a petition bears a nullifier that is not empty, then the count of the petition is
  -- the number of its active signatures: no two are of one participant.
  pub get_petition_signature_count-length :
      (start db : Db) (petition_id : String)
      → start.store.rows ≡ []
      → Reach h codec curve cfg start db
      → All (IsVerified petition_id) (active_signatures petition_id db.store.rows)
      → get_petition_signature_count petition_id db.store.rows
        ≡ length (active_signatures petition_id db.store.rows)
  unfolding get_petition_signature_count active_signatures holders
  get_petition_signature_count-length start db petition_id e r verified =
      let one = Reach-OneActive h codec curve cfg start db e r in
      let all_rows = active_rows db.store.rows in
      count_participants-length petition_id (filter (is_signature_of petition_id) all_rows) verified
        (λ n ne. omega (
          arith,
          count_if-filter (bears_nullifier petition_id n) (is_signature_of petition_id) all_rows,
          one petition_id n ne,
        ))
