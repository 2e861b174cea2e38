-- ===== src/Worker/Wake.antt =====
-- The worker wakes in time: within the idle limit, and not after the age deadline of any chain.
use oursay.Base.{
  ℕ, ◌≤◌, ◌⊎◌, inl, inr, Option, none, some, List, [], ◌∷◌, All, ltb, arith, Bool-cases,
}
use oursay.Worker.{
  ChainDecision, until_age_deadline, nearer, nearest_deadline, clamp, compute_next_wake_ms,
}

-- One time is not after another; `none` is never.
abbrev Before : Option ℕ → Option ℕ → Type 0
Before o none = Unit
Before none (some n) = ⊥
Before (some m) (some n) = m ≤ n

Before-refl : (o : Option ℕ) → Before o o
Before-refl none = tt
Before-refl (some n) = omega arith

Before-trans : (a b c : Option ℕ) → Before a b → Before b c → Before a c
Before-trans a b none x y = tt
Before-trans a none (some n) x y = absurd y
Before-trans none (some m) (some n) x y = absurd x
Before-trans (some l) (some m) (some n) x y = omega (arith, x, y)

nearer-Before : (a b : Option ℕ) → Before (nearer a b) a × Before (nearer a b) b
nearer-Before none none = (tt, tt)
nearer-Before none (some m) = (tt, omega arith)
nearer-Before (some n) none = (omega arith, tt)
nearer-Before (some n) (some m) = (ground arith, ground arith)

nearest_deadline-Before :
    (o : Option ℕ) (ds : List ChainDecision)
    → Before (nearest_deadline o ds) o
      × All (λ d. Before (nearest_deadline o ds) (until_age_deadline d)) ds
unfolding nearest_deadline
nearest_deadline-Before o [] = (Before-refl o, tt)
nearest_deadline-Before o (d ∷ rest) =
    let o' = nearer (until_age_deadline d) o in
    let both = nearer-Before (until_age_deadline d) o in
    let (x, later) = nearest_deadline-Before o' rest in
    let n = nearest_deadline o' rest in
    (Before-trans n o' o x both.1, (Before-trans n o' (until_age_deadline d) x both.0, later))

-- Not after a deadline that is further away than the least interval.
abbrev pub InTime : ℕ → ℕ → Option ℕ → Type 0
InTime min_interval wake none = Unit
InTime min_interval wake (some n) = (wake ≤ n) ⊎ (wake ≤ min_interval)

clamp-InTime :
    (max_idle min_interval : ℕ) (o d : Option ℕ)
    → Before o d
    → InTime min_interval (clamp max_idle min_interval o) d
clamp-InTime max_idle min_interval o none b = tt
clamp-InTime max_idle min_interval none (some n) b = absurd b
clamp-InTime max_idle min_interval (some m) (some n) b = elim (Bool-cases (ltb m min_interval)) [
  | inl t ↦ inr (rw t (ground arith))
  | inr f ↦ inl (rw f (ground (arith, b)))
]

All-InTime :
    (max_idle min_interval : ℕ) (o : Option ℕ) (ds : List ChainDecision)
    → All (λ d. Before o (until_age_deadline d)) ds
    → All (λ d. InTime min_interval (clamp max_idle min_interval o) (until_age_deadline d)) ds
All-InTime max_idle min_interval o [] a = tt
All-InTime max_idle min_interval o (d ∷ ds) a = (
  clamp-InTime max_idle min_interval o (until_age_deadline d) a.0,
  All-InTime max_idle min_interval o ds a.1,
)

clamp_bounds :
    (max_idle min_interval : ℕ) (o : Option ℕ)
    → min_interval ≤ max_idle
    → (min_interval ≤ clamp max_idle min_interval o) × (clamp max_idle min_interval o ≤ max_idle)
clamp_bounds max_idle min_interval none le = (le, omega arith)
clamp_bounds max_idle min_interval (some n) le = (ground (arith, le), ground (arith, le))

-- If the least interval is not above the idle limit, then the time to the next wake is between the
-- two, and for every chain that has an age deadline it is not after the deadline, or not after the
-- least interval.
pub compute_next_wake_ms-InTime :
    (max_idle min_interval : ℕ) (ds : List ChainDecision)
    → min_interval ≤ max_idle
    → (min_interval ≤ compute_next_wake_ms max_idle min_interval ds)
      × (compute_next_wake_ms max_idle min_interval ds ≤ max_idle)
      × All
          (λ d.
            InTime min_interval
              (compute_next_wake_ms max_idle min_interval ds)
              (until_age_deadline d))
          ds
unfolding compute_next_wake_ms
compute_next_wake_ms-InTime max_idle min_interval ds le =
    let o = nearest_deadline none ds in
    let bounds = clamp_bounds max_idle min_interval o le in
    (bounds.0, bounds.1, All-InTime max_idle min_interval o ds (nearest_deadline-Before none ds).1)
