-- ===== src/Ledger/Settler/Retry.antt =====
-- `appendBatchWithRetry` of public-record/src/ledger/settler.ts. The answers of the ledger are
-- arguments: whether the attempt with a number to append succeeds, and whether the health check with
-- a number does. `some true`: it returns; `some false`: it throws; `none`: the fuel is used up. A
-- limit of 0 is none. Waiting between the checks is left out.
use oursay.Base.{
  ◌⊎◌, ℕ, zero, suc, ◌+◌, ◌≤◌, ◌<◌, ◌≡◌, refl, inl, inr, Bool, true, false, not, ◌&&◌, ◌||◌, Option,
  none, some, ◌==◌, ltb, leb, if◌then◌else◌, Bool-cases, arith,
}

pub record OutboxConfig : Type 0 where
  pub retry_attempts : ℕ
  pub healthcheck_attempts : ℕ

-- The loop of attempts while the ledger is healthy; `calls` attempts came before.
abbrev pub retries : ℕ → ℕ → (ℕ → Bool) → ℕ → ℕ → Option Bool
retries zero limit try_append attempt calls = none
retries (suc fuel) limit try_append attempt calls =
    let rest = retries fuel limit try_append (suc attempt) (suc calls) in
    if limit == 0 || ltb attempt limit
    then (if try_append calls then some true else rest)
    else some false

-- The loop of health checks.
abbrev pub check_health : ℕ → ℕ → OutboxConfig → (ℕ → Bool) → (ℕ → Bool) → ℕ → Option Bool
check_health zero fuel policy try_append healthy failures = none
check_health (suc rounds) fuel policy try_append healthy failures =
    let rest = check_health rounds fuel policy try_append healthy (suc failures) in
    if healthy failures
    then retries fuel policy.retry_attempts try_append 0 1
    else if not (policy.healthcheck_attempts == 0) && leb policy.healthcheck_attempts (suc failures)
    then some false
    else rest

unfoldable pub append_batch_with_retry : ℕ → OutboxConfig → (ℕ → Bool) → (ℕ → Bool) → Option Bool
append_batch_with_retry fuel policy try_append healthy =
    let rest = check_health fuel fuel policy try_append healthy 0 in
    if try_append 0 then some true else rest

-- A call that threw, or returned after an attempt that succeeded.
abbrev pub Ends : (ℕ → Bool) → Option Bool → Type 0
Ends try_append out = (out ≡ some false) ⊎ ((n : ℕ) × (out ≡ some true) × (try_append n ≡ true))

retries-Ends :
    (fuel limit : ℕ) (try_append : ℕ → Bool) (attempt calls : ℕ)
    → 1 ≤ limit
    → attempt ≤ limit
    → limit < fuel + attempt
    → Ends try_append (retries fuel limit try_append attempt calls)
retries-Ends zero limit try_append attempt calls l a f = absurd (omega (arith, a, f))
retries-Ends (suc fuel) limit try_append attempt calls l a f =
    elim (Bool-cases (limit == 0 || ltb attempt limit)) [
      | inr n ↦ rw n (inl refl)
      | inl y ↦ elim (Bool-cases (try_append calls)) [
        | inl ok ↦ rw (y, ok) (inr (calls, refl, ok))
        | inr failed ↦
            let more : attempt < limit = ground (arith, y, l) in
            rw (y, failed)
              (retries-Ends fuel limit try_append (suc attempt) (suc calls) l (omega (arith, more))
                (omega (arith, f)))
      ]
    ]

check_health-Ends :
    (rounds fuel : ℕ) (policy : OutboxConfig) (try_append healthy : ℕ → Bool) (failures : ℕ)
    → 1 ≤ policy.retry_attempts
    → policy.retry_attempts < fuel
    → 1 ≤ policy.healthcheck_attempts
    → failures < policy.healthcheck_attempts
    → policy.healthcheck_attempts ≤ rounds + failures
    → Ends try_append (check_health rounds fuel policy try_append healthy failures)
check_health-Ends zero fuel policy try_append healthy failures l f one below enough =
    absurd (omega (arith, below, enough))
check_health-Ends (suc rounds) fuel policy try_append healthy failures l f one below enough =
    elim (Bool-cases (healthy failures)) [
      | inl up ↦ rw up (
          retries-Ends fuel policy.retry_attempts try_append 0 1 l (omega arith) (omega (arith, f)))
      | inr down ↦
          let last =
            not (policy.healthcheck_attempts == 0)
            && leb policy.healthcheck_attempts (suc failures) in
          elim (Bool-cases last) [
            | inl y ↦ rw (down, y) (inl refl)
            | inr n ↦
                let more : suc failures < policy.healthcheck_attempts = ground (arith, n, one) in
                rw (down, n)
                  (check_health-Ends rounds fuel policy try_append healthy (suc failures) l f one
                    more (omega (arith, enough)))
          ]
    ]

-- Under a policy that limits both the attempts and the health checks, `appendBatchWithRetry` ends
-- within as many rounds as the two limits and one more, whatever the ledger answers, and if it
-- returns, then an attempt to append succeeded.
pub append_batch_with_retry-Ends :
    (policy : OutboxConfig) (try_append healthy : ℕ → Bool)
    → 1 ≤ policy.retry_attempts
    → 1 ≤ policy.healthcheck_attempts
    → Ends try_append (
        append_batch_with_retry
          (policy.retry_attempts + policy.healthcheck_attempts + 1)
          policy
          try_append
          healthy)
unfolding append_batch_with_retry
append_batch_with_retry-Ends policy try_append healthy l one = elim (Bool-cases (try_append 0)) [
  | inl ok ↦ rw ok (inr (0, refl, ok))
  | inr failed ↦
      let fuel = policy.retry_attempts + policy.healthcheck_attempts + 1 in
      rw failed (
        check_health-Ends fuel fuel policy try_append healthy 0 l (omega arith) one (omega arith)
          (omega arith))
]

retries-unlimited :
    (more : ℕ) (fuel : ℕ) (try_append : ℕ → Bool) (attempt calls : ℕ)
    → try_append (more + calls) ≡ true
    → more < fuel
    → retries fuel 0 try_append attempt calls ≡ some true
retries-unlimited more zero try_append attempt calls e f = absurd (omega (arith, f))
retries-unlimited zero (suc fuel) try_append attempt calls e f =
    let here : 0 + calls ≡ calls = omega arith in
    let e' : try_append calls ≡ true = rw here at e in rw e' refl
retries-unlimited (suc more) (suc fuel) try_append attempt calls e f =
    elim (Bool-cases (try_append calls)) [
      | inl ok ↦ rw ok refl
      | inr failed ↦
          let shift : more + suc calls ≡ suc more + calls = omega arith in
          let e' : try_append (more + suc calls) ≡ true = rw shift e in
          rw failed
            (retries-unlimited more fuel try_append (suc attempt) (suc calls) e' (omega (arith, f)))
    ]

-- No limits.
abbrev pub unlimited : OutboxConfig
unlimited = record { retry_attempts = 0; healthcheck_attempts = 0 }

check_health-unlimited :
    (rounds fuel : ℕ) (try_append healthy : ℕ → Bool) (failures up n : ℕ)
    → healthy (up + failures) ≡ true
    → up < rounds
    → try_append (n + 1) ≡ true
    → n < fuel
    → check_health rounds fuel unlimited try_append healthy failures ≡ some true
check_health-unlimited zero fuel try_append healthy failures up n e u ok f =
    absurd (omega (arith, u))
check_health-unlimited (suc rounds) fuel try_append healthy failures zero n e u ok f =
    let here : 0 + failures ≡ failures = omega arith in
    let e' : healthy failures ≡ true = rw here at e in
    rw e' (retries-unlimited n fuel try_append 0 1 ok f)
check_health-unlimited (suc rounds) fuel try_append healthy failures (suc up) n e u ok f =
    elim (Bool-cases (healthy failures)) [
      | inl y ↦ rw y (retries-unlimited n fuel try_append 0 1 ok f)
      | inr down ↦
          let shift : up + suc failures ≡ suc up + failures = omega arith in
          let e' : healthy (up + suc failures) ≡ true = rw shift e in
          let ih =
            check_health-unlimited rounds fuel try_append healthy (suc failures) up n e'
              (omega (arith, u)) ok f in
          rw down ih
    ]

-- Under a policy without limits, if some health check and some attempt after the first would
-- succeed, then `appendBatchWithRetry` returns, within as many rounds as their numbers and one more.
pub append_batch_with_retry-recovers :
    (try_append healthy : ℕ → Bool) (up n : ℕ)
    → healthy up ≡ true
    → try_append (n + 1) ≡ true
    → append_batch_with_retry (up + n + 1) unlimited try_append healthy ≡ some true
unfolding append_batch_with_retry
append_batch_with_retry-recovers try_append healthy up n e ok = elim (Bool-cases (try_append 0)) [
  | inl first ↦ rw first refl
  | inr failed ↦
      let shift : up + 0 ≡ up = omega arith in
      let e' : healthy (up + 0) ≡ true = rw shift e in
      rw failed (
        check_health-unlimited (up + n + 1) (up + n + 1) try_append healthy 0 up n e' (omega arith)
          ok (omega arith))
]
