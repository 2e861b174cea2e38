-- ===== src/Account/Otp/SingleUse.antt =====
-- A code is used once: at most one code of an address and purpose is outstanding, and after a
-- verification that succeeds none is.
use oursay.Base.{
  ℕ, suc, ◌≤◌, ◌≡◌, inl, inr, refl, ap, String, true, false, ◌&&◌, none, some, List, [], ◌∷◌, ltb,
  str_eq, str_eq_iff, Bool-cases, Option-cases, some_inj, arith, if◌then◌else◌,
}
use oursay.Crypto.Hash.{Hasher}
use oursay.Account.Otp.{
  OtpPurpose, OtpRecord, Tables, OtpConfig, OtpError, OtpRequest, same_purpose, is_outstanding,
  consume_outstanding, get_latest_active, increment_attempts, consume, enforce_rate_limit, request,
  check_code, verify, draft_missing,
}

-- How many codes of an address and purpose are outstanding.
unfoldable pub outstanding : String → OtpPurpose → List OtpRecord → ℕ
outstanding email purpose [] = 0
outstanding email purpose (o ∷ rest) =
    let n = outstanding email purpose rest in if is_outstanding email purpose o then suc n else n

module _ (email : String) (purpose : OtpPurpose) where
  increment_attempts-outstanding :
      (id : String) (os : List OtpRecord)
      → outstanding email purpose (increment_attempts id os) ≡ outstanding email purpose os
  unfolding outstanding increment_attempts is_outstanding
  increment_attempts-outstanding id [] = refl
  increment_attempts-outstanding id (o ∷ rest) =
      let ih = increment_attempts-outstanding id rest in
      elim (Bool-cases (str_eq o.id id)) [ inl t ↦ rw (t, ih) refl | inr f ↦ rw (f, ih) refl ]

  consume-outstanding :
      (id : String) (os : List OtpRecord)
      → outstanding email purpose (consume id os) ≤ outstanding email purpose os
  unfolding outstanding consume is_outstanding
  consume-outstanding id [] = omega arith
  consume-outstanding id (o ∷ rest) =
      let ih = consume-outstanding id rest in
      elim (Bool-cases (str_eq o.id id)) [
        | inl t ↦ rw t (ground (arith, ih))
        | inr f ↦ rw f (ground (arith, ih))
      ]

  consume_outstanding-none :
      (os : List OtpRecord) → outstanding email purpose (consume_outstanding email purpose os) ≡ 0
  unfolding outstanding consume_outstanding is_outstanding
  consume_outstanding-none [] = refl
  consume_outstanding-none (o ∷ rest) =
      let ih = consume_outstanding-none rest in
      elim (Bool-cases (is_outstanding email purpose o)) [
        | inl t ↦ rw t (ground (arith, ih))
        | inr f ↦ rw (f, ih) (ground arith)
      ]

  closed_record :
      (o : OtpRecord) → is_outstanding email purpose (record o { consumed = true }) ≡ false
  unfolding is_outstanding
  closed_record o = ground arith

  consumed_tail :
      (o : OtpRecord) (rest : List OtpRecord) (id : String)
      → suc (outstanding email purpose (consume id rest)) ≤ outstanding email purpose rest
      → suc (outstanding email purpose (consume id (o ∷ rest)))
        ≤ outstanding email purpose (o ∷ rest)
  unfolding outstanding consume
  consumed_tail o rest id less = elim (Bool-cases (str_eq o.id id)) [
    | inl y ↦ elim (Bool-cases (is_outstanding email purpose o)) [
      | inl due ↦ rw (y, closed_record o, due) (omega (arith, less))
      | inr not_due ↦ rw (y, closed_record o, not_due) (omega (arith, less))
    ]
    | inr n ↦ elim (Bool-cases (is_outstanding email purpose o)) [
      | inl due ↦ rw (n, due) (omega (arith, less))
      | inr not_due ↦ rw (n, not_due) (omega (arith, less))
    ]
  ]

  consumed_head :
      (o : OtpRecord) (rest : List OtpRecord) (id : String)
      → str_eq o.id id ≡ true
      → is_outstanding email purpose o ≡ true
      → outstanding email purpose (consume id rest) ≤ outstanding email purpose rest
      → suc (outstanding email purpose (consume id (o ∷ rest)))
        ≤ outstanding email purpose (o ∷ rest)
  unfolding outstanding consume
  consumed_head o rest id self due less = rw (self, due, closed_record o) (omega (arith, less))

  -- The code that is found is outstanding, and consuming it leaves one fewer.
  consume-found :
      (now : ℕ) (os : List OtpRecord) {rec : OtpRecord}
      → get_latest_active email purpose now os ≡ some rec
      → suc (outstanding email purpose (consume rec.id os)) ≤ outstanding email purpose os
  unfolding outstanding get_latest_active consume is_outstanding
  consume-found now [] e = absurd (cc)
  consume-found now (o ∷ rest) {rec = rec} e =
      elim (Bool-cases (is_outstanding email purpose o && ltb now o.expires_at)) [
        | inl t ↦
            let e' : some o ≡ some rec = rw t at e in
            let same = (str_eq_iff o.id rec.id).1 (ap (λ (x : OtpRecord). x.id) (some_inj e')) in
            consumed_head o rest rec.id same (ground (arith, t)) (consume-outstanding rec.id rest)
        | inr f ↦
            let e' : get_latest_active email purpose now rest ≡ some rec = rw f at e in
            let less = consume-found now rest e' in consumed_tail o rest rec.id less
      ]

  outstanding-absent :
      (now : ℕ) (os : List OtpRecord)
      → outstanding email purpose os ≡ 0
      → get_latest_active email purpose now os ≡ none
  unfolding outstanding get_latest_active
  outstanding-absent now [] e = refl
  outstanding-absent now (o ∷ rest) e = ground (arith, e, outstanding-absent now rest)

module _ (cfg : OtpConfig) (h : Hasher) (pepper : String) where
  get_latest_active-increment_attempts :
      (email : String) (purpose : OtpPurpose) (now : ℕ) (id : String) (os : List OtpRecord)
      {rec : OtpRecord}
      → get_latest_active email purpose now os ≡ some rec
      → (rec' : OtpRecord) × (get_latest_active email purpose now (increment_attempts id os)
          ≡ some rec')
        × (rec'.id ≡ rec.id)
  unfolding get_latest_active increment_attempts is_outstanding
  get_latest_active-increment_attempts email purpose now id [] e = absurd (cc)
  get_latest_active-increment_attempts email purpose now id (o ∷ rest) {rec = rec} e =
      elim (Bool-cases (is_outstanding email purpose o && ltb now o.expires_at)) [
        | inl t ↦
            let e' : some o ≡ some rec = rw t at e in
            let same = ap (λ (x : OtpRecord). x.id) (some_inj e') in
            elim (Bool-cases (str_eq o.id id)) [
              | inl y ↦ (record o { attempts = suc o.attempts }, rw (y, t) refl, same)
              | inr n ↦ (o, rw (n, t) refl, same)
            ]
        | inr f ↦
            let e' : get_latest_active email purpose now rest ≡ some rec = rw f at e in
            let (rec', p, q) = get_latest_active-increment_attempts email purpose now id rest e' in
            elim (Bool-cases (str_eq o.id id)) [
              | inl y ↦ (rec', rw (y, f) p, q)
              | inr n ↦ (rec', rw (n, f) p, q)
            ]
      ]

  checked-none :
      (email code : String) (purpose : OtpPurpose) (now : ℕ) (os : List OtpRecord) (rec : OtpRecord)
      → outstanding email purpose os ≤ 1
      → get_latest_active email purpose now os ≡ some rec
      → (check_code cfg h pepper email code rec os).1 ≡ none
      → outstanding email purpose (check_code cfg h pepper email code rec os).0 ≡ 0
  unfolding check_code
  checked-none email code purpose now os rec one found e =
      let counted = increment_attempts rec.id os in
      let same = increment_attempts-outstanding email purpose rec.id os in
      let (rec', p, q) = get_latest_active-increment_attempts email purpose now rec.id os found in
      let fewer = consume-found email purpose now counted p in
      let fewer' : suc (outstanding email purpose (consume rec.id counted))
          ≤ outstanding email purpose counted =
        rw q at fewer in
      let left : outstanding email purpose (consume rec.id counted) ≡ 0 =
        omega (arith, fewer', same, one) in
      ground (arith, e, left)

  -- After a verification that succeeds, the code that it found is the only one that was outstanding,
  -- so that none is left.
  verified-none :
      (email code : String) (purpose : OtpPurpose) (now : ℕ) (os : List OtpRecord)
      → outstanding email purpose os ≤ 1
      → (verify cfg h pepper email code purpose now os).1 ≡ none
      → outstanding email purpose (verify cfg h pepper email code purpose now os).0 ≡ 0
  unfolding verify
  verified-none email code purpose now os one e =
      elim (Option-cases (get_latest_active email purpose now os)) [
        | inl absent ↦
            let refused : some OtpError.otp_invalid ≡ none = rw (absent, verify) at e in absurd (cc)
        | inr (rec, found) ↦
            let e' : (check_code cfg h pepper email code rec os).1 ≡ none =
              rw (found, verify) at e in
            rw (found, verify) (checked-none email code purpose now os rec one found e')
      ]

  -- If at most one code of an address and purpose is outstanding, then after a verification that
  -- succeeds every verification for them is refused as invalid, at any time and with any code, until
  -- a new code is requested.
  pub verify_single_use :
      (email code : String) (purpose : OtpPurpose) (now : ℕ) (os : List OtpRecord) (again : String)
      (later : ℕ)
      → outstanding email purpose os ≤ 1
      → (verify cfg h pepper email code purpose now os).1 ≡ none
      → (verify cfg h pepper email again purpose later
          (verify cfg h pepper email code purpose now os).0).1
        ≡ some OtpError.otp_invalid
  unfolding verify
  verify_single_use email code purpose now os again later one e =
      refused again later (verify cfg h pepper email code purpose now os).0
        (verified-none email code purpose now os one e)
    where
      refused :
          (again : String) (later : ℕ) (left : List OtpRecord)
          → outstanding email purpose left ≡ 0
          → (verify cfg h pepper email again purpose later left).1 ≡ some OtpError.otp_invalid
      refused again later left z = rw (outstanding-absent email purpose later left z, verify) refl

  fresh_code :
      (email : String) (purpose : OtpPurpose) (o : OtpRecord) (os : List OtpRecord)
      → is_outstanding email purpose o ≡ true
      → outstanding email purpose os ≡ 0
      → outstanding email purpose (o ∷ os) ≡ 1
  unfolding outstanding
  fresh_code email purpose o os y z = rw (y, z) refl

  same_purpose_refl : (p : OtpPurpose) → same_purpose p p ≡ true
  same_purpose_refl OtpPurpose.registration = refl
  same_purpose_refl OtpPurpose.recovery = refl
  same_purpose_refl OtpPurpose.login = refl

  own_code :
      (email : String) (purpose : OtpPurpose) (o : OtpRecord)
      → o.email_canonical ≡ email
      → o.purpose ≡ purpose
      → o.consumed ≡ false
      → is_outstanding email purpose o ≡ true
  unfolding is_outstanding
  own_code email purpose o a b c =
      rw (a, b, c, (str_eq_iff email email).1 refl, same_purpose_refl purpose) refl

  -- After a request that succeeds, exactly one code of its address and purpose is outstanding.
  pub request-outstanding :
      (r : OtpRequest cfg h pepper) (now : ℕ) (t : Tables)
      → (request cfg h pepper r now t).1 ≡ none
      → outstanding r.email_canonical r.purpose (request cfg h pepper r now t).0.otps ≡ 1
  unfolding request
  request-outstanding r now t e =
      let allowed = (enforce_rate_limit cfg r.email_key r.ip_key now t.rate_limits).1 in
      let none_left = consume_outstanding-none r.email_canonical r.purpose t.otps in
      elim (Bool-cases r.plausible) [
        | inr f ↦ let bad : some OtpError.validation ≡ none = rw (f, request) at e in absurd (cc)
        | inl p ↦ elim (Bool-cases allowed) [
          | inr f ↦
              let bad : some OtpError.rate_limited ≡ none = rw (p, f, request) at e in absurd (cc)
          | inl a ↦ elim (Bool-cases (draft_missing cfg h pepper r.purpose r.draft_handle)) [
            | inl m ↦
                let bad : some OtpError.validation ≡ none = rw (p, a, m, request) at e in
                absurd (cc)
            | inr d ↦
                rw (p, a, d, request)
                  (fresh_code r.email_canonical r.purpose _ _
                    (own_code r.email_canonical r.purpose _ refl refl refl) none_left)
          ]
        ]
      ]
