-- ===== src/Account/Otp.antt =====
-- `OtpService` of api/src/services/otp.service.ts over the tables of api/src/repo/otp.repo.ts and
-- ratelimit.repo.ts: one-time codes by mail. Times are milliseconds; the database's clock and the
-- service's are one.
pub mod SingleUse
mod Examples
use Prim.Native.String.{◌++◌ as ◌+++◌}
use oursay.Base.{
  ℕ, zero, suc, ◌+◌, ◌*◌, ◌/◌, String, Bool, true, false, not, ◌&&◌, Option, none, some, List, [],
  ◌∷◌, ltb, ◌==◌, str_eq, if◌then◌else◌,
}
use oursay.Crypto.Hash.{Hasher, sha256_hex}

pub data OtpPurpose : Type 0 where
  registration recovery login : OtpPurpose

pub record OtpRecord : Type 0 where
  pub id : String
  pub email_canonical : String
  pub code_hash : String
  pub salt : String
  pub purpose : OtpPurpose
  pub attempts : ℕ
  pub expires_at : ℕ
  pub consumed : Bool
  pub reserved_handle : Option String

pub record Bucket : Type 0 where
  pub bucket_key : String
  pub window_start : ℕ
  pub count : ℕ

-- The codes stand newest first.
pub record Tables : Type 0 where
  pub otps : List OtpRecord
  pub rate_limits : List Bucket

pub record OtpConfig : Type 0 where
  pub ttl_sec : ℕ
  pub max_attempts : ℕ
  pub window_sec : ℕ
  pub requests_per_window : ℕ
  pub requests_per_ip_per_window : ℕ

abbrev pub same_purpose : OtpPurpose → OtpPurpose → Bool
same_purpose registration registration = true
same_purpose recovery recovery = true
same_purpose login login = true
same_purpose _ _ = false

-- Of this address and purpose, and not consumed.
pub is_outstanding : String → OtpPurpose → OtpRecord → Bool
is_outstanding email purpose o =
    str_eq o.email_canonical email && (same_purpose o.purpose purpose && not o.consumed)

pub consume_outstanding : String → OtpPurpose → List OtpRecord → List OtpRecord
unfolding is_outstanding
consume_outstanding email purpose [] = []
consume_outstanding email purpose (o ∷ rest) =
    (if is_outstanding email purpose o then record o { consumed = true } else o)
    ∷ consume_outstanding email purpose rest

pub get_latest_active : String → OtpPurpose → ℕ → List OtpRecord → Option OtpRecord
unfolding is_outstanding
get_latest_active email purpose now [] = none
get_latest_active email purpose now (o ∷ rest) =
    let rest' = get_latest_active email purpose now rest in
    if is_outstanding email purpose o && ltb now o.expires_at then some o else rest'

pub increment_attempts : String → List OtpRecord → List OtpRecord
increment_attempts id [] = []
increment_attempts id (o ∷ rest) =
    (if str_eq o.id id then record o { attempts = suc o.attempts } else o)
    ∷ increment_attempts id rest

pub consume : String → List OtpRecord → List OtpRecord
consume id [] = []
consume id (o ∷ rest) =
    (if str_eq o.id id then record o { consumed = true } else o) ∷ consume id rest

pub floor_to_window : ℕ → ℕ → ℕ
floor_to_window now window_sec = let window_ms = window_sec * 1000 in now / window_ms * window_ms

pub bump : String → ℕ → List Bucket → List Bucket × ℕ
bump key start [] = (record { bucket_key = key; window_start = start; count = 1 } ∷ [], 1)
bump key start (b ∷ rest) =
    let (rest', n) = bump key start rest in
    if str_eq b.bucket_key key && b.window_start == start
    then (record b { count = suc b.count } ∷ rest, suc b.count)
    else (b ∷ rest', n)

-- The counter of the window after the hit, and the table.
pub hit : String → ℕ → ℕ → List Bucket → List Bucket × ℕ
unfolding bump floor_to_window
hit key now window_sec buckets = bump key (floor_to_window now window_sec) buckets

pub data OtpError : Type 0 where
  validation rate_limited otp_invalid otp_max_attempts : OtpError

module _ (cfg : OtpConfig) where
  -- The counters after `enforceRateLimit`, and whether it returned. The keys stand for
  -- "email:..." and "ip:...".
  pub enforce_rate_limit : String → Option String → ℕ → List Bucket → List Bucket × Bool
  unfolding hit
  enforce_rate_limit email_key ip_key now buckets =
      let (buckets', email_count) = hit email_key now cfg.window_sec buckets in
      if ltb cfg.requests_per_window email_count then (buckets', false) else elim ip_key [
        | none ↦ (buckets', true)
        | some key ↦
            let (buckets'', ip_count) = hit key now cfg.window_sec buckets' in
            (buckets'', not (ltb cfg.requests_per_ip_per_window ip_count))
      ]

  module _ (h : Hasher) (pepper : String) where
    -- `hashOtp`, with the pepper of the deployment.
    pub hash_otp : String → String → String → String
    hash_otp email_canonical code salt = sha256_hex h (
        h.utf8 (
          "oursay/v1/otp\n"
          +++ (pepper +++ ("\n" +++ (email_canonical +++ ("\n" +++ (salt +++ ("\n" +++ code))))))))

    -- What a request brings: the address in canonical form and its rate limit key, the handle of
    -- the registration draft, and the code, salt and id that are drawn.
    pub record OtpRequest : Type 0 where
      pub plausible : Bool
      pub email_canonical : String
      pub purpose : OtpPurpose
      pub email_key : String
      pub ip_key : Option String
      pub draft_handle : Option String
      pub code : String
      pub salt : String
      pub id : String

    abbrev pub draft_missing : OtpPurpose → Option String → Bool
    draft_missing registration none = true
    draft_missing _ handle = false

    abbrev pub held_handle : OtpPurpose → Option String → Option String
    held_handle registration handle = handle
    held_handle _ handle = none

    -- The tables after `request`, and its error, if it throws; the mail is sent after the writes.
    pub request : OtpRequest → ℕ → Tables → Tables × Option OtpError
    unfolding enforce_rate_limit hash_otp
    request r now t =
        let (buckets, allowed) = enforce_rate_limit r.email_key r.ip_key now t.rate_limits in
        let t' = record t { rate_limits = buckets } in
        let o : OtpRecord = record {
          id = r.id;
          email_canonical = r.email_canonical;
          code_hash = hash_otp r.email_canonical r.code r.salt;
          salt = r.salt;
          purpose = r.purpose;
          attempts = 0;
          expires_at = now + cfg.ttl_sec * 1000;
          consumed = false;
          reserved_handle = held_handle r.purpose r.draft_handle;
        } in
        if not r.plausible
        then (t, some validation)
        else if not allowed
        then (t', some rate_limited)
        else if draft_missing r.purpose r.draft_handle
        then (t', some validation)
        else (record t' { otps = o ∷ consume_outstanding r.email_canonical r.purpose t.otps }, none)

    -- The tests of `verify` on the code that it found, and what they leave of the codes.
    pub check_code : String → String → OtpRecord → List OtpRecord → List OtpRecord × Option OtpError
    unfolding increment_attempts consume hash_otp
    check_code email code rec otps =
        let counted = increment_attempts rec.id otps in
        if ltb cfg.max_attempts (suc rec.attempts)
        then (consume rec.id counted, some otp_max_attempts)
        else if not (str_eq (hash_otp email code rec.salt) rec.code_hash)
        then (counted, some otp_invalid)
        else (consume rec.id counted, none)

    pub verify :
        String → String → OtpPurpose → ℕ → List OtpRecord → List OtpRecord × Option OtpError
    unfolding check_code get_latest_active
    verify email code purpose now otps = elim (get_latest_active email purpose now otps) [
      | none ↦ (otps, some otp_invalid)
      | some rec ↦ check_code email code rec otps
    ]
