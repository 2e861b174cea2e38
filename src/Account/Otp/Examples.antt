-- ===== src/Account/Otp/Examples.antt =====
-- A code is requested and used.
use oursay.Base.{◌≡◌, ◌≤◌, refl, true, false, none, some, List, [], ◌∷◌, arith}
use oursay.Crypto.Hash.{sha256_hex}
use oursay.Crypto.Toy.{toy, zero_hex}
use oursay.Account.Otp.{
  OtpRecord, OtpConfig, OtpRequest, Tables, login, otp_invalid, request, verify, is_outstanding,
  enforce_rate_limit, check_code,
}
use oursay.Account.Otp.SingleUse.{outstanding, verify_single_use, request-outstanding}

abbrev cfg : OtpConfig
cfg = record {
  ttl_sec = 600;
  max_attempts = 5;
  window_sec = 60;
  requests_per_window = 3;
  requests_per_ip_per_window = 10;
}

abbrev login_request : OtpRequest cfg toy "pepper"
login_request = record {
  plausible = true;
  email_canonical = "ann@example.org";
  purpose = login;
  email_key = "email:ann@example.org";
  ip_key = none;
  draft_handle = none;
  code = "123456";
  salt = "s";
  id = "o1";
}

abbrev no_codes : Tables
no_codes = record { otps = []; rate_limits = [] }

abbrev one_code : List OtpRecord
one_code =
    record {
      id = "o1";
      email_canonical = "ann@example.org";
      code_hash = zero_hex;
      salt = "s";
      purpose = login;
      attempts = 0;
      expires_at = 601000;
      consumed = false;
      reserved_handle = none;
    }
    ∷ []

issued : (request cfg toy "pepper" login_request 1000 no_codes).1 ≡ none
unfolding request enforce_rate_limit
issued = refl

used : (verify cfg toy "pepper" "ann@example.org" "123456" login 2000 one_code).1 ≡ none
unfolding verify is_outstanding check_code sha256_hex
used = refl

single : outstanding "ann@example.org" login one_code ≤ 1
unfolding outstanding is_outstanding
single = omega arith

request-outstanding_example :
    outstanding "ann@example.org" login
      (request cfg toy "pepper" login_request 1000 no_codes).0.otps
    ≡ 1
request-outstanding_example =
    request-outstanding cfg toy "pepper" login_request 1000 no_codes issued

verify_single_use_example :
    (verify cfg toy "pepper" "ann@example.org" "123456" login 3000
      (verify cfg toy "pepper" "ann@example.org" "123456" login 2000 one_code).0).1
    ≡ some otp_invalid
verify_single_use_example =
    verify_single_use cfg toy "pepper" "ann@example.org" "123456" login 2000 one_code "123456" 3000
      single used
