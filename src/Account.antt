-- ===== src/Account.antt =====
-- The account services of api/src/services.
pub mod Otp
