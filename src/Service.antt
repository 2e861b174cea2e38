-- ===== src/Service.antt =====
-- `RecordService` of public-record/src/record.ts over the private store and the tables of keys.
pub mod State
pub mod Config
pub mod Validate
pub mod Signed
pub mod Unsigned
pub mod Ops
pub mod Accepted
pub mod Reach
pub mod Alive
pub mod Authorized
pub mod Roots
pub mod Singleton
pub mod Lifecycle
pub mod Attested
pub mod Jurisdiction
pub mod Tally
mod Examples
