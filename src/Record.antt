-- ===== src/Record.antt =====
-- The write path and the check of the history of one entity, public-record/src/ledger/chain.ts,
-- private/store.ts and verify.ts.
pub mod Append
pub mod Entity
