-- ===== src/Ledger.antt =====
-- public-record/src/ledger: the pending pool in Postgres, the append-only chain in immudb, and the
-- settlement that moves the one to the other.
pub mod Store
pub mod Connector
pub mod Settler
