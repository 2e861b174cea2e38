-- ===== src/Anchor.antt =====
-- public-record/src/anchor: what is published of the chain, and how an auditor checks it offline.
pub mod Record
pub mod Tip
pub mod Verify
pub mod Assemble
pub mod Publish
