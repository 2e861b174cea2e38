-- ===== src/Policy.antt =====
-- Who may do what, and until when: public-record/src/governance.ts, jurisdiction.ts and
-- api/src/services/gate.service.ts.
pub mod Jurisdiction
pub mod Governance
pub mod Gates
