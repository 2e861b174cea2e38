-- ===== src/Schema.antt =====
-- public-record/src/schema: the types of records, the envelope, and the content that it commits to.
pub mod Types
pub mod Content
