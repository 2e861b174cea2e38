-- ===== src/Identity.antt =====
-- public-record/src/identity: what is signed, how it is verified, and the tables of keys.
pub mod Curve
pub mod Envelope
pub mod Platform
pub mod Tables
pub mod PlatformOps
pub mod Persona
mod Examples
