-- ===== src/Crypto.antt =====
-- public-record/src/crypto: the hash primitives of `@noble/hashes` as an interface, and what the
-- repository builds on them.
pub mod Hash
pub mod Digest
pub mod Toy
pub mod Merkle
pub mod Canonical
