-- ===== src/Encode.antt =====
-- encode/src: the codecs of identifiers for addresses.
pub mod Base59
