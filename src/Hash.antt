-- ===== src/Hash.antt =====
-- The hash functions of src/hash.
pub mod Sip
mod Crc
