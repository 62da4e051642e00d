-- ===== src/Hash.antt =====
-- src/hash_func_nossl.c: the string hash and SHA-256.
pub mod Djb2
pub mod Sha256
