-- ===== src/Crypto.antt =====
-- src/kernel/crypto/subtle: the ciphers and hashes. Words are numbers below `2 ^ 32` or `2 ^ 64`,
-- arrays are lists, and a buffer of bytes is a list of numbers below 256.
pub mod Words
pub mod Bytes
pub mod Chacha20
pub mod Blake2s
pub mod Blake2b
