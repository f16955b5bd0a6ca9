-- ===== src/Crypto.antt =====
-- The crypto core (src/crypto/) and the key bridge (src/bridge/).
pub mod Frost
pub mod Pool
pub mod Types
pub mod Keygen
pub mod Signing
