-- ===== src/Store.antt =====
-- The store layer (src/store/).
pub mod Errors
pub mod Disk
pub mod Atomic
pub mod Vault
pub mod Checkpoint
pub mod Identity
pub mod Passphrase
pub mod Root
pub mod Participant
pub mod Components
pub mod Manifest
