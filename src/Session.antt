-- ===== src/Session.antt =====
-- The signing session (src/session/).
pub mod Liveness
pub mod Display
pub mod Core
pub mod Rounds
pub mod Selected
pub mod Live
pub mod Once
pub mod Gate
pub mod Attach
pub mod Signed
