-- ===== src/Relay.antt =====
-- backend/internal/relay: the HLS relay.
pub mod Workers
pub mod R2
pub mod Transmux
pub mod Viewers
pub mod Signer
pub mod Tables
pub mod Restarts
