-- ===== src/Fault.antt =====
-- Fault handling: internal/fault.
pub mod Heartbeat
pub mod Timeout
pub mod Shares
pub mod Slash
pub mod Manager
mod Tests
