-- ===== src/Service.antt =====
-- crates/stop: the agent stop service.
pub mod Text
pub mod Release
pub mod Effects
pub mod Port
pub mod Core
pub mod Http
pub mod Front
pub mod Config
