-- ===== src/Device.antt =====
-- server/internal/device: the registry of devices, their credentials and who is online.
pub mod Registry
mod Tests
