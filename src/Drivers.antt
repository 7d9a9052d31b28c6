-- ===== src/Drivers.antt =====
-- The drivers (internal/drivers).
pub mod Chan
pub mod Ring
mod Runs
