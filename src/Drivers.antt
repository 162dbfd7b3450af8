-- ===== src/Drivers.antt =====
-- The small drivers of the application core.
pub mod Led
pub mod Sensor
pub mod Nvs
pub mod Partition
