-- ===== src/Ble.antt =====
-- Bluetooth on the application core: app/src/ble.c.
pub mod Advertise
pub mod Write
pub mod Service
pub mod Switch
pub mod Radio
pub mod Wake
pub mod Policy
pub mod Ephemeris
pub mod Served
pub mod Bounds
pub mod Beacon
pub mod Queued
pub mod Tests
