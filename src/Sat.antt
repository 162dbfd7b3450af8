-- ===== src/Sat.antt =====
-- The satellite side of the application core, app/src/sat_board.c.
pub mod Passes
pub mod Queue
pub mod Source
pub mod Table
pub mod Search
pub mod Listing
pub mod Schedule
pub mod Rounds
pub mod Payload
pub mod Transmit
pub mod Radio
pub mod Core
pub mod Flag
pub mod Window
pub mod Packet
pub mod Fits
pub mod Tests
