-- ===== src/Main.antt =====
-- The application core's main program, app/src/main.c.
pub mod Key
pub mod Network
pub mod Loop
pub mod Boot
pub mod Radio
pub mod Exclusive
pub mod Waits
pub mod Complete
pub mod Quiet
pub mod Keeps
pub mod Transmits
pub mod Serves
pub mod Returns
pub mod Rounds
pub mod Core
pub mod Stored
pub mod Unset
pub mod Tests
