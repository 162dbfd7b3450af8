-- ===== src/Net.antt =====
-- The network core, app/cpunet/src: the HCI bridge and the satellite stack's server.
pub mod Calls
pub mod Fifo
pub mod Process
pub mod Receive
pub mod Send
pub mod Threads
pub mod Commands
pub mod Order
pub mod Bridge
pub mod Buffers
pub mod Retry
pub mod Fatal
pub mod Tests
