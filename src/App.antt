-- ===== src/App.antt =====
-- The application core: its C globals (app/src/*.c), the foreign calls that it makes, and the monad
-- in which its functions are written.
pub mod Calls
pub mod State
pub mod Locks
pub mod Wake
pub mod Stack
pub mod Examples
unfoldable pub use Calls.*
unfoldable pub use State.*
