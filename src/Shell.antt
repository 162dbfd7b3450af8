-- ===== src/Shell.antt =====
-- The shell commands of app/src/shell.c.
pub mod Text
pub mod Commands
pub mod Status
pub mod Report
pub mod Numbers
pub mod Options
pub mod Names
pub mod Tests
