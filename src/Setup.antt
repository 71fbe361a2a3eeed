-- ===== src/Setup.antt =====
-- How the two programs get ready: connection.h, userclass.h and the two `main` functions.
pub mod Text
pub mod Sockets
pub mod Context
pub mod Programs
pub mod Opening
pub mod Texts
pub mod Ports
pub mod Lookup
pub mod Server
pub mod Running
pub mod Ready
pub mod Download
mod Tests
mod DownloadTests
