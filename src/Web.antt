-- ===== src/Web.antt =====
-- src/web.rs: the HTTP listener of the web worker.
pub mod Tests
pub mod Tickets
pub mod Auth
pub mod Api
pub mod Mock
pub mod Exposure
pub mod Respond
pub mod World
pub mod Connection
pub mod RateLimit
pub mod Nonce
pub mod Main
