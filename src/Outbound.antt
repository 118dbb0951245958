-- ===== src/Outbound.antt =====
-- src/outbound.rs: outbound HTTP on pool threads.
pub mod Address
pub mod Request
pub mod Dial
pub mod Flags
pub mod Connector
pub mod Wait
