-- ===== src/Worker.antt =====
-- The runtime worker: src/runtime_worker.rs, src/rpc.rs, src/sandbox.rs, src/function_exec.rs and
-- src/procedure_exec.rs.
pub mod Ident
pub mod Session
pub mod Execute
pub mod Policy
pub mod Guard
pub mod Yields
pub mod SqlOutcome
pub mod Claims
pub mod Pumps
pub mod Rpc
pub mod Outbox
pub mod Runtime
pub mod Main
pub mod Tests
