-- ===== src/DebugSession.antt =====
-- src/codelldb/src/debug_session.rs: how the session answers requests. src/codelldb/src/error.rs:
-- errors, and whom they blame.
pub mod Blame
pub mod Dispatch
pub mod Once
pub mod NoDebug
mod Tests
