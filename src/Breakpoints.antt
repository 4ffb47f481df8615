-- ===== src/Breakpoints.antt =====
-- src/codelldb/src/debug_session/breakpoints.rs: the breakpoints that the client asked for, kept in
-- step with those of the LLDB target.
pub mod Interface
pub mod Hit
pub mod Counting
pub mod Counts
pub mod Exclusions
pub mod LogMessage
pub mod Target
pub mod Actions
pub mod Handlers
pub mod Requests
pub mod Exceptions
pub mod Frame
pub mod Establish
pub mod Sync
pub mod Loop
pub mod Delete
pub mod Refines
pub mod SetFunction
pub mod SetSource
pub mod Removal
mod Tests
mod HandlerTests
