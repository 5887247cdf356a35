-- ===== src/Tests.antt =====
-- Runs of the model on inputs of the Go tests, and the theorems at concrete inputs.
pub mod Samples
pub mod Numbers
pub mod Calendar
pub mod Tuples
pub mod Rows
pub mod Clients
pub mod Connections
pub mod Tokens
pub mod Protocols
pub mod Queries
pub mod Sorting
pub mod Sources
pub mod Writes
