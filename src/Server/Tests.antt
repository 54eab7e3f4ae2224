-- ===== src/Server/Tests.antt =====
-- The server at concrete inputs.
pub mod Data
mod Threads
mod Orders
mod Accounts
mod Lines
mod Starts
mod Reached
