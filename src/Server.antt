-- ===== src/Server.antt =====
-- src/server.cpp.
pub mod Password
pub mod State
pub mod Send
pub mod History
pub mod Users
pub mod Account
pub mod Rooms
pub mod Talk
pub mod Leave
pub mod Life
pub mod Admin
pub mod Files
pub mod Command
pub mod Messages
pub mod Relay
pub mod Line
pub mod Threads
pub mod Registry
pub mod WebClients
pub mod Tests
