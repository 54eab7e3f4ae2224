-- ===== src/Server/Registry.antt =====
-- src/server.cpp: clients_, name_to_socket_ and client_threads_ together.
pub mod Same
pub mod Tables
pub mod Fresh
pub mod Commands
pub mod Steps
pub mod Lines
pub mod Reach
pub mod Ends
pub mod Others
pub mod Members
pub mod Renamed
pub mod Stolen
pub mod Once
pub mod Whisper
