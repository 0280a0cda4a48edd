-- ===== src/Server.antt =====
-- server/internal/server/server.go: the streams of the server from their start to their end.
pub mod State
pub mod Start
pub mod Stop
pub mod Traffic
pub mod Restart
pub mod Steps
pub mod Queries
mod Tests
