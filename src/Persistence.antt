-- ===== src/Persistence.antt =====
-- server/internal/persistence: the rows that the server stores, and the statements that change them.
pub mod Table
pub mod Commas
pub mod Millis
pub mod Devices
pub mod Streams
pub mod Recordings
pub mod Stats
mod Tests
