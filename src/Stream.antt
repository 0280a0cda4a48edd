-- ===== src/Stream.antt =====
-- server/internal/stream/stream.go: the life of one stream, and the registry of all streams.
pub mod Lifecycle
pub mod Registry
mod Tests
