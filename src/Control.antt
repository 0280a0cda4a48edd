-- ===== src/Control.antt =====
-- The device control connection, server/internal/control: frames, messages, sessions and the
-- correlation of replies with the commands that wait for them.
pub mod Wire
pub mod Frame
mod FrameTests
pub mod Messages
pub mod Manager
pub mod Commands
pub mod Session
mod ManagerTests
