-- ===== src/Audio.antt =====
-- server/internal/audio: the recorders, the pages of Ogg files, and the bus of decoded sound.
pub mod Flac
pub mod Ogg
pub mod OpusRecorder
pub mod Bus
pub mod Frame
pub mod Decoder
pub mod Worker
pub mod Live
pub mod Wav
mod Tests
