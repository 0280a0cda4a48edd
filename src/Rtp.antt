-- ===== src/Rtp.antt =====
-- RTP ingest, server/internal/rtp: packets, serial numbers of 16 bits, the jitter buffer
-- and the receiver.
pub mod Seq
pub mod Packet
pub mod Jitter
pub mod Receiver
mod Tests
mod ReceiverTests
