-- ===== src/Lib.antt =====
-- The espmic server: microphones connect over TCP, are told to stream Opus audio over RTP, and the
-- server follows each stream from its request to its end, reorders its packets and records them.
--
-- Common is what all parts share: Boolean tests, lists over the native numbers, Go maps as keyed
-- lists without repeated keys, and signed integers.
--
-- Rtp: server/internal/rtp. Rtp/Packet is packet.go (ParseFor, with pion/rtp's Unmarshal as a
-- parameter). Rtp/Seq and Rtp/Jitter are jitter.go: the buffer is a record, Push and Emit return
-- the new one, Emit also the packets and the calls of its loss hook. The loop of Emit runs on fuel,
-- twice the number of stored packets and two more: a turn that passes a missing slot is followed by
-- one that plays a packet. float64 is a parameter. Under Rtp/Jitter stand the invariant, histories
-- of calls, the accounts of packets and the order of playout. Rtp/Receiver is receiver.go: the
-- sockets by stream, and one round of readLoop for each datagram, with what the two callbacks are
-- called with as a result.
--
-- Stream: server/internal/stream/stream.go. Stream/Lifecycle has one function for each method of
-- Stream, which returns the new stream and the error; Stream/Registry is the registry. Instants and
-- durations are nanoseconds.
--
-- Control: server/internal/control. Control/Frame is frame.go and readFrame of session.go; the loop
-- of Push runs on fuel, one more than the bytes at hand, of which a frame takes four.
-- Control/Messages is messages.go: the message types and SetConfig.Validate; Control/Wire is its
-- Encode, DecodePayload and WriteMessage, with encoding/json as a parameter. Control/Manager is
-- session_manager.go and Control/Commands is commands.go: a reply channel is the message that it
-- holds, and a Send or Await is split at its wait, so that what comes in between is a list of
-- messages. Control/Session is the handshake, the heartbeat and the read loop of session.go. They
-- share the types of Control/Messages, and Commands shares the channels of Manager.
--
-- Device: server/internal/device, the devices with their credentials and presence.
--
-- Audio: server/internal/audio. Audio/Flac is flac.go, with the encoder as a parameter. The loop of
-- OnPCM runs on fuel, one more than the samples held; a block of at least one sample is enough, and
-- a block of none is a loop that does not end in the source either. An index out of range is a
-- panic and a value of the model. Audio/Ogg is the page format of opus_recorder.go as bytes, its
-- checksum included, with a reader beside it (Audio/Ogg/Reader); Audio/OpusRecorder is the recorder,
-- a queue and a list of pages, and Audio/OpusRecorder/Recording its histories. Audio/Wav is
-- recorder.go, with the file as its bytes, and Audio/Bus is bus.go. Audio/Frame is frame.go;
-- Audio/Decoder is decoder.go, whose interface the worker takes as a record of operations, with what
-- it promises of stereo sound, and Audio/Decoder/Stub is its stub. Audio/Worker is worker.go: what a
-- packet of the jitter buffer does to others is a list of effects. Audio/Live is live.go, a queue
-- between the bus and the socket.
--
-- Server: server/internal/server/server.go, over Rtp/Receiver, Stream/Registry, Control/Manager,
-- Device and Audio/Bus, whose operations it calls. Server/State is the record of the server, with
-- finalizeRecorder, finalizeOpusRecorder and cleanupStreamByID; Server/Start is StartStream and
-- Server/Stop is StopStream, each split at its wait for the device; Server/Traffic is what a
-- datagram does to the server, the tick of streamMonitor with pushStreamMetrics, and
-- OnDeviceDisconnect; Server/Restart is Restore, Authenticate and SetDeviceDisplayName;
-- Server/Queries is the methods that only read. Calls of the database are a log.
-- Server/Steps is the relation of all these handlers in any order, and what holds in every history.
--
-- Config: server/internal/config/config.go, with the environment and strconv.Atoi as parameters.
--
-- Persistence: server/internal/persistence/repositories.go, a module for each repository over the
-- interface Persistence/Table: a table is its statements and the laws that SQL gives them, which the
-- tables of Persistence/Table/Memory meet. A statement may fail.
--
-- Api: server/internal/api/api.go. Each handler takes the server and a routed request, and gives
-- the new server and the response: a status code, and what is put into JSON. A handler that waits for a
-- device is split at its wait, as the method of the server that it calls.
--
-- Each method that holds its lock throughout is one step; so is each handler of the server between
-- two waits, though it holds no lock. uint16, uint32 and uint64 counters wrap; times, granule
-- positions and byte counts are taken below 2^63, but a setting in seconds wraps around as an int64 of
-- nanoseconds. Not modelled: the text of
-- JSON, sockets, files, logs, TLS and the accept loop, the routing of HTTP requests, the pages of
-- health and metrics, opening the database and its migrations, the Opus decoder, and ListRecordings,
-- which prints rows: they are calls of libraries around what is modelled.
pub mod Api
pub mod Audio
pub mod Common
pub mod Config
pub mod Control
pub mod Device
pub mod Persistence
pub mod Rtp
pub mod Server
pub mod Stream
