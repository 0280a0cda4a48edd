-- ===== src/Control/Commands.antt =====
-- server/internal/control/commands.go: requests of streams, and replies routed by stream id.
--
-- As in Manager, a reply channel is the message that it holds, if any, and `Await` is split at its
-- wait: registering, and waking up with a reply or with the context's end.
pub mod Await
use espmic.Common.{
  ℕ, ◌≡◌, Bool, true, false, Option, none, some, String, String_discrete, List, [], ◌∷◌,
  if◌then◌else◌, same,
}
use espmic.Common.GoMap
use espmic.Common.Int.{ℤ, pos}
use espmic.Control.Messages.{
  Message, m_stream_started, m_stream_stopped, Destination, Codec, RtpConfig, StartStream,
  StopStream, GetStatus,
}
use espmic.Control.Manager.{Channels, channel, offer}

pub record CommandService : Type 0 where
  pub pending : Channels

unfoldable pub new_command_service : CommandService
new_command_service = record { pending = [] }

pub data StartError : Type 0 where
  requires_stream_id requires_device_id : StartError

unfoldable pub validate_start : String → String → Option StartError
validate_start stream_id device_id =
    if same stream_id ""
    then some requires_stream_id
    else if same device_id ""
    then some requires_device_id
    else none

unfoldable pub new_start_stream : String → String → Destination → Codec → RtpConfig → StartStream
new_start_stream request_id stream_id dest codec rtp = record {
  request_id = request_id;
  stream_id = stream_id;
  destination = dest;
  codec = codec;
  rtp = rtp;
}

unfoldable pub build_start_stream : String → String → String → ℕ → StartStream
unfolding new_start_stream
build_start_stream request_id stream_id dest_ip dest_port =
    new_start_stream request_id stream_id (record { ip = dest_ip; port = dest_port })
      (record {
        name = "opus";
        sample_rate = pos 48000;
        channels = pos 2;
        frame_ms = pos 20;
        bitrate = pos 128000;
        vbr = true;
        fec = false;
        dtx = false;
        complexity = pos 0;
      })
      (record { payload_type = 111 })

unfoldable pub build_stop_stream : String → String → StopStream
build_stop_stream request_id stream_id = record { request_id = request_id; stream_id = stream_id }

unfoldable pub build_get_status : String → GetStatus
build_get_status request_id = record { request_id = request_id }

-- `Await` up to its select: false is the error of a second wait for the same stream.
unfoldable pub await : CommandService → String → CommandService × Bool
await s stream_id = elim (channel stream_id s.pending) [
  | some held ↦ (s, false)
  | none ↦ (record s { pending = GoMap.insert String_discrete stream_id none s.pending }, true)
]

unfoldable pub awake_by_reply : CommandService → String → Option (Message × CommandService)
awake_by_reply s stream_id = elim (channel stream_id s.pending) [
  | some (some msg) ↦
      some (msg, record s { pending = GoMap.delete String_discrete stream_id s.pending })
  | _ ↦ none
]

unfoldable pub awake_by_context : CommandService → String → CommandService
awake_by_context s stream_id = record s {
  pending = GoMap.delete String_discrete stream_id s.pending;
}

-- The stream that a message answers; an error answers none.
unfoldable pub answered_stream : Message → Option String
answered_stream (m_stream_started m) = some m.stream_id
answered_stream (m_stream_stopped m) = some m.stream_id
answered_stream _ = none

unfoldable pub deliver_answer : CommandService → Message → CommandService × Bool
unfolding offer
deliver_answer s msg = elim (answered_stream msg) [
  | none ↦ (s, false)
  | some stream_id ↦
      let (chs, routed) = offer s.pending stream_id msg in (record s { pending = chs }, routed)
]
