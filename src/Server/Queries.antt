-- ===== src/Server/Queries.antt =====
-- server/internal/server/server.go: what the server answers without changing a stream, and the two
-- commands that only pass through it, set_config and get_status, up to their waits.
--
-- A row of the table `recordings` is what the query returns. `exists` is os.Stat without an error;
-- `load` is what Load of the device_stats table returns, none for an error; instants are not
-- formatted.
use espmic.Common.{
  ℕ, Bool, not, ◌&&◌, Option, none, some, String, String_discrete, List, map, if◌then◌else◌, same,
}
use espmic.Common.GoMap
use espmic.Common.Text.{◌<>◌}
use espmic.Control.Messages.{Message, SetConfig, StreamStoppedStats}
use espmic.Control.Manager.{CommandError, Begun, awaits, fails, send_set_config, send_get_status}
use espmic.Control.Commands.{build_get_status}
use espmic.Device.Registry.{Device, DeviceResult, DeviceError}
use espmic.Device.Registry as Devices
use espmic.Rtp.Jitter.{Stats}
use espmic.Rtp.Receiver.{stream_stats, stream_port}
use espmic.Stream.Lifecycle.{Stream, StreamState}
use espmic.Stream.Registry.{Found}
use espmic.Stream.Registry as Streams
use espmic.Server.State.{Server}

pub record StreamInfo (F : Type 0) : Type 0 where
  pub stream_id : String
  pub device_id : String
  pub ssrc : ℕ
  pub state : StreamState
  pub started_at : ℕ
  pub packets_received : ℕ
  pub packets_lost : ℕ
  pub jitter_ms : F

pub record RecordingRow : Type 0 where
  pub recording_id : String
  pub stream_id : String
  pub sample_rate : ℕ
  pub channels : ℕ
  pub codec : String
  pub start_time : Option ℕ
  pub end_time : Option ℕ
  pub bytes_stored : ℕ
  pub uri : Option String

-- A row, no row, or another error.
pub data QueryResult : Type 0 where
  row : RecordingRow → QueryResult
  no_rows query_failed : QueryResult

pub data RecordingError : Type 0 where
  recording_not_found recording_unreadable file_not_available : RecordingError

pub data RecordingResult (A : Type 0) : Type 0 where
  ok : A → RecordingResult A
  err : RecordingError → RecordingResult A

unfoldable pub get_recording : (String → QueryResult) → String → RecordingResult RecordingRow
get_recording query id = elim (query id) [
  | row r ↦ ok r
  | no_rows ↦ err recording_not_found
  | query_failed ↦ err recording_unreadable
]

-- `uri, ok := rec["uri"].(string); ok && uri != ""`, and the file is there.
abbrev pub usable_uri : (String → Bool) → Option String → Option String
usable_uri exists none = none
usable_uri exists (some uri) = if not (same uri "") && exists uri then some uri else none

-- `<RecordingsDir>/<stream_id>.opus`, if the id is not empty and the file is there.
abbrev pub opus_file : (String → Bool) → String → String → Option String
opus_file exists dir id =
    let p = dir <> ("/" <> (id <> ".opus")) in if not (same id "") && exists p then some p else none

abbrev pub recording_file : (String → Bool) → String → RecordingRow → RecordingResult String
recording_file exists dir r = elim (usable_uri exists r.uri) [
  | some uri ↦ ok uri
  | none ↦ elim (opus_file exists dir r.stream_id) [ some p ↦ ok p | none ↦ err file_not_available ]
]

unfoldable pub download_recording :
    (String → QueryResult) → (String → Bool) → String → String → RecordingResult String
unfolding get_recording
download_recording query exists dir id = elim (get_recording query id) [
  | err e ↦ err e
  | ok r ↦ recording_file exists dir r
]

pub data StatusFailure : Type 0 where
  no_device : StatusFailure
  not_sent : CommandError → StatusFailure

pub data StatusBegun : Type 0 where
  status_awaited : StatusBegun
  status_failed : StatusFailure → StatusBegun

abbrev pub status_begun : Begun → StatusBegun
status_begun awaits = status_awaited
status_begun (fails e) = status_failed (not_sent e)

module _ {F : Type 0} where
  -- No statistics where the stream has no socket.
  abbrev pub with_stats : F → Stream → Option (Stats F) → StreamInfo F
  with_stats zero_ms st none = record {
    stream_id = st.stream_id;
    device_id = st.device_id;
    ssrc = st.ssrc;
    state = st.state;
    started_at = st.started_at;
    packets_received = 0;
    packets_lost = 0;
    jitter_ms = zero_ms;
  }
  with_stats zero_ms st (some x) = record {
    stream_id = st.stream_id;
    device_id = st.device_id;
    ssrc = st.ssrc;
    state = st.state;
    started_at = st.started_at;
    packets_received = x.received;
    packets_lost = x.lost;
    jitter_ms = x.jitter_ms;
  }

  -- `zero_ms` is the zero value of the jitter.
  unfoldable pub stream_list : F → Server F → List (StreamInfo F)
  unfolding stream_stats Streams.list
  stream_list zero_ms s =
      map (λ st. with_stats zero_ms st (stream_stats s.rtp st.stream_id)) (Streams.list s.stream)

  unfoldable pub device_list : Server F → List Device
  unfolding Devices.list
  device_list s = Devices.list s.device

  unfoldable pub get_stream : Server F → String → Found
  unfolding Streams.get
  get_stream s id = Streams.get s.stream id

  unfoldable pub device_get : Server F → String → DeviceResult
  unfolding Devices.get
  device_get s id = Devices.get s.device id

  unfoldable pub rtp_stream_stats : Server F → String → Option (Stats F)
  unfolding stream_stats
  rtp_stream_stats s id = stream_stats s.rtp id

  unfoldable pub port_of_stream : Server F → String → Option ℕ
  unfolding stream_port
  port_of_stream s id = stream_port s.rtp id

  -- What is loaded is kept.
  unfoldable pub device_final_stats :
      (String → Option StreamStoppedStats)
      → Server F
      → String
      → Server F × Option StreamStoppedStats
  device_final_stats load s id = elim (GoMap.lookup String_discrete id s.device_stats) [
    | some stats ↦ (s, some stats)
    | none ↦ elim (load id) [
      | none ↦ (s, none)
      | some loaded ↦ (
        record s { device_stats = GoMap.insert String_discrete id loaded s.device_stats },
        some loaded,
      )
    ]
  ]

  unfoldable pub begin_push_config :
      (ℕ → Message → Bool) → Server F → String → SetConfig → Server F × Begun
  begin_push_config send s device req =
      let (ctrl, b) = send_set_config send s.ctrl device (some req) in (record s { ctrl = ctrl }, b)

  unfoldable pub begin_device_status :
      (ℕ → Message → Bool) → Server F → String → String → Server F × StatusBegun
  unfolding Devices.get
  begin_device_status send s device request_id = elim (Devices.get s.device device) [
    | Devices.err e ↦ (s, status_failed no_device)
    | Devices.ok d ↦
        let (ctrl, b) = send_get_status send s.ctrl device (some (build_get_status request_id)) in
        (record s { ctrl = ctrl }, status_begun b)
  ]
