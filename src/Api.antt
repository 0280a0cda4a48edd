-- ===== src/Api.antt =====
-- server/internal/api/api.go: requests and responses of the HTTP interface.
--
-- A request has been routed: its method, the `id` of its path, and its body, none where the JSON
-- decoder fails. A body of a response is what is given to writeJSON; the text of an error that is
-- passed on is the error itself.
pub mod Streams
pub mod Devices
pub mod Recordings
mod Tests
use espmic.Common.{
  ℕ, ◌≡◌, Bool, true, false, not, ◌&&◌, Option, none, some, String, List, ◌==◌, if◌then◌else◌, same,
}
use espmic.Control.Messages.{Message, ConfigError, StreamStoppedStats}
use espmic.Control.Manager.{CommandError, not_connected}
use espmic.Device.Registry.{Device}
use espmic.Rtp.Jitter.{Stats}
use espmic.Stream.Lifecycle.{Stream}
use espmic.Server.Start.{
  StartFailure, device_missing, binding_missing, device_said_no, unexpected_reply, no_reply,
  bind_failed, send_refused,
}
use espmic.Server.Stop.{
  StopFailure, stream_missing, not_active, device_error, unexpected_answer, no_answer, stop_refused,
}
use espmic.Server.Queries.{StreamInfo, RecordingRow, RecordingError, StatusFailure}

pub data Method : Type 0 where
  get post patch delete other_method : Method

abbrev pub is_get : Method → Bool
is_get get = true
is_get _ = false

abbrev pub is_post : Method → Bool
is_post post = true
is_post _ = false

abbrev pub is_patch : Method → Bool
is_patch patch = true
is_patch _ = false

pub record Request (B : Type 0) : Type 0 where
  pub method : Method
  pub id : String
  pub body : Option B

pub data Refusal : Type 0 where
  method_not_allowed missing_id invalid_json flac_unsupported : Refusal
  name_empty name_too_long : Refusal
  device_not_found device_not_connected stream_not_found recording_not_found : Refusal
  device_silent : Refusal

pub data Body (F : Type 0) : Type 0 where
  refusal : Refusal → Body F
  start_error : StartFailure → Body F
  stop_error : StopFailure → Body F
  status_error : StatusFailure → Body F
  command_error : CommandError → Body F
  config_error : ConfigError → Body F
  recording_error : RecordingError → Body F
  name_unsaved context_ended : Body F
  started_body : String → ℕ → Body F
  stopped_body : String → Body F
  reply_body : Message → Body F
  renamed_body : String → Body F
  device_body : Device → Body F
  devices_body : List Device → Body F
  stream_body : Stream → ℕ → Body F
  streams_body : List (StreamInfo F) → Body F
  stats_body : String → Stats F → Option StreamStoppedStats → Body F
  recording_body : RecordingRow → Body F
  recordings_body : List RecordingRow → Body F
  file_body : String → Bool → Body F

-- `writeJSON` and http.ServeFile: the status code and the body.
pub record Response (F : Type 0) : Type 0 where
  pub status : ℕ
  pub body : Body F

abbrev pub write_json : {F : Type 0} → ℕ → Body F → Response F
write_json status body = record { status = status; body = body }

abbrev pub refuse : {F : Type 0} → ℕ → Refusal → Response F
refuse status r = write_json status (refusal r)

-- A response, or the wait for the device: the request id, the id that the request is
-- about, and the port of a start.
pub data Progress (F : Type 0) : Type 0 where
  answered : Response F → Progress F
  waiting : String → String → ℕ → Progress F

-- What errors.Is finds in an error.
pub data Cause : Type 0 where
  unknown_stream illegal_transition no_connection deadline_exceeded other_cause : Cause

-- The end of a request's context is its deadline, or the client has gone.
abbrev pub context_cause : Bool → Cause
context_cause true = deadline_exceeded
context_cause false = other_cause

abbrev pub command_cause : CommandError → Cause
command_cause not_connected = no_connection
command_cause _ = other_cause

-- A refused device is wrapped as device.ErrDeviceNotFound, which no switch asks for.
unfoldable pub start_cause : Bool → StartFailure → Cause
start_cause deadline device_missing = other_cause
start_cause deadline binding_missing = other_cause
start_cause deadline device_said_no = other_cause
start_cause deadline unexpected_reply = other_cause
start_cause deadline no_reply = context_cause deadline
start_cause deadline (bind_failed e) = other_cause
start_cause deadline (send_refused e) = command_cause e

unfoldable pub stop_cause : Bool → StopFailure → Cause
stop_cause deadline stream_missing = unknown_stream
stop_cause deadline not_active = other_cause
stop_cause deadline device_error = other_cause
stop_cause deadline unexpected_answer = other_cause
stop_cause deadline no_answer = context_cause deadline
stop_cause deadline (stop_refused e) = command_cause e
