-- ===== src/Control/Wire.antt =====
-- server/internal/control/messages.go: messages as payloads. encoding/json is the parameter `Json`:
-- Marshal of a message, the "type" of a payload, and Unmarshal into the type of a kind; none is an
-- error.
pub mod RoundTrip
mod Tests
use espmic.Common.{ℕ, ◌≡◌, Option, none, some, String, List, if◌then◌else◌, same, refl}
use espmic.Control.Frame.{Writer, WriteError, write_frame}
use espmic.Control.Messages.{
  Message, Kind, kind, hello, hello_ack, ping, pong, start_stream, stream_started, stop_stream,
  stream_stopped, get_status, status, error, set_config,
}

pub record Json : Type 0 where
  pub marshal : Message → Option (List ℕ)
  pub type_of : List ℕ → Option String
  pub unmarshal : Kind → List ℕ → Option Message

unfoldable pub kind_text : Kind → String
kind_text hello = "hello"
kind_text hello_ack = "hello_ack"
kind_text ping = "ping"
kind_text pong = "pong"
kind_text start_stream = "start_stream"
kind_text stream_started = "stream_started"
kind_text stop_stream = "stop_stream"
kind_text stream_stopped = "stream_stopped"
kind_text get_status = "get_status"
kind_text status = "status"
kind_text error = "error"
kind_text set_config = "set_config"

-- What is marshalled has its kind as its type, and is unmarshalled as it was.
pub record IsJson (json : Json) : Type 0 where
  pub type_of-marshal :
      (m : Message) (p : List ℕ)
      → json.marshal m ≡ some p
      → json.type_of p ≡ some (kind_text (kind m))
  pub unmarshal-marshal :
      (m : Message) (p : List ℕ) → json.marshal m ≡ some p → json.unmarshal (kind m) p ≡ some m

-- The switch of DecodePayload.
unfoldable pub kind_named : String → Option Kind
kind_named t =
    if same t "hello"
    then some hello
    else if same t "hello_ack"
    then some hello_ack
    else if same t "ping"
    then some ping
    else if same t "pong"
    then some pong
    else if same t "start_stream"
    then some start_stream
    else if same t "stream_started"
    then some stream_started
    else if same t "stop_stream"
    then some stop_stream
    else if same t "stream_stopped"
    then some stream_stopped
    else if same t "get_status"
    then some get_status
    else if same t "status"
    then some status
    else if same t "error"
    then some error
    else if same t "set_config"
    then some set_config
    else none

pub data DecodeResult : Type 0 where
  message : Message → DecodeResult
  json_error unknown_message_type : DecodeResult

pub data WriteMessageError (E : Type 0) : Type 0 where
  not_marshalled : WriteMessageError E
  not_written : WriteError E → WriteMessageError E

module _ (json : Json) where
  unfoldable pub encode : Message → Option (List ℕ)
  encode msg = json.marshal msg

  unfoldable pub decode_as : Kind → List ℕ → DecodeResult
  decode_as k payload = elim (json.unmarshal k payload) [ none ↦ json_error | some m ↦ message m ]

  unfoldable pub decode_payload : List ℕ → DecodeResult
  unfolding decode_as kind_named
  decode_payload payload = elim (json.type_of payload) [
    | none ↦ json_error
    | some t ↦ elim (kind_named t) [ none ↦ unknown_message_type | some k ↦ decode_as k payload ]
  ]

  abbrev written_as : {W E : Type 0} → W × Option (WriteError E) → W × Option (WriteMessageError E)
  written_as (w, none) = (w, none)
  written_as (w, some e) = (w, some (not_written e))

  unfoldable pub write_message :
      {W E : Type 0} → Writer W E → W → Message → W × Option (WriteMessageError E)
  unfolding encode write_frame
  write_message io w msg = elim (encode msg) [
    | none ↦ (w, some not_marshalled)
    | some payload ↦ written_as (write_frame io w payload)
  ]
