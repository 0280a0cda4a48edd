-- ===== src/Control/Messages.antt =====
-- server/internal/control/messages.go: the typed control messages, their kinds, and the validation
-- of set_config. The JSON form of a message is not modelled: a pointer field is an option, and a
-- map of further fields is a list of names.
pub mod Validation
use espmic.Common.{
  ℕ, ◌+◌, ◌≡◌, Bool, true, false, not, ◌&&◌, ◌||◌, Option, none, some, String, List, [], ◌∷◌, ltb,
  ◌==◌, if◌then◌else◌, same,
}
use espmic.Common.Int.{ℤ, pos, negsuc, ltb_ℤ}

pub data Kind : Type 0 where
  hello hello_ack ping pong start_stream stream_started stop_stream stream_stopped : Kind
  get_status status error set_config : Kind

pub record Capabilities : Type 0 where
  pub sample_rates : List ℤ
  pub channels : ℤ
  pub codecs : List String
  pub psram : Bool

pub record Hello : Type 0 where
  pub device_id : String
  pub credential : String
  pub firmware : String
  pub capabilities : Option Capabilities
  pub protocol : ℤ

pub record HelloAck : Type 0 where
  pub session_id : String
  pub device_id : String
  pub server_time_ms : ℤ

pub record Destination : Type 0 where
  pub ip : String
  pub port : ℕ

pub record Codec : Type 0 where
  pub name : String
  pub sample_rate : ℤ
  pub channels : ℤ
  pub frame_ms : ℤ
  pub bitrate : ℤ
  pub vbr : Bool
  pub fec : Bool
  pub dtx : Bool
  pub complexity : ℤ

pub record RtpConfig : Type 0 where
  pub payload_type : ℕ

pub record StartStream : Type 0 where
  pub request_id : String
  pub stream_id : String
  pub destination : Destination
  pub codec : Codec
  pub rtp : RtpConfig

pub record StreamStarted : Type 0 where
  pub request_id : String
  pub stream_id : String

pub record StopStream : Type 0 where
  pub request_id : String
  pub stream_id : String

pub record StreamStoppedStats : Type 0 where
  pub packets_sent : ℕ
  pub bytes_sent : ℕ
  pub duration_ms : ℕ
  pub encoder_errors : ℕ
  pub extra : List String

pub record StreamStopped : Type 0 where
  pub request_id : String
  pub stream_id : String
  pub stats : Option StreamStoppedStats

pub record GetStatus : Type 0 where
  pub request_id : String

pub record Status : Type 0 where
  pub request_id : String
  pub status : String
  pub state : String
  pub fields : List String

-- The code is the canonical text of a string or a number.
pub record ErrorMessage : Type 0 where
  pub request_id : String
  pub stream_id : String
  pub code : String
  pub message : String

pub record SetConfig : Type 0 where
  pub request_id : String
  pub default_bitrate : Option ℤ
  pub server_host : Option String
  pub i2s_bclk : Option ℤ
  pub i2s_ws : Option ℤ
  pub i2s_din : Option ℤ
  pub fec : Option Bool
  pub dtx : Option Bool
  pub complexity : Option ℤ
  pub bitrate : Option ℤ
  pub vbr : Option Bool
  pub frame_ms : Option ℤ

-- `Message`: a pointer to one of the types above. The field Type is the kind.
pub data Message : Type 0 where
  m_hello : Hello → Message
  m_hello_ack : HelloAck → Message
  m_ping : ℕ → Message
  m_pong : ℕ → Message
  m_start_stream : StartStream → Message
  m_stream_started : StreamStarted → Message
  m_stop_stream : StopStream → Message
  m_stream_stopped : StreamStopped → Message
  m_get_status : GetStatus → Message
  m_status : Status → Message
  m_error : ErrorMessage → Message
  m_set_config : SetConfig → Message

unfoldable pub kind : Message → Kind
kind (m_hello m) = hello
kind (m_hello_ack m) = hello_ack
kind (m_ping seq) = ping
kind (m_pong seq) = pong
kind (m_start_stream m) = start_stream
kind (m_stream_started m) = stream_started
kind (m_stop_stream m) = stop_stream
kind (m_stream_stopped m) = stream_stopped
kind (m_get_status m) = get_status
kind (m_status m) = status
kind (m_error m) = error
kind (m_set_config m) = set_config

unfoldable pub new_set_config : String → SetConfig
new_set_config request_id = record {
  request_id = request_id;
  default_bitrate = none;
  server_host = none;
  i2s_bclk = none;
  i2s_ws = none;
  i2s_din = none;
  fec = none;
  dtx = none;
  complexity = none;
  bitrate = none;
  vbr = none;
  frame_ms = none;
}

pub data ConfigError : Type 0 where
  no_field negative_default_bitrate empty_server_host pin_out_of_range : ConfigError
  complexity_out_of_range negative_bitrate bad_frame_ms : ConfigError

abbrev is_none {ℓ} : {A : Type ℓ} → Option A → Bool
is_none none = true
is_none (some a) = false

-- `p != nil && *p < 0`.
abbrev is_negative : Option ℤ → Bool
is_negative none = false
is_negative (some n) = ltb_ℤ n (pos 0)

-- `p != nil && (*p < lo || *p > hi)` with `lo` 0.
abbrev is_outside : ℕ → Option ℤ → Bool
is_outside hi none = false
is_outside hi (some n) = ltb_ℤ n (pos 0) || ltb_ℤ (pos hi) n

abbrev is_empty : Option String → Bool
is_empty none = false
is_empty (some s) = same s ""

-- `switch *s.FrameMS`.
abbrev is_bad_frame : Option ℤ → Bool
is_bad_frame none = false
is_bad_frame (some (pos n)) = not (n == 10 || n == 20 || n == 40 || n == 60)
is_bad_frame (some (negsuc n)) = true

abbrev has_no_field : SetConfig → Bool
has_no_field s =
    is_none s.default_bitrate
    && is_none s.server_host
    && is_none s.i2s_bclk
    && is_none s.i2s_ws
    && is_none s.i2s_din
    && is_none s.fec
    && is_none s.dtx
    && is_none s.complexity
    && is_none s.bitrate
    && is_none s.vbr
    && is_none s.frame_ms

-- The pins are checked in the order of a Go map, so which pin an error names is not fixed; here the
-- error names none.
abbrev bad_pin : SetConfig → Bool
bad_pin s = is_outside 47 s.i2s_bclk || is_outside 47 s.i2s_ws || is_outside 47 s.i2s_din

unfoldable pub validate : SetConfig → Option ConfigError
validate s =
    if has_no_field s
    then some no_field
    else if is_negative s.default_bitrate
    then some negative_default_bitrate
    else if is_empty s.server_host
    then some empty_server_host
    else if bad_pin s
    then some pin_out_of_range
    else if is_outside 10 s.complexity
    then some complexity_out_of_range
    else if is_negative s.bitrate
    then some negative_bitrate
    else if is_bad_frame s.frame_ms
    then some bad_frame_ms
    else none
