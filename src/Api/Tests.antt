-- ===== src/Api/Tests.antt =====
-- The theorems of the HTTP interface at concrete requests.
use mathlib.Core.Option
use espmic.Common.{
  ℕ, ◌≡◌, ◌≢◌, ◌≤◌, Bool, true, false, Option, none, some, String, String_discrete, List, [], ◌∷◌,
  refl,
}
use espmic.Common.GoMap
use espmic.Common.Int.{ℤ, pos, ◌+ℤ◌, ◌-ℤ◌, ◌*ℤ◌, pos_part}
use espmic.Common.Trim.{trim_space, byte_length, starts_bare, ends_bare}
use espmic.Config.{load}
use espmic.Audio.Bus.{new_bus}
use espmic.Control.Messages.{Message, SetConfig, m_pong, m_error, new_set_config}
use espmic.Control.Messages.Validation.{IsValid}
use espmic.Control.Manager.{new_session_manager, on_ready, wake_by_context}
use espmic.Control.Manager.Replies.{handle_all, first_reply}
use espmic.Control.Manager as Manager
use espmic.Device.Registry as Devices
use espmic.Rtp.Jitter.{Float64}
use espmic.Stream.Lifecycle.{new}
use espmic.Server.State.{Server, Metrics}
use espmic.Server.Queries.{device_get}
use espmic.Server.Restart.{enrolled}
use espmic.Server.Start.{RecordingConfig}
use espmic.Api.{Request, post, patch, waiting}
use espmic.Api.Streams.{
  StartRequest, handle_start_stream, handle_start_stream_end, handle_stop_stream,
  handle_stop_stream_end,
}
use espmic.Api.Streams.Statuses.{NoConflict, NoConflictYet, handle_start_stream-NoConflict}
use espmic.Api.Devices.{handle_config, handle_config_end, handle_device_rename}
use espmic.Api.Devices.Config.{with_id, passed_on, handle_config-reply}
use espmic.Api.Devices.Names.{handle_device_rename-ok}

-- Whole numbers in place of floats.
abbrev whole : Float64 ℤ
whole = record {
  of_int = λ n. n;
  to_int64 = λ n. n;
  add = ◌+ℤ◌;
  sub = ◌-ℤ◌;
  mul = ◌*ℤ◌;
  div = λ a b. pos (pos_part a);
}

abbrev no_counts : Metrics
no_counts = record {
  rtp_packets_received = 0;
  rtp_packets_lost = 0;
  rtp_packets_duplicate = 0;
  rtp_packets_reordered = 0;
  rtp_packets_late = 0;
  rtp_jitter_ms = pos 0;
  rtp_bitrate_bps = pos 0;
  opus_decode_errors = 0;
}

-- A stream "s1" that is only created, and a device "mic" with a session.
abbrev server : Server ℤ
server = record {
  cfg = load (λ key. none) (λ v. none);
  device = Devices.register Devices.new_registry (enrolled "mic") [];
  stream = record { streams = ("s1", new "s1" "mic" 0 0) ∷ [] };
  metrics = no_counts;
  rtp = record { streams = []; on_packet = false; on_compressed = none };
  bus = new_bus;
  ctrl = on_ready new_session_manager 1 "mic";
  recordings = [];
  last_stats = [];
  last_bitrate = [];
  last_bitrate_t = [];
  device_stats = [];
  db = [];
}

abbrev finish : String → Option (String × ℕ)
finish key = some (key, 10)

abbrev sends : ℕ → Message → Bool
sends session msg = true

abbrev no_host : String → Option String
no_host addr = none

abbrev listens : ℕ → Option ℕ
listens port = some 40000

abbrev recording : RecordingConfig
recording = record { enabled = true; format = "wav" }

abbrev start_body : Request StartRequest
start_body = record {
  method = post;
  id = "mic";
  body = some (record { purpose = ""; recording = recording });
}

handle_start_stream-NoConflict_example :
    NoConflict
      (handle_start_stream whole finish sends 0 none no_host listens server start_body "s2" "r1").1
    × NoConflictYet
        (handle_start_stream_end 0 0 recording true true server "r1" "s2" "mic" 40000 false false)
    × NoConflict (handle_stop_stream finish 0 sends server "s2" "r1").1
    × NoConflictYet (handle_stop_stream_end finish 0 server "r1" "s2" "mic" false false)
handle_start_stream-NoConflict_example =
    handle_start_stream-NoConflict whole finish sends 0 none no_host listens server start_body "s2"
      "mic" "r1" 40000 recording 0 true true false false

abbrev settings : SetConfig
unfolding new_set_config
settings = record (new_set_config "") { frame_ms = some (pos 20) }

abbrev config_body : Request SetConfig
config_body = record { method = post; id = "mic"; body = some settings }

config_waits : (handle_config sends server config_body "r1").1 ≡ waiting "r1" "mic" 0
unfolding handle_config settings String_discrete Manager.send_set_config Manager.register
    GoMap.lookup Manager.on_ready GoMap.insert Manager.new_session_manager
config_waits = refl

abbrev busy : List Message
busy =
    m_pong 3
    ∷ m_error (record { request_id = "r1"; stream_id = ""; code = "409"; message = "busy" })
    ∷ []

handle_config-reply_example :
    let s1 = (handle_config sends server config_body "r1").0 in
    let m' = handle_all s1.ctrl busy in
    IsValid (with_id settings "r1")
    × (handle_config_end (record s1 { ctrl = m' }) "r1" false false
        ≡ Option.map
            (λ x. (record s1 { ctrl = wake_by_context m' "r1" }, passed_on x))
            (first_reply "r1" busy))
handle_config-reply_example =
    handle_config-reply sends server config_body settings "r1" busy false refl config_waits

abbrev name_body : Request String
name_body = record { method = patch; id = "mic"; body = some " Kitchen " }

renamed_well : (handle_device_rename server name_body true).1.status ≡ 200
unfolding handle_device_rename String_discrete GoMap.lookup Devices.register GoMap.insert
    Devices.new_registry
renamed_well = refl

handle_device_rename-ok_example :
    (given : String) × (name_body.body ≡ some given)
    × (trim_space given ≢ "")
    × (byte_length (trim_space given) ≤ 64)
    × (starts_bare (trim_space given) ≡ true)
    × (ends_bare (trim_space given) ≡ true)
    × (true ≡ true)
    × ((d : Devices.Device) × (device_get
            (handle_device_rename server name_body true).0
            name_body.id
          ≡ Devices.ok d)
        × (d.display_name ≡ trim_space given))
handle_device_rename-ok_example = handle_device_rename-ok server name_body true renamed_well
