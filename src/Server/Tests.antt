-- ===== src/Server/Tests.antt =====
-- The theorems of the server at concrete servers.
mod Endings
use mathlib.Core.Logic.{ite}
use espmic.Common.Text.{◌<>◌}
use espmic.Common.{◌++◌}
use espmic.Common.{
  ℕ, ◌/◌, ◌≡◌, true, false, Option, none, some, String, String_discrete, List, [], ◌∷◌, arith, refl,
  subst, sym,
}
use espmic.Common.GoMap
use espmic.Common.Int.{ℤ, pos, ◌+ℤ◌, ◌-ℤ◌, ◌*ℤ◌, pos_part}
use espmic.Audio.Bus.{new_bus}
use espmic.Control.Messages.{StreamStarted, m_stream_started}
use espmic.Control.Manager.{new_session_manager, on_ready, register, send_start_stream}
use espmic.Control.Commands.{new_start_stream}
use espmic.Device.Registry as Devices
use espmic.Rtp.Jitter.{Float64, Stats}
use espmic.Rtp.Jitter as Jitter
use espmic.Rtp.Packet.{PionPacket, Packet, parse_for, ok}
use espmic.Rtp.Receiver.{
  Binding, binding_of, bind, set_worker_cancel, set_on_packet, set_on_compressed,
}
use espmic.Stream.Lifecycle.{Stream, active, no_failure}
use espmic.Stream.Registry as Streams
use espmic.Server.State.{
  Config, Metrics, Server, wav, opus, opus_key, update_stream, stream_of, cleanup_stream,
}
use espmic.Server.State.Released.{recorder_of, row_ended, bus_left, cleanup_stream-releases}
use espmic.Server.Start.{
  milliseconds, RecordingConfig, started, conclude_start, go_live, attach, record_wav, record_opus,
  begin_start, replace_existing, bind_and_send, after_bind, send_start, register_stream,
}
use espmic.Server.Start.Takeover.{conclude_start-takes_over}
use espmic.Server.Stop.{conclude_stop}
use espmic.Server.Stop.Leftover.{endings, conclude_stop-leftover}
use espmic.Server.Traffic.{
  last_of, no_stats, receive_datagram, due, active_on, end_due, on_device_disconnect,
}
use espmic.Server.Traffic.Timely.{unless, picked, end_due-due, on_device_disconnect-active}
use espmic.Server.Traffic.Counts.{push_each, Grown, Counters, push_each-Grown}
use espmic.Server.Restart.{StreamRow, enrolled, restore_streams}
use espmic.Server.Restart.Stale.{stale_row, failed_stream, restore_streams-stale}
use espmic.Server.Steps.{here, then_step, starts}
use espmic.Server.Steps.Ownership.{IsOpen}
use espmic.Server.Steps.Owned.{Reach-IsOpen}

-- Whole numbers in place of floats.
abbrev whole : Float64 ℤ
whole = record {
  of_int = λ n. n;
  to_int64 = λ n. n;
  add = ◌+ℤ◌;
  sub = ◌-ℤ◌;
  mul = ◌*ℤ◌;
  div = λ a b. pos (pos_part a / pos_part b);
}

abbrev config : Config
config = record {
  http_addr = ":8080";
  tls_cert_file = "";
  tls_key_file = "";
  log_level = "info";
  db_path = "espmic.db";
  recordings_dir = "/data/recordings";
  control_addr = ":8081";
  device_credential = "";
  jitter_target_ms = pos 60;
  rtp_wait_timeout_s = pos 10;
  rtp_bind_port = pos 0;
  advertise_host = "";
  advertise_rtp_port = pos 0;
  rtp_disappear_timeout_s = pos 5;
}

abbrev no_counts : Metrics
no_counts = record {
  rtp_packets_received = 0;
  rtp_packets_lost = 0;
  rtp_packets_duplicate = 0;
  rtp_packets_reordered = 0;
  rtp_packets_late = 0;
  rtp_jitter_ms = pos 0;
  rtp_bitrate_bps = pos 0;
  opus_decode_errors = 0;
}

abbrev idle : Server ℤ
idle = record {
  cfg = config;
  device = Devices.new_registry;
  stream = record { streams = [] };
  metrics = no_counts;
  rtp = record { streams = []; on_packet = false; on_compressed = none };
  bus = new_bus;
  ctrl = new_session_manager;
  recordings = [];
  last_stats = [];
  last_bitrate = [];
  last_bitrate_t = [];
  device_stats = [];
  db = [];
}

-- The stream "s1" of the device "mic", ACTIVE since instant 0, with its socket and its recorders.
abbrev live_stream : Stream
live_stream = record {
  stream_id = "s1";
  device_id = "mic";
  ssrc = 7;
  state = active;
  started_at = 0;
  reason = no_failure;
  stream_started_at = 0;
  last_packet_at = 0;
  cfg = record { rtp_wait_for = pos 10; rtp_disappear = pos 5 };
}

abbrev socket : Binding ℤ
socket = record {
  stream_id = "s1";
  ssrc = 7;
  ssrc_learned = true;
  first_seen = true;
  pt = 111;
  port = 40000;
  jb = Jitter.new whole 60 false;
  has_worker = true;
}

abbrev live : Server ℤ
live = record (idle) {
  stream = record { streams = ("s1", live_stream) ∷ [] };
  rtp = record { streams = ("s1", socket) ∷ []; on_packet = true; on_compressed = none };
  recordings = ("s1", wav) ∷ ("s1-opus", opus) ∷ [];
  bus = record { listeners = "s1" ∷ "live" ∷ [] };
}

abbrev finish : String → Option (String × ℕ)
finish key = some (key, 10)

cleanup_stream-releases_example :
    let s' = cleanup_stream finish 9 live "s1" in
    (stream_of s' "s1" ≡ ite (String_discrete "s1" "s1") none (stream_of live "s1"))
    × (binding_of s'.rtp "s1" ≡ ite (String_discrete "s1" "s1") none (binding_of live.rtp "s1"))
    × (recorder_of s' "s1"
        ≡ ite
            (String_discrete (opus_key "s1") "s1")
            none
            (ite (String_discrete "s1" "s1") none (recorder_of live "s1")))
    × (GoMap.lookup String_discrete "s1" s'.last_stats
        ≡ ite (String_discrete "s1" "s1") none (GoMap.lookup String_discrete "s1" live.last_stats))
    × (GoMap.lookup String_discrete "s1" s'.last_bitrate
        ≡ ite
            (String_discrete "s1" "s1")
            none
            (GoMap.lookup String_discrete "s1" live.last_bitrate))
    × (GoMap.lookup String_discrete "s1" s'.last_bitrate_t
        ≡ ite
            (String_discrete "s1" "s1")
            none
            (GoMap.lookup String_discrete "s1" live.last_bitrate_t))
    × (s'.db
        ≡ live.db
          ++ (row_ended 9 (recorder_of live "s1") ("s1" <> "-rec") (finish "s1")
              ++ row_ended 9
                  (recorder_of live ("s1" <> "-opus"))
                  ("s1" <> "-opus")
                  (finish ("s1" <> "-opus"))))
    × (s'.bus.listeners ≡ bus_left (recorder_of live "s1") "s1" live.bus.listeners)
cleanup_stream-releases_example = cleanup_stream-releases finish 9 live "s1" "s1"

conclude_stop-leftover_example :
    let s' = (conclude_stop finish 9 live "s1" "mic" none).0 in
    (recorder_of s' (opus_key "s1") ≡ recorder_of live (opus_key "s1"))
    × (recorder_of s' "s1" ≡ none)
    × (binding_of s'.rtp "s1" ≡ none)
    × (endings s'.db
        ≡ endings live.db ++ row_ended 9 (recorder_of live "s1") ("s1" <> "-rec") (finish "s1"))
    × (s'.bus.listeners ≡ bus_left (recorder_of live "s1") "s1" live.bus.listeners)
conclude_stop-leftover_example = conclude_stop-leftover finish 9 live "s1" "mic" none

abbrev no_streams : List (String × Stream)
no_streams = []

nothing_else : GoMap.lookup String_discrete "s1" no_streams ≡ none
unfolding GoMap.lookup
nothing_else = refl

abbrev counted : Stats ℤ
counted = record {
  received = 50;
  lost = 3;
  duplicate = 1;
  reordered = 2;
  late = 4;
  jitter_ms = pos 5;
}

abbrev row : StreamRow
row = record { stream_id = "s9"; device_id = "mic"; state = "ACTIVE"; ssrc = 7; started = 1 }

counts_ok : Counters {F = ℤ} counted
counts_ok = record {
  lost_ok = omega arith;
  duplicate_ok = omega arith;
  reordered_ok = omega arith;
  late_ok = omega arith;
}

none_ok : Counters {F = ℤ} (no_stats whole)
none_ok = record {
  lost_ok = omega arith;
  duplicate_ok = omega arith;
  reordered_ok = omega arith;
  late_ok = omega arith;
}

never_pushed : last_of whole live.last_stats "s1" ≡ no_stats whole
unfolding GoMap.lookup
never_pushed = refl

restore_streams-stale_example :
    ((restore_streams (λ r. true) idle (row ∷ [])).1 ≡ none)
    × (stream_of (restore_streams (λ r. true) idle (row ∷ [])).0 "s9"
        ≡ (elim (stale_row "s9" (row ∷ [])) as (λ x. Option Stream) [
          | none ↦ stream_of idle "s9"
          | some row ↦ some (failed_stream idle.cfg row)
        ]))
restore_streams-stale_example = restore_streams-stale (λ r. true) idle (row ∷ []) "s9" (λ r. refl)

-- Every datagram is this packet.
abbrev pion : PionPacket
pion = record {
  version = 2;
  payload_type = 111;
  sequence_number = 1;
  timestamp = 0;
  ssrc = 7;
  payload = 1 ∷ [];
}

abbrev packet : Packet
packet = record {
  version = 2;
  payload_type = 111;
  sequence_number = 1;
  timestamp = 0;
  ssrc = 7;
  payload = 1 ∷ [];
}

abbrev unmarshal : List ℕ → Option PionPacket
unmarshal raw = some pion

-- A second stream that waits for its device's reply.
abbrev two_sockets : Server ℤ
two_sockets = record (live) {
  rtp = record {
    streams = ("s1", socket) ∷ ("s2", record (socket) { stream_id = "s2" }) ∷ [];
    on_packet = true;
    on_compressed = some "s1-opus";
  };
}

abbrev no_recording : RecordingConfig
no_recording = record { enabled = false; format = "" }

abbrev reply : StreamStarted
reply = record { request_id = "r2"; stream_id = "s2" }

second_starts :
    (conclude_start 9 5 no_recording false true two_sockets "s2" "cam" 40001
      (some (m_stream_started reply))).1
    ≡ started "s2" 40001
unfolding conclude_start go_live attach record_wav record_opus update_stream GoMap.lookup
    String_discrete
second_starts = refl

first_bound :
    binding_of
      (conclude_start 9 5 no_recording false true two_sockets "s2" "cam" 40001
        (some (m_stream_started reply))).0.rtp
      "s1"
    ≡ some socket
unfolding conclude_start go_live attach record_wav record_opus update_stream set_worker_cancel
    set_on_packet set_on_compressed GoMap.lookup GoMap.insert String_discrete
first_bound = refl

valid_packet : parse_for unmarshal [] socket.pt ≡ ok packet
unfolding parse_for
valid_packet = refl

conclude_start-takes_over_example :
    (receive_datagram whole unmarshal
      (conclude_start 9 5 no_recording false true two_sockets "s2" "cam" 40001
        (some (m_stream_started reply))).0
      "s1"
      []
      10).1
    ≡ some (opus_key "s2")
conclude_start-takes_over_example =
    conclude_start-takes_over whole unmarshal 9 5 no_recording false two_sockets "s2" "cam" "s1"
      40001 reply [] 10 socket packet second_starts first_bound valid_packet refl refl

-- A server whose device "mic" has a session, and a start on it.
abbrev connected : Server ℤ
connected = record (idle) {
  device = Devices.register Devices.new_registry (enrolled "mic") [];
  ctrl = on_ready new_session_manager 1 "mic";
}

abbrev after_start : Server ℤ
after_start =
    (begin_start whole finish (λ s m. true) 0 none (λ a. none) (λ port. some 40000) connected "mic"
      "s1" "r1").0

abbrev fresh_socket : Binding ℤ
fresh_socket = record {
  stream_id = "s1";
  ssrc = 0;
  ssrc_learned = false;
  first_seen = false;
  pt = 111;
  port = 40000;
  jb = Jitter.new whole 60000000 false;
  has_worker = false;
}

socket_open : binding_of after_start.rtp "s1" ≡ some fresh_socket
unfolding begin_start replace_existing bind_and_send after_bind send_start register_stream bind
    Devices.get Streams.get_by_device send_start_stream Devices.register Devices.new_registry
    on_ready new_session_manager GoMap.lookup GoMap.insert String_discrete new_start_stream register
    milliseconds ◌*ℤ◌
socket_open = refl

Reach-IsOpen_example : (st : Stream) × (stream_of after_start "s1" ≡ some st) × IsOpen st
Reach-IsOpen_example =
    Reach-IsOpen whole unmarshal connected after_start "s1" fresh_socket refl refl
      (then_step here (
        starts connected finish (λ s m. true) 0 none (λ a. none) (λ port. some 40000) "mic" "s1"
          "r1"))
      socket_open
