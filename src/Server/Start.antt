-- ===== src/Server/Start.antt =====
-- StartStream of server/internal/server/server.go, split at its wait for the device's reply:
-- `begin_start` up to the wait, `finish_start` from the reply or the end of the context on. Each is
-- one step here. The random ids, the answer of net.ListenPacket, the local address of the session
-- and whether the recorders can be created are arguments.
pub mod Takeover
pub mod Timeouts
use espmic.Common.{
  ℕ, ◌*◌, ◌%◌, ◌^◌, ◌≡◌, Bool, true, false, not, ◌&&◌, Option, none, some, String, String_discrete,
  List, [], ◌∷◌, ◌++◌, if◌then◌else◌, same, ◌==◌, ◌||◌,
}
use espmic.Common.GoMap
use espmic.Common.Int.{ℤ, pos, negsuc, ◌*ℤ◌, int64, ltb_ℤ}
use espmic.Audio.Bus.{subscribe}
use espmic.Control.Messages.{
  Message, m_stream_started, m_error, Destination, Codec, RtpConfig, StartStream,
}
use espmic.Control.Commands.{new_start_stream}
use espmic.Control.Manager.{
  SessionManager, CommandError, Begun, awaits, fails, send_start_stream, wake_stream_by_reply,
  wake_stream_by_context,
}
use espmic.Device.Registry.{DeviceResult}
use espmic.Device.Registry as Devices
use espmic.Rtp.Jitter.{Float64}
use espmic.Rtp.Packet.{PionPacket, default_payload_type}
use espmic.Rtp.Receiver.{
  Binding, Receiver, BindResult, bound, unbound, BindError, bind, binding_of, set_worker_cancel,
  set_on_packet, set_on_compressed,
}
use espmic.Stream.Lifecycle.{
  Stream, StreamState, starting, rtp_wait, complete, failed, FailureReason, no_failure,
  start_rejected, replaced, TimeoutConfig, default_rtp_disappear_timeout, new, with_timeout_config,
  start, device_command_sent, stream_started, device_rejected, force_complete,
}
use espmic.Stream.Registry as Streams
use espmic.Server.State.{
  Config, Server, RecorderKind, wav, opus, DbCall, save_stream, create_recording, log, stream_of,
  update_stream, close_rtp, remove_stream, forget_metrics, finalize_recorder,
  finalize_opus_recorder, opus_key, wav_id,
}

pub data StartFailure : Type 0 where
  device_missing binding_missing device_said_no unexpected_reply no_reply : StartFailure
  bind_failed : BindError → StartFailure
  send_refused : CommandError → StartFailure

-- A start waits for the device's reply, under a request id and a stream id; it succeeds with a
-- port; or it fails.
pub data StartResult : Type 0 where
  waits_for : String → String → ℕ → StartResult
  started : String → ℕ → StartResult
  start_failed : StartFailure → StartResult

-- What the request says of a recording.
pub record RecordingConfig : Type 0 where
  pub enabled : Bool
  pub format : String

-- `time.Duration(n) * time.Second` and `time.Duration(n) * time.Millisecond`.
unfoldable pub seconds : ℤ → ℤ
unfolding int64
seconds n = int64 (n *ℤ pos 1000000000)

unfoldable pub milliseconds : ℤ → ℤ
unfolding int64
milliseconds n = int64 (n *ℤ pos 1000000)

abbrev pub timeouts : Config → TimeoutConfig
timeouts c = record {
  rtp_wait_for = seconds c.rtp_wait_timeout_s;
  rtp_disappear =
      if ltb_ℤ (pos 0) (seconds c.rtp_disappear_timeout_s)
      then seconds c.rtp_disappear_timeout_s
      else pos default_rtp_disappear_timeout;
}

abbrev pub codec : Codec
codec = record {
  name = "opus";
  sample_rate = pos 48000;
  channels = pos 2;
  frame_ms = pos 20;
  bitrate = pos 128000;
  vbr = true;
  fec = false;
  dtx = false;
  complexity = pos 0;
}

-- The host of the control address, unless it names no host or every one.
abbrev usable_host : Option String → String
usable_host none = "127.0.0.1"
usable_host (some host) =
    if not (same host "") && not (same host "0.0.0.0") && not (same host "::")
    then host
    else "127.0.0.1"

-- `split_host` is net.SplitHostPort's host.
unfoldable pub server_ip : Config → Option String → (String → Option String) → String
server_ip c local_ip split_host =
    if not (same c.advertise_host "") then c.advertise_host else elim local_ip [
      | some ip ↦ ip
      | none ↦
          if not (same c.control_addr "")
          then usable_host (split_host c.control_addr)
          else "127.0.0.1"
    ]

-- `uint16(AdvertiseRTPPort)` if it is positive.
unfoldable pub dest_port : Config → ℕ → ℕ
dest_port c port = elim c.advertise_rtp_port [
  | pos n ↦ if n == 0 then port else n % 2 ^ 16
  | negsuc n ↦ port
]

module _ {F : Type 0} (finish : String → Option (String × ℕ)) (now : ℕ) where
  -- The live stream of the device, if it has one, is ended.
  unfoldable pub replace : Server F → String → Stream → Server F
  unfolding close_rtp remove_stream finalize_recorder finalize_opus_recorder forget_metrics
  replace s device existing =
      let id = existing.stream_id in
      let s1 = update_stream s id (λ st. (force_complete st).0) in
      let s2 =
        finalize_opus_recorder finish now (finalize_recorder finish now (close_rtp s1 id) id) id in
      log (forget_metrics (remove_stream s2 id) id) (save_stream id device complete replaced 0 now)

  unfoldable pub replace_existing : Server F → String → Server F
  unfolding replace
  replace_existing s device = elim (Streams.get_by_device s.stream device) [
    | none ↦ s
    | some existing ↦ replace s device existing
  ]

-- The stream of a new start, after Start and DeviceCommandSent.
unfoldable pub starting_stream : Config → String → String → ℕ → Stream
unfolding new with_timeout_config start device_command_sent
starting_stream c id device now =
    (device_command_sent (start (with_timeout_config (new id device 0 now) (timeouts c)) now).0).0

module _ {F : Type 0} (now : ℕ) where
  unfoldable pub register_stream : Server F → String → String → Server F
  unfolding starting_stream Streams.add
  register_stream s id device =
      log (record s { stream = Streams.add s.stream (starting_stream s.cfg id device now) })
        (save_stream id device starting no_failure 0 now)

  -- The stream of a start that fails.
  unfoldable pub give_up : Server F → String → String → Server F
  unfolding close_rtp remove_stream
  give_up s id device =
      log (remove_stream (close_rtp s id) id) (save_stream id device failed start_rejected 0 now)

  unfoldable pub send_start :
      (ℕ → Message → Bool) → Server F → String → StartStream → ℕ → Server F × StartResult
  unfolding give_up
  send_start send s device req port =
      let (ctrl, b) = send_start_stream send s.ctrl device (some req) in
      let s' = record s { ctrl = ctrl } in
      elim b [
        | awaits ↦ (s', waits_for req.request_id req.stream_id port)
        | fails e ↦ (give_up s' req.stream_id device, start_failed (send_refused e))
      ]

module _ {F : Type 0} (fl : Float64 F) (finish : String → Option (String × ℕ))
    (send : ℕ → Message → Bool) (now : ℕ) (local_ip : Option String)
    (split_host : String → Option String) (listen : ℕ → Option ℕ) where
  abbrev pub start_request : Config → String → String → ℕ → StartStream
  start_request c request_id id port =
      new_start_stream request_id id
        (record { ip = server_ip c local_ip split_host; port = dest_port c port }) codec
        (record { payload_type = default_payload_type })

  -- The server has the receiver that `bind` leaves.
  unfoldable pub after_bind :
      Server F → String → String → String → BindResult → Server F × StartResult
  unfolding register_stream send_start
  after_bind s device id request_id (unbound e) = (s, start_failed (bind_failed e))
  after_bind s device id request_id (bound port) =
      send_start now send (register_stream now s id device) device
        (start_request s.cfg request_id id port) port

  unfoldable pub bind_and_send : Server F → String → String → String → Server F × StartResult
  unfolding after_bind
  bind_and_send s device id request_id =
      let (rtp, b) =
        bind fl s.rtp id default_payload_type (milliseconds s.cfg.jitter_target_ms)
          s.cfg.rtp_bind_port listen in
      after_bind (record s { rtp = rtp }) device id request_id b

  unfoldable pub begin_start : Server F → String → String → String → Server F × StartResult
  unfolding replace_existing bind_and_send
  begin_start s device id request_id = elim (Devices.get s.device device) [
    | Devices.err e ↦ (s, start_failed device_missing)
    | Devices.ok d ↦ bind_and_send (replace_existing finish now s device) device id request_id
  ]

abbrev pub wants_wav : RecordingConfig → Bool
wants_wav rec = rec.enabled && (same rec.format "" || same rec.format "wav")

-- `began` is the StartedAt of the stream at hand, as `starting_stream` sets it.
module _ {F : Type 0} (now began : ℕ) (rec : RecordingConfig) (wav_made opus_made : Bool) where
  unfoldable pub record_wav : Server F → String → Server F
  record_wav s id =
      if wants_wav rec && wav_made
      then log
          (record s {
            bus = subscribe s.bus id;
            recordings = GoMap.insert String_discrete id wav s.recordings;
          })
          (create_recording (wav_id id) id wav now)
      else s

  unfoldable pub record_opus : Server F → String → Server F
  unfolding set_on_compressed
  record_opus s id =
      if opus_made
      then log
          (record s {
            rtp = set_on_compressed s.rtp (opus_key id);
            recordings = GoMap.insert String_discrete (opus_key id) opus s.recordings;
          })
          (create_recording (opus_key id) id opus now)
      else s

  -- The device has said stream_started, and the stream's binding is this, or gone.
  unfoldable pub attach :
      Server F → String → String → ℕ → Option (Binding F) → Server F × StartResult
  unfolding record_wav record_opus set_worker_cancel set_on_packet give_up
  attach s id device port none = (give_up now s id device, start_failed binding_missing)
  attach s id device port (some b) =
      let s' = record s { rtp = set_on_packet (set_worker_cancel s.rtp id) } in
      (record_opus (record_wav s' id) id, started id port)

  unfoldable pub go_live : Server F → String → String → ℕ → Server F × StartResult
  unfolding attach
  go_live s id device port =
      let s' =
        log (update_stream s id (λ st. (stream_started st now).0))
          (save_stream id device rtp_wait no_failure 0 began) in
      attach s' id device port (binding_of s'.rtp id)

  -- The device refuses.
  unfoldable pub refuse : Server F → String → String → Server F
  unfolding give_up
  refuse s id device =
      give_up now (update_stream s id (λ st. (device_rejected st start_rejected).0)) id device

  -- From the reply on; none is the end of the context.
  unfoldable pub conclude_start :
      Server F → String → String → ℕ → Option Message → Server F × StartResult
  unfolding go_live refuse give_up
  conclude_start s id device port none = (give_up now s id device, start_failed no_reply)
  conclude_start s id device port (some (m_stream_started m)) = go_live s id device port
  conclude_start s id device port (some (m_error m)) =
      (refuse s id device, start_failed device_said_no)
  conclude_start s id device port (some other) = (refuse s id device, start_failed unexpected_reply)

  -- The caller wakes: with the reply that its channel holds, if it holds one, or because its context
  -- has ended.
  unfoldable pub finish_start :
      Server F → String → String → String → ℕ → Bool → Option (Server F × StartResult)
  unfolding conclude_start
  finish_start s request_id id device port true = some (
      conclude_start (record s { ctrl = wake_stream_by_context s.ctrl request_id }) id device port
        none)
  finish_start s request_id id device port false = elim (wake_stream_by_reply s.ctrl request_id) [
    | none ↦ none
    | some (msg, ctrl) ↦ some (conclude_start (record s { ctrl = ctrl }) id device port (some msg))
  ]
