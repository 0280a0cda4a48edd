-- ===== src/Api/Streams.antt =====
-- The handlers of server/internal/api/api.go that start, stop and show streams. A start and a stop
-- are split where StartStream and StopStream wait for the device.
pub mod Statuses
use espmic.Common.{
  ℕ, ◌≡◌, Bool, true, false, not, ◌&&◌, Option, none, some, String, List, ◌==◌, if◌then◌else◌, same,
}
use espmic.Control.Messages.{Message, StreamStoppedStats}
use espmic.Rtp.Jitter.{Float64, Stats}
use espmic.Stream.Lifecycle.{Stream}
use espmic.Stream.Registry.{found, missing}
use espmic.Server.State.{Server}
use espmic.Server.Start.{
  RecordingConfig, StartFailure, StartResult, waits_for, started, start_failed, begin_start,
  finish_start,
}
use espmic.Server.Stop.{
  StopFailure, StopResult, waits_for_stop, stop_done, stop_failed, begin_stop, finish_stop,
}
use espmic.Server.Queries.{
  get_stream, port_of_stream, rtp_stream_stats, device_final_stats, stream_list,
}
use espmic.Api.{
  is_post, Request, Refusal, method_not_allowed, missing_id, invalid_json, flac_unsupported,
  device_not_connected, device_silent, stream_not_found, Body, refusal, start_error, stop_error,
  started_body, stopped_body, stream_body, streams_body, stats_body, Response, write_json, Progress,
  answered, waiting, refuse, Cause, unknown_stream, illegal_transition, no_connection,
  deadline_exceeded, other_cause, start_cause, stop_cause,
}

pub record StartRequest : Type 0 where
  pub purpose : String
  pub recording : RecordingConfig

-- `port, _ :=`: 0 without a socket.
abbrev pub or_zero : Option ℕ → ℕ
or_zero none = 0
or_zero (some n) = n

module _ {F : Type 0} where
  -- The switch over the error of StartStream.
  unfoldable pub start_refused : Cause → StartFailure → Response F
  start_refused unknown_stream e = write_json 409 (start_error e)
  start_refused illegal_transition e = write_json 409 (start_error e)
  start_refused no_connection e = refuse 404 device_not_connected
  start_refused deadline_exceeded e = refuse 504 device_silent
  start_refused other_cause e = write_json 500 (start_error e)

  unfoldable pub start_progress : Bool → StartResult → Progress F
  unfolding start_refused start_cause
  start_progress deadline (waits_for rid id port) = waiting rid id port
  start_progress deadline (started id port) = answered (write_json 200 (started_body id port))
  start_progress deadline (start_failed e) = answered (start_refused (start_cause deadline e) e)

  -- What is asked before StartStream is called; none lets the request through.
  abbrev pub check_start_body : StartRequest → Option (Response F)
  check_start_body req =
      if req.recording.enabled && same req.recording.format "flac"
      then some (refuse 400 flac_unsupported)
      else none

  unfoldable pub check_start : Request StartRequest → Option (Response F)
  check_start r =
      if not (is_post r.method)
      then some (refuse 405 method_not_allowed)
      else if same r.id ""
      then some (refuse 400 missing_id)
      else elim r.body [ none ↦ some (refuse 400 invalid_json) | some req ↦ check_start_body req ]

  -- The switch over the error of StopStream.
  unfoldable pub stop_refused_as : Cause → StopFailure → Response F
  stop_refused_as unknown_stream e = write_json 404 (stop_error e)
  stop_refused_as illegal_transition e = write_json 409 (stop_error e)
  stop_refused_as no_connection e = refuse 404 device_not_connected
  stop_refused_as deadline_exceeded e = refuse 504 device_silent
  stop_refused_as other_cause e = write_json 500 (stop_error e)

  -- `id` is the stream's.
  unfoldable pub stop_progress : Bool → String → StopResult → Progress F
  unfolding stop_refused_as stop_cause
  stop_progress deadline id (waits_for_stop rid) = waiting rid id 0
  stop_progress deadline id stop_done = answered (write_json 200 (stopped_body id))
  stop_progress deadline id (stop_failed e) = answered (stop_refused_as (stop_cause deadline e) e)

  unfoldable pub handle_stream : Server F → String → Response F
  unfolding get_stream port_of_stream
  handle_stream s id = if same id "" then refuse 400 missing_id else elim (get_stream s id) [
    | missing e ↦ refuse 404 stream_not_found
    | found st ↦ write_json 200 (stream_body st (or_zero (port_of_stream s id)))
  ]

  unfoldable pub handle_streams : F → Server F → Response F
  unfolding stream_list
  handle_streams zero_ms s = write_json 200 (streams_body (stream_list zero_ms s))

  unfoldable pub handle_stream_stats :
      (String → Option StreamStoppedStats) → Server F → String → Server F × Response F
  unfolding rtp_stream_stats device_final_stats
  handle_stream_stats load s id =
      if same id "" then (s, refuse 400 missing_id) else elim (rtp_stream_stats s id) [
        | none ↦ (s, refuse 404 stream_not_found)
        | some stats ↦
            let (s', final) = device_final_stats load s id in
            (s', write_json 200 (stats_body id stats final))
      ]

  abbrev pub to_start : Bool → Option (Server F × StartResult) → Option (Server F × Progress F)
  to_start deadline none = none
  to_start deadline (some (s, result)) = some (s, start_progress deadline result)

  abbrev pub to_stop :
      Bool → String → Option (Server F × StopResult) → Option (Server F × Progress F)
  to_stop deadline id none = none
  to_stop deadline id (some (s, result)) = some (s, stop_progress deadline id result)

-- The context of a request that has ended before it waits is taken as one that times out later.
module _ {F : Type 0} (fl : Float64 F) (finish : String → Option (String × ℕ))
    (send : ℕ → Message → Bool) (now : ℕ) (local_ip : Option String)
    (split_host : String → Option String) (listen : ℕ → Option ℕ) where
  -- `stream_id` and `request_id` are the random ids.
  unfoldable pub handle_start_stream :
      Server F → Request StartRequest → String → String → Server F × Progress F
  unfolding check_start begin_start start_progress
  handle_start_stream s r stream_id request_id = elim (check_start r) [
    | some refused ↦ (s, answered refused)
    | none ↦
        let (s', result) =
          begin_start fl finish send now local_ip split_host listen s r.id stream_id request_id in
        (s', start_progress true result)
  ]

module _ {F : Type 0} (now began : ℕ) (rec : RecordingConfig) (wav_made opus_made : Bool) where
  -- The wait of a start ends: `expired` is the end of the context, `deadline` that it timed out.
  unfoldable pub handle_start_stream_end :
      Server F → String → String → String → ℕ → Bool → Bool → Option (Server F × Progress F)
  unfolding finish_start start_progress
  handle_start_stream_end s request_id id device port expired deadline =
      to_start deadline
        (finish_start now began rec wav_made opus_made s request_id id device port expired)

module _ {F : Type 0} (finish : String → Option (String × ℕ)) (now : ℕ) where
  unfoldable pub handle_stop_stream :
      (ℕ → Message → Bool) → Server F → String → String → Server F × Progress F
  unfolding begin_stop stop_progress
  handle_stop_stream send s id request_id =
      if same id ""
      then (s, answered (refuse 400 missing_id))
      else let (s', result) = begin_stop finish now send s id request_id in
        (s', stop_progress true id result)

  unfoldable pub handle_stop_stream_end :
      Server F → String → String → String → Bool → Bool → Option (Server F × Progress F)
  unfolding finish_stop stop_progress
  handle_stop_stream_end s request_id id device expired deadline =
      to_stop deadline id (finish_stop finish now s request_id id device expired)
