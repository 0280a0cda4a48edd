-- ===== src/Server/Stop.antt =====
-- StopStream of server/internal/server/server.go, split at its wait like StartStream.
pub mod Leftover
use espmic.Common.{
  ℕ, ◌≡◌, Bool, true, false, not, Option, none, some, String, String_discrete, List, [], ◌∷◌, ◌++◌,
  if◌then◌else◌,
}
use espmic.Common.GoMap
use espmic.Control.Messages.{Message, m_stream_stopped, m_error, StopStream, StreamStoppedStats}
use espmic.Control.Commands.{build_stop_stream}
use espmic.Control.Manager.{
  CommandError, Begun, awaits, fails, send_stop_stream, wake_stream_by_reply,
  wake_stream_by_context,
}
use espmic.Stream.Lifecycle.{
  Stream, active, complete, failed, no_failure, start_rejected, ◌is◌, stop_requested, stopped,
}
use espmic.Server.State.{
  Server, DbCall, save_stream, save_device_stats, log, stream_of, update_stream, close_rtp,
  finalize_recorder,
}

pub data StopFailure : Type 0 where
  stream_missing not_active device_error unexpected_answer no_answer : StopFailure
  stop_refused : CommandError → StopFailure

pub data StopResult : Type 0 where
  waits_for_stop : String → StopResult
  stop_done : StopResult
  stop_failed : StopFailure → StopResult

module _ {F : Type 0} (finish : String → Option (String × ℕ)) (now : ℕ) where
  abbrev mark_stopped : Server F → String → Server F
  mark_stopped s id = update_stream s id (λ st. (stopped st).0)

  -- The command was not sent, or not answered.
  unfoldable pub stop_anyway : Server F → String → String → Server F
  unfolding close_rtp finalize_recorder
  stop_anyway s id device =
      log (finalize_recorder finish now (mark_stopped (close_rtp s id) id) id)
        (save_stream id device complete no_failure 0 now)

  unfoldable pub send_stop :
      (ℕ → Message → Bool) → Server F → String → String → String → Server F × StopResult
  unfolding stop_anyway
  send_stop send s id device request_id =
      let (ctrl, b) =
        send_stop_stream send s.ctrl device (some (build_stop_stream request_id id)) in
      let s' = record s { ctrl = ctrl } in
      elim b [
        | awaits ↦ (s', waits_for_stop request_id)
        | fails e ↦ (stop_anyway s' id device, stop_failed (stop_refused e))
      ]

  unfoldable pub begin_stop :
      (ℕ → Message → Bool) → Server F → String → String → Server F × StopResult
  unfolding send_stop update_stream
  begin_stop send s id request_id = elim (stream_of s id) [
    | none ↦ (s, stop_failed stream_missing)
    | some st ↦
        if not (st.state is active)
        then (s, stop_failed not_active)
        else send_stop send (update_stream s id (λ x. (stop_requested x).0)) id st.device_id
            request_id
  ]

  -- The device's own counts.
  unfoldable pub keep_stats : Server F → String → String → Option StreamStoppedStats → Server F
  keep_stats s id device none = s
  keep_stats s id device (some stats) =
      log (record s { device_stats = GoMap.insert String_discrete id stats s.device_stats })
        (save_device_stats id device stats)

  -- The answers, once the socket is closed and the WAV recorder finalized.
  unfoldable pub answer_stop : Server F → String → String → Message → Server F × StopResult
  unfolding update_stream keep_stats
  answer_stop s id device (m_stream_stopped m) = (
    log (mark_stopped (keep_stats s id device m.stats) id)
        (save_stream id device complete no_failure 0 now),
    stop_done,
  )
  answer_stop s id device (m_error m) = (
    log (mark_stopped s id) (save_stream id device failed start_rejected 0 now),
    stop_failed device_error,
  )
  answer_stop s id device other = (mark_stopped s id, stop_failed unexpected_answer)

  -- From the answer on; none is the end of the context.
  unfoldable pub conclude_stop : Server F → String → String → Option Message → Server F × StopResult
  unfolding stop_anyway answer_stop close_rtp finalize_recorder
  conclude_stop s id device none = (stop_anyway s id device, stop_failed no_answer)
  conclude_stop s id device (some msg) =
      answer_stop (finalize_recorder finish now (close_rtp s id) id) id device msg

  -- The caller wakes, as in `finish_start`.
  unfoldable pub finish_stop :
      Server F → String → String → String → Bool → Option (Server F × StopResult)
  unfolding conclude_stop
  finish_stop s request_id id device true =
      some (
        conclude_stop (record s { ctrl = wake_stream_by_context s.ctrl request_id }) id device none)
  finish_stop s request_id id device false = elim (wake_stream_by_reply s.ctrl request_id) [
    | none ↦ none
    | some (msg, ctrl) ↦ some (conclude_stop (record s { ctrl = ctrl }) id device (some msg))
  ]
