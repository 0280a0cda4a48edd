-- ===== src/Api/Streams/Statuses.antt =====
-- Which status codes starts and stops are answered with.
use espmic.Common.{
  ℕ, ◌≡◌, ◌≢◌, Bool, true, false, Option, none, some, String, String_discrete, arith, if◌then◌else◌,
  same, Option-cases, inl, inr, ◌⊎◌,
}
use espmic.Control.Messages.{Message}
use espmic.Control.Manager.{
  nil_request, no_request_id, no_stream_id, not_connected, duplicate_await, send_failed, invalid,
}
use espmic.Rtp.Jitter.{Float64}
use espmic.Stream.Lifecycle.{Stream, active, ◌is◌}
use espmic.Server.State.{Server, stream_of}
use espmic.Server.Start.{
  RecordingConfig, StartFailure, device_missing, binding_missing, device_said_no, unexpected_reply,
  no_reply, bind_failed, send_refused, StartResult, waits_for, started, start_failed, finish_start,
}
use espmic.Server.Stop.{
  StopFailure, stream_missing, not_active, device_error, unexpected_answer, no_answer, stop_refused,
  StopResult, waits_for_stop, stop_done, stop_failed, begin_stop, finish_stop,
}
use espmic.Api.{Request, stop_error, Response, write_json, Progress, answered, waiting}
use espmic.Api.Streams.{
  StartRequest, check_start, start_progress, stop_progress, handle_start_stream,
  handle_start_stream_end, to_start, handle_stop_stream, handle_stop_stream_end, to_stop,
}

-- Nothing is answered yet, or something but 409.
abbrev pub NoConflict : {F : Type 0} → Progress F → Type 0
NoConflict (answered r) = r.status ≢ 409
NoConflict (waiting rid id port) = Unit {0}

-- The same of a wait that may go on.
abbrev pub NoConflictYet : {F : Type 0} → Option (Server F × Progress F) → Type 0
NoConflictYet none = Unit {0}
NoConflictYet (some (s, p)) = NoConflict p

module _ (F : Type 0) where
  start_failed-status :
      (d : Bool) (e : StartFailure) → NoConflict {F = F} (start_progress d (start_failed e))
  unfolding start_progress
  start_failed-status d device_missing = omega arith
  start_failed-status d binding_missing = omega arith
  start_failed-status d device_said_no = omega arith
  start_failed-status d unexpected_reply = omega arith
  start_failed-status true no_reply = omega arith
  start_failed-status false no_reply = omega arith
  start_failed-status d (bind_failed e) = omega arith
  start_failed-status d (send_refused nil_request) = omega arith
  start_failed-status d (send_refused no_request_id) = omega arith
  start_failed-status d (send_refused no_stream_id) = omega arith
  start_failed-status d (send_refused not_connected) = omega arith
  start_failed-status d (send_refused duplicate_await) = omega arith
  start_failed-status d (send_refused send_failed) = omega arith
  start_failed-status d (send_refused (invalid e)) = omega arith

  start_progress-status : (d : Bool) (r : StartResult) → NoConflict {F = F} (start_progress d r)
  unfolding start_progress
  start_progress-status d (waits_for rid id port) = tt
  start_progress-status d (started id port) = omega arith
  start_progress-status d (start_failed e) = start_failed-status d e

  stop_failed-status :
      (d : Bool) (id : String) (e : StopFailure)
      → NoConflict {F = F} (stop_progress d id (stop_failed e))
  unfolding stop_progress
  stop_failed-status d id stream_missing = omega arith
  stop_failed-status d id not_active = omega arith
  stop_failed-status d id device_error = omega arith
  stop_failed-status d id unexpected_answer = omega arith
  stop_failed-status true id no_answer = omega arith
  stop_failed-status false id no_answer = omega arith
  stop_failed-status d id (stop_refused nil_request) = omega arith
  stop_failed-status d id (stop_refused no_request_id) = omega arith
  stop_failed-status d id (stop_refused no_stream_id) = omega arith
  stop_failed-status d id (stop_refused not_connected) = omega arith
  stop_failed-status d id (stop_refused duplicate_await) = omega arith
  stop_failed-status d id (stop_refused send_failed) = omega arith
  stop_failed-status d id (stop_refused (invalid e)) = omega arith

  stop_progress-status :
      (d : Bool) (id : String) (r : StopResult) → NoConflict {F = F} (stop_progress d id r)
  unfolding stop_progress
  stop_progress-status d id (waits_for_stop rid) = tt
  stop_progress-status d id stop_done = omega arith
  stop_progress-status d id (stop_failed e) = stop_failed-status d id e

module _ {F : Type 0} where
  check_start-status :
      (r : Request StartRequest) (p : Response F)
      → check_start r ≡ some p
      → (p.status ≡ 400) ⊎ (p.status ≡ 405)
  unfolding check_start
  check_start-status r p h = ground arith

  to_start-NoConflict :
      (d : Bool) (o : Option (Server F × StartResult)) → NoConflictYet (to_start d o)
  to_start-NoConflict d none = tt
  to_start-NoConflict d (some (s, r)) = start_progress-status F d r

  to_stop-NoConflict :
      (d : Bool) (id : String) (o : Option (Server F × StopResult)) → NoConflictYet (to_stop d id o)
  to_stop-NoConflict d id none = tt
  to_stop-NoConflict d id (some (s, r)) = stop_progress-status F d id r

  NoConflict-if :
      (b : Bool) (x y : Server F × Progress F)
      → NoConflict x.1
      → NoConflict y.1
      → NoConflict (if b then x else y).1
  NoConflict-if true x y p q = p
  NoConflict-if false x y p q = q

module _ {F : Type 0} (fl : Float64 F) (finish : String → Option (String × ℕ))
    (send : ℕ → Message → Bool) (now : ℕ) (local_ip : Option String)
    (split_host : String → Option String) (listen : ℕ → Option ℕ) where
  -- Neither a start nor a stop is ever answered 409, at once or after its wait.
  pub handle_start_stream-NoConflict :
      (s : Server F) (r : Request StartRequest) (id device rid : String) (port : ℕ)
      (rec : RecordingConfig) (began : ℕ) (wav_made opus_made expired deadline : Bool)
      → NoConflict (handle_start_stream fl finish send now local_ip split_host listen s r id rid).1
        × NoConflictYet (
            handle_start_stream_end now began rec wav_made opus_made s rid id device port expired
              deadline)
        × NoConflict (handle_stop_stream finish now send s id rid).1
        × NoConflictYet (handle_stop_stream_end finish now s rid id device expired deadline)
  unfolding handle_start_stream handle_start_stream_end handle_stop_stream handle_stop_stream_end
  handle_start_stream-NoConflict s r id device rid port rec began w o expired deadline = (
    elim (Option-cases (check_start {F = F} r)) [
      | inl e ↦ rw (e, handle_start_stream) (start_progress-status F true _)
      | inr (p, e) ↦ rw (e, handle_start_stream) (refused p (check_start-status r p e))
    ],
    to_start-NoConflict deadline (finish_start now began rec w o s rid id device port expired),
    NoConflict-if (same id "") _ _ (omega arith)
        (stop_progress-status F true id (begin_stop finish now send s id rid).1),
    to_stop-NoConflict deadline id (finish_stop finish now s rid id device expired),
  )
    where
      refused : (p : Response F) → (p.status ≡ 400) ⊎ (p.status ≡ 405) → p.status ≢ 409
      refused p h = λ k. omega arith

  -- A stop of a registered stream that is not ACTIVE is answered 500, and changes nothing.
  pub handle_stop_stream-inactive :
      (s : Server F) (id rid : String) (st : Stream)
      → id ≢ ""
      → stream_of s id ≡ some st
      → (st.state is active) ≡ false
      → handle_stop_stream finish now send s id rid
        ≡ (s, answered (write_json 500 (stop_error not_active)))
  unfolding handle_stop_stream begin_stop stop_progress
  handle_stop_stream-inactive s id rid st ne h k = ground (arith, String_discrete id "")
