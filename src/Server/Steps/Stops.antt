-- ===== src/Server/Steps/Stops.antt =====
-- Stopping a stream keeps every socket with an open stream.
use espmic.Common.{
  ℕ, ◌≡◌, Bool, true, false, Option, none, some, String, arith, refl, if◌then◌else◌, not,
}
use espmic.Control.Messages.{
  Message, m_hello, m_hello_ack, m_ping, m_pong, m_start_stream, m_stream_started, m_stop_stream,
  m_stream_stopped, m_get_status, m_status, m_error, m_set_config, StreamStoppedStats,
}
use espmic.Rtp.Receiver.{binding_of}
use espmic.Stream.Lifecycle.{Stream, stop_requested, stopped, active, ◌is◌}
use espmic.Server.State.{Server, stream_of, update_stream, close_rtp, finalize_recorder}
use espmic.Server.State.Released.{Agrees, finalize_recorder-Agrees}
use espmic.Server.Stop.{
  begin_stop, conclude_stop, stop_anyway, send_stop, answer_stop, keep_stats, StopResult,
  waits_for_stop, stop_failed, stop_refused, not_active, stream_missing,
}
use espmic.Control.Manager.{awaits, fails, send_stop_stream}
use espmic.Server.Steps.Ownership.{IsOpen}
use espmic.Control.Commands.{build_stop_stream}
use espmic.Server.Steps.Changes.{Inv, closed, Inv-close, Inv-Agrees, Inv-update_unbound, Inv-update}

stopped-id : (st : Stream) → (stopped st).0.stream_id ≡ st.stream_id
unfolding stopped
stopped-id st = ground arith

stop_requested-id : (st : Stream) → (stop_requested st).0.stream_id ≡ st.stream_id
unfolding stop_requested
stop_requested-id st = ground arith

stop_requested-IsOpen : (st : Stream) → IsOpen st → IsOpen (stop_requested st).0
unfolding stop_requested
stop_requested-IsOpen st o = ground arith

Inv-if :
    {F : Type 0} {R : Type 0} (b : Bool) (x y : Server F × R)
    → Inv x.0
    → Inv y.0
    → Inv (if b then x else y).0
Inv-if true x y v w = v
Inv-if false x y v w = w

module _ {F : Type 0} (finish : String → Option (String × ℕ)) (now : ℕ) where
  Inv-finalize : (s : Server F) (id : String) → Inv s → Inv (finalize_recorder finish now s id)
  Inv-finalize s id v =
      Inv-Agrees s (finalize_recorder finish now s id) (finalize_recorder-Agrees finish now s id) v

  free-finalize :
      (s : Server F) (id j : String)
      → binding_of s.rtp j ≡ none
      → binding_of (finalize_recorder finish now s id).rtp j ≡ none
  free-finalize s id j h = rw (Agrees.rtp_eq (finalize_recorder-Agrees finish now s id)) h

  Inv-stop_anyway :
      (s : Server F) (id device : String) → Inv s → Inv (stop_anyway finish now s id device)
  unfolding stop_anyway
  Inv-stop_anyway s id device v =
      Inv-finalize (update_stream (close_rtp s id) id (λ st. (stopped st).0)) id (
        Inv-update_unbound (close_rtp s id) id (λ st. (stopped st).0) stopped-id (Inv-close s id v)
          (closed s id))

  Inv-send_stop :
      (send : ℕ → Message → Bool) (s : Server F) (id device request_id : String)
      → Inv s
      → Inv (send_stop finish now send s id device request_id).0
  unfolding send_stop
  Inv-send_stop send s id device request_id v =
      let r = send_stop_stream send s.ctrl device (some (build_stop_stream request_id id)) in
      let s1 = record s { ctrl = r.0 } in
      elim r.1
        as (λ b. Inv (
          (elim b as (λ x. Server F × StopResult) [
            | awaits ↦ (s1, waits_for_stop request_id)
            | fails e ↦ (stop_anyway finish now s1 id device, stop_failed (stop_refused e))
          ]).0)) [ awaits ↦ v | fails e ↦ Inv-stop_anyway s1 id device v ]

  pub Inv-begin_stop :
      (send : ℕ → Message → Bool) (s : Server F) (id request_id : String)
      → Inv s
      → Inv (begin_stop finish now send s id request_id).0
  unfolding begin_stop
  Inv-begin_stop send s id request_id v =
      elim (stream_of s id)
        as (λ o. Inv (
          (elim o as (λ x. Server F × StopResult) [
            | none ↦ (s, stop_failed stream_missing)
            | some st ↦
                if not (st.state is active)
                then (s, stop_failed not_active)
                else send_stop finish now send (update_stream s id (λ x. (stop_requested x).0)) id
                    st.device_id request_id
          ]).0)) [
            | none ↦ v
            | some st ↦
                Inv-if (not (st.state is active)) (s, stop_failed not_active)
                  (send_stop finish now send (update_stream s id (λ x. (stop_requested x).0)) id
                    st.device_id request_id)
                  v
                  (Inv-send_stop send (update_stream s id (λ x. (stop_requested x).0)) id
                    st.device_id request_id
                    (Inv-update s id (λ x. (stop_requested x).0) stop_requested-id v
                      stop_requested-IsOpen))
          ]

  Inv-keep_stats :
      (s : Server F) (id device : String) (o : Option StreamStoppedStats)
      → ((keep_stats finish now s id device o).rtp ≡ s.rtp)
        × ((keep_stats finish now s id device o).stream ≡ s.stream)
  unfolding keep_stats
  Inv-keep_stats s id device none = (refl, refl)
  Inv-keep_stats s id device (some x) = (refl, refl)

  Inv-mark :
      (s : Server F) (id : String)
      → binding_of s.rtp id ≡ none
      → Inv s
      → Inv (update_stream s id (λ st. (stopped st).0))
  Inv-mark s id free v = Inv-update_unbound s id (λ st. (stopped st).0) stopped-id v free

  Inv-answer_stop :
      (s : Server F) (id device : String) (m : Message)
      → binding_of s.rtp id ≡ none
      → Inv s
      → Inv (answer_stop finish now s id device m).0
  unfolding answer_stop
  Inv-answer_stop s id device (m_stream_stopped m) free v =
      let k = keep_stats finish now s id device m.stats in
      let (p, q) = Inv-keep_stats s id device m.stats in Inv-mark k id (rw p free) (rw (p, q) v)
  Inv-answer_stop s id device (m_error m) free v = Inv-mark s id free v
  Inv-answer_stop s id device (m_hello m) free v = Inv-mark s id free v
  Inv-answer_stop s id device (m_hello_ack m) free v = Inv-mark s id free v
  Inv-answer_stop s id device (m_ping m) free v = Inv-mark s id free v
  Inv-answer_stop s id device (m_pong m) free v = Inv-mark s id free v
  Inv-answer_stop s id device (m_start_stream m) free v = Inv-mark s id free v
  Inv-answer_stop s id device (m_stream_started m) free v = Inv-mark s id free v
  Inv-answer_stop s id device (m_stop_stream m) free v = Inv-mark s id free v
  Inv-answer_stop s id device (m_get_status m) free v = Inv-mark s id free v
  Inv-answer_stop s id device (m_status m) free v = Inv-mark s id free v
  Inv-answer_stop s id device (m_set_config m) free v = Inv-mark s id free v

  pub Inv-conclude_stop :
      (s : Server F) (id device : String) (reply : Option Message)
      → Inv s
      → Inv (conclude_stop finish now s id device reply).0
  unfolding conclude_stop
  Inv-conclude_stop s id device none v = Inv-stop_anyway s id device v
  Inv-conclude_stop s id device (some m) v =
      let c = close_rtp s id in
      Inv-answer_stop (finalize_recorder finish now c id) id device m
        (free-finalize c id id (closed s id)) (Inv-finalize c id (Inv-close s id v))
