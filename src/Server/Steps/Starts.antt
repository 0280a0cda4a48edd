-- ===== src/Server/Steps/Starts.antt =====
-- Starting a stream keeps every socket with an open stream.
use espmic.Common.{
  ℕ, ◌≡◌, Bool, true, false, Option, none, some, String, String_discrete, arith, refl, Option-cases,
  inl, inr, subst, sym, ◌⊎◌,
}
use espmic.Control.Messages.{
  Message, m_hello, m_hello_ack, m_ping, m_pong, m_start_stream, m_stream_started, m_stop_stream,
  m_stream_stopped, m_get_status, m_status, m_error, m_set_config, StartStream,
}
use espmic.Rtp.Jitter.{Float64, Stats}
use espmic.Rtp.Packet.{default_payload_type}
use espmic.Rtp.Receiver.{
  Binding, Receiver, binding_of, set_on_packet, set_worker_cancel, bind, bound, unbound, BindError,
  already_bound, listen_failed, port_asked, target_or_default,
}
use espmic.Stream.Lifecycle.{
  Stream, rtp_wait, no_failure, stream_started, device_rejected, force_complete, start_rejected,
}
use espmic.Server.State.{
  Server, update_stream, close_rtp, remove_stream, finalize_recorder, finalize_opus_recorder,
  forget_metrics, log, save_stream,
}
use espmic.Server.State.Released.{finalize_recorder-Agrees, finalize_opus_recorder-Agrees}
use espmic.Server.Start.{
  milliseconds, RecordingConfig, begin_start, conclude_start, give_up, refuse, go_live, record_wav,
  record_opus, after_bind, bind_and_send, send_start, register_stream, replace, replace_existing,
  attach, starting_stream, StartResult, start_request, waits_for, start_failed, send_refused,
  device_missing,
}
use espmic.Common.Int.{ℤ}
use espmic.Control.Manager.{send_start_stream, awaits, fails}
use espmic.Server.Steps.Ownership.{IsOpen, Owned, Owned-rebind, Owned-bind}
use espmic.Common.GoMap
use espmic.Stream.Registry as Streams
use espmic.Rtp.Jitter
use espmic.Device.Registry as Devices
use espmic.Server.Steps.Changes.{
  Inv, closed, Inv-close, Inv-update_close, Inv-remove, Inv-Agrees, started-IsOpen, Inv-update,
}

module _ {F : Type 0} where
  Inv-give_up :
      (now : ℕ) (s : Server F) (id device : String) → Inv s → Inv (give_up now s id device)
  unfolding give_up
  Inv-give_up now s id device v = Inv-remove (close_rtp s id) id (closed s id) (Inv-close s id v)

  Inv-refuse :
      (now began : ℕ) (rec : RecordingConfig) (w o : Bool) (s : Server F) (id device : String)
      → Inv s
      → Inv (refuse now began rec w o s id device)
  unfolding refuse give_up
  Inv-refuse now began rec w o s id device v =
      let f = λ (st : Stream). (device_rejected st start_rejected).0 in
      Inv-remove (close_rtp (update_stream s id f) id) id (closed (update_stream s id f) id)
        (Inv-update_close s id f (λ st. unfold device_rejected in ground arith) v)

  -- A live stream's first moments.
  record_wav-same :
      (now began : ℕ) (rec : RecordingConfig) (w o : Bool) (s : Server F) (id : String)
      → ((record_wav now began rec w o s id).rtp ≡ s.rtp)
        × ((record_wav now began rec w o s id).stream ≡ s.stream)
  unfolding record_wav
  record_wav-same now began rec w o s id = ground arith

  record_opus-same :
      (now began : ℕ) (rec : RecordingConfig) (w o : Bool) (s : Server F) (id : String)
      → ((record_opus now began rec w o s id).rtp.streams ≡ s.rtp.streams)
        × ((record_opus now began rec w o s id).stream ≡ s.stream)
  unfolding record_opus
  record_opus-same now began rec w o s id = ground arith

  Inv-worker :
      (s : Server F) (id : String) (b : Binding F)
      → binding_of s.rtp id ≡ some b
      → Inv s
      → Owned (set_on_packet (set_worker_cancel s.rtp id)).streams s.stream.streams
  unfolding set_on_packet set_worker_cancel
  Inv-worker s id b h v =
      rw (streams_eq s.rtp id b h)
        (Owned-rebind s.rtp.streams s.stream.streams v id b (record b { has_worker = true }) h)
    where
      streams_eq :
          (r : Receiver F) (id : String) (b : Binding F)
          → binding_of r id ≡ some b
          → (set_on_packet (set_worker_cancel r id)).streams
            ≡ GoMap.insert String_discrete id (record b { has_worker = true }) r.streams
      streams_eq r id b h = ground arith

  Inv-attach :
      (now began : ℕ) (rec : RecordingConfig) (w o : Bool) (s : Server F) (id device : String)
      (port : ℕ) (b : Option (Binding F))
      → binding_of s.rtp id ≡ b
      → Inv s
      → Inv (attach now began rec w o s id device port b).0
  unfolding attach
  Inv-attach now began rec w o s id device port none h v = Inv-give_up now s id device v
  Inv-attach now began rec w o s id device port (some b) h v =
      let s1 = record s { rtp = set_on_packet (set_worker_cancel s.rtp id) } in
      let s2 = record_wav now began rec w o s1 id in
      let (p, q) = record_wav-same now began rec w o s1 id in
      let (p', q') = record_opus-same now began rec w o s2 id in
      rw (p', q', p, q) (Inv-worker s id b h v)

  Inv-go_live :
      (now began : ℕ) (rec : RecordingConfig) (w o : Bool) (s : Server F) (id device : String)
      (port : ℕ)
      → Inv s
      → Inv (go_live now began rec w o s id device port).0
  unfolding go_live
  Inv-go_live now began rec w o s id device port v =
      let s1 = update_stream s id (λ st. (stream_started st now).0) in
      let v1 =
        Inv-update s id (λ st. (stream_started st now).0)
          (λ st. unfold stream_started in ground arith) v (started-IsOpen now) in
      Inv-attach now began rec w o (log s1 (save_stream id device rtp_wait no_failure 0 began)) id
        device port (binding_of s1.rtp id) refl v1

  pub Inv-conclude_start :
      (now began : ℕ) (rec : RecordingConfig) (w o : Bool) (s : Server F) (id device : String)
      (port : ℕ) (reply : Option Message)
      → Inv s
      → Inv (conclude_start now began rec w o s id device port reply).0
  unfolding conclude_start
  Inv-conclude_start now began rec w o s id device port none v = Inv-give_up now s id device v
  Inv-conclude_start now began rec w o s id device port (some (m_stream_started m)) v =
      Inv-go_live now began rec w o s id device port v
  Inv-conclude_start now began rec w o s id device port (some (m_error m)) v =
      Inv-refuse now began rec w o s id device v
  Inv-conclude_start now began rec w o s id device port (some (m_hello m)) v =
      Inv-refuse now began rec w o s id device v
  Inv-conclude_start now began rec w o s id device port (some (m_hello_ack m)) v =
      Inv-refuse now began rec w o s id device v
  Inv-conclude_start now began rec w o s id device port (some (m_ping m)) v =
      Inv-refuse now began rec w o s id device v
  Inv-conclude_start now began rec w o s id device port (some (m_pong m)) v =
      Inv-refuse now began rec w o s id device v
  Inv-conclude_start now began rec w o s id device port (some (m_start_stream m)) v =
      Inv-refuse now began rec w o s id device v
  Inv-conclude_start now began rec w o s id device port (some (m_stop_stream m)) v =
      Inv-refuse now began rec w o s id device v
  Inv-conclude_start now began rec w o s id device port (some (m_stream_stopped m)) v =
      Inv-refuse now began rec w o s id device v
  Inv-conclude_start now began rec w o s id device port (some (m_get_status m)) v =
      Inv-refuse now began rec w o s id device v
  Inv-conclude_start now began rec w o s id device port (some (m_status m)) v =
      Inv-refuse now began rec w o s id device v
  Inv-conclude_start now began rec w o s id device port (some (m_set_config m)) v =
      Inv-refuse now began rec w o s id device v

  Inv-replace :
      (finish : String → Option (String × ℕ)) (now : ℕ) (s : Server F) (device : String)
      (e : Stream)
      → Inv s
      → Inv (replace finish now s device e)
  unfolding replace
  Inv-replace finish now s device e v =
      let id = e.stream_id in
      let f = λ (st : Stream). (force_complete st).0 in
      let c = close_rtp (update_stream s id f) id in
      let w = finalize_recorder finish now c id in
      let p = finalize_recorder-Agrees finish now c id in
      let q = finalize_opus_recorder-Agrees finish now w id in
      let o = finalize_opus_recorder finish now w id in
      let vc = Inv-update_close s id f (λ st. unfold force_complete in ground arith) v in
      Inv-forget (remove_stream o id) id (
        Inv-remove o id (rw (q.rtp_eq, p.rtp_eq) (closed (update_stream s id f) id))
          (Inv-Agrees w o q (Inv-Agrees c w p vc)))
    where
      Inv-forget : (s : Server F) (id : String) → Inv s → Inv (forget_metrics s id)
      Inv-forget s id v = unfold forget_metrics in v

  Inv-replace_existing :
      (finish : String → Option (String × ℕ)) (now : ℕ) (s : Server F) (device : String)
      → Inv s
      → Inv (replace_existing finish now s device)
  unfolding replace_existing
  Inv-replace_existing finish now s device v =
      elim (Streams.get_by_device s.stream device)
        as (λ o.
          Inv (elim o as (λ x. Server F) [ none ↦ s | some e ↦ replace finish now s device e ])) [
            | none ↦ v
            | some e ↦ Inv-replace finish now s device e v
          ]

  bind-cases :
      (fl : Float64 F) (r : Receiver F) (id : String) (pt : ℕ) (target port : ℤ)
      (listen : ℕ → Option ℕ)
      → ((e : BindError) × (bind fl r id pt target port listen ≡ (r, unbound e)))
        ⊎ ((b : Binding F) × (n : ℕ) × (bind fl r id pt target port listen
              ≡ (record r { streams = GoMap.insert String_discrete id b r.streams }, bound n)))
  unfolding bind
  bind-cases fl r id pt target port listen = elim (Option-cases (binding_of r id)) [
    | inr (b, e) ↦ inl (already_bound, ground arith)
    | inl free ↦ elim (Option-cases (listen (port_asked port))) [
      | inl e ↦ inl (listen_failed, ground arith)
      | inr (n, e) ↦ inr (
        record {
          stream_id = id;
          ssrc = 0;
          ssrc_learned = false;
          first_seen = false;
          pt = pt;
          port = n;
          jb = Jitter.new fl (target_or_default target) false;
          has_worker = false;
        },
        n,
        ground arith,
      )
    ]
  ]

  Inv-send_start :
      (now : ℕ) (send : ℕ → Message → Bool) (s : Server F) (device : String) (req : StartStream)
      (port : ℕ)
      → Inv s
      → Inv (send_start now send s device req port).0
  unfolding send_start
  Inv-send_start now send s device req port v =
      let s1 = record s { ctrl = (send_start_stream send s.ctrl device (some req)).0 } in
      elim (send_start_stream send s.ctrl device (some req)).1
        as (λ b. Inv (
          (elim b as (λ x. Server F × StartResult) [
            | awaits ↦ (s1, waits_for req.request_id req.stream_id port)
            | fails e ↦ (give_up now s1 req.stream_id device, start_failed (send_refused e))
          ]).0)) [ awaits ↦ v | fails e ↦ Inv-give_up now s1 req.stream_id device v ]

  starting_stream-IsOpen :
      (s : Server F) (id device : String) (now : ℕ)
      → ((starting_stream s.cfg id device now).stream_id ≡ id)
        × IsOpen (starting_stream s.cfg id device now)
  unfolding starting_stream
  starting_stream-IsOpen s id device now = (refl, (omega arith, omega arith))

  module _ (fl : Float64 F) (finish : String → Option (String × ℕ)) (send : ℕ → Message → Bool)
      (now : ℕ) (local_ip : Option String) (split_host : String → Option String)
      (listen : ℕ → Option ℕ) where
    Inv-bind_and_send :
        (s : Server F) (device id request_id : String)
        → Inv s
        → Inv (bind_and_send fl finish send now local_ip split_host listen s device id request_id).0
    unfolding bind_and_send after_bind register_stream Streams.add
    Inv-bind_and_send s device id request_id v =
        elim (bind-cases fl s.rtp id default_payload_type (milliseconds s.cfg.jitter_target_ms)
          s.cfg.rtp_bind_port listen) [
            | inl (e, q) ↦
                subst
                  (λ x.
                    Inv
                      (after_bind fl finish send now local_ip split_host listen
                        (record s { rtp = x.0 }) device id request_id x.1).0)
                  (sym q) v
            | inr (b, n, q) ↦
                let (key, op) = starting_stream-IsOpen s id device now in
                let s1 =
                  register_stream now
                    (record s {
                      rtp = record (s.rtp) {
                        streams = GoMap.insert String_discrete id b s.rtp.streams;
                      };
                    })
                    id device in
                subst
                  (λ x.
                    Inv
                      (after_bind fl finish send now local_ip split_host listen
                        (record s { rtp = x.0 }) device id request_id x.1).0)
                  (sym q)
                  (Inv-send_start now send s1 device
                    (start_request fl finish send now local_ip split_host listen s.cfg request_id id
                      n)
                    n
                    (subst
                      (λ k. Owned (GoMap.insert String_discrete id b s.rtp.streams) (
                        GoMap.insert String_discrete k (starting_stream s.cfg id device now)
                          s.stream.streams))
                      (sym key)
                      (Owned-bind s.rtp.streams s.stream.streams v id b
                        (starting_stream s.cfg id device now) key op)))
          ]

    pub Inv-begin_start :
        (s : Server F) (device id request_id : String)
        → Inv s
        → Inv (begin_start fl finish send now local_ip split_host listen s device id request_id).0
    unfolding begin_start
    Inv-begin_start s device id request_id v =
        elim (Devices.get s.device device)
          as (λ r. Inv (
            (elim r as (λ x. Server F × StartResult) [
              | Devices.err e ↦ (s, start_failed device_missing)
              | Devices.ok d ↦
                  bind_and_send fl finish send now local_ip split_host listen
                    (replace_existing finish now s device) device id request_id
            ]).0)) [
              | Devices.err e ↦ v
              | Devices.ok d ↦
                  Inv-bind_and_send (replace_existing finish now s device) device id request_id
                    (Inv-replace_existing finish now s device v)
            ]
