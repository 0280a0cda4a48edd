-- ===== src/Server/Stop/Leftover.antt =====
-- What a stopped stream leaves behind.
use espmic.Common.{
  ℕ, ◌≡◌, ◌∙◌, Option, none, some, String, String_discrete, List, [], ◌∷◌, ◌++◌, append-nil, arith,
  refl, ap, ap₂,
}
use espmic.Common.GoMap
use espmic.Common.Text.{◌<>◌, opus_key-ne}
use espmic.Control.Messages.{
  Message, m_hello, m_hello_ack, m_ping, m_pong, m_start_stream, m_stream_started, m_stop_stream,
  m_stream_stopped, m_get_status, m_status, m_error, m_set_config, StreamStoppedStats,
}
use espmic.Rtp.Receiver.{binding_of}
use espmic.Stream.Lifecycle.{Stream, stopped, complete, failed, no_failure, start_rejected}
use espmic.Server.State.{
  Server, DbCall, RecorderKind, save_stream, save_device, rename_device, create_recording,
  end_recording, save_device_stats, log, opus_key, update_stream, close_rtp, finalize_recorder,
}
use espmic.Server.State.Released.{
  recorder_of, row_ended, bus_left, finalize_recorder-ended, finalize_recorder-Agrees,
  recorder_of-finalize_recorder,
}
use espmic.Server.Stop.{conclude_stop, stop_anyway, answer_stop, keep_stats}

-- The rows of recordings that are completed.
abbrev pub endings : List DbCall → List DbCall
endings [] = []
endings (end_recording rec now bytes uri ∷ calls) = end_recording rec now bytes uri ∷ endings calls
endings (save_stream a b c d e f ∷ calls) = endings calls
endings (save_device a b ∷ calls) = endings calls
endings (rename_device a b ∷ calls) = endings calls
endings (create_recording a b c d ∷ calls) = endings calls
endings (save_device_stats a b c ∷ calls) = endings calls

endings-append : (a b : List DbCall) → endings (a ++ b) ≡ endings a ++ endings b
endings-append [] b = refl
endings-append (end_recording rec now bytes uri ∷ calls) b =
    ap (λ l. end_recording rec now bytes uri ∷ l) (endings-append calls b)
endings-append (save_stream x y z u v w ∷ calls) b = endings-append calls b
endings-append (save_device x y ∷ calls) b = endings-append calls b
endings-append (rename_device x y ∷ calls) b = endings-append calls b
endings-append (create_recording x y z u ∷ calls) b = endings-append calls b
endings-append (save_device_stats x y z ∷ calls) b = endings-append calls b

-- The two agree on recorders, sockets, listeners and completed rows.
abbrev Keeps : {F : Type 0} → Server F → Server F → Type 0
Keeps t s =
    (t.recordings ≡ s.recordings)
    × (t.rtp ≡ s.rtp)
    × (endings t.db ≡ endings s.db)
    × (t.bus ≡ s.bus)

endings-quiet :
    (db : List DbCall) (c : DbCall) → endings (c ∷ []) ≡ [] → endings (db ++ (c ∷ [])) ≡ endings db
endings-quiet db c h =
    endings-append db (c ∷ []) ∙ ap (λ l. endings db ++ l) h ∙ append-nil (endings db)

endings-row :
    (now : ℕ) (o : Option RecorderKind) (rec : String) (r : Option (String × ℕ))
    → endings (row_ended now o rec r) ≡ row_ended now o rec r
endings-row now none rec r = refl
endings-row now (some kind) rec none = refl
endings-row now (some kind) rec (some (uri, bytes)) = refl

Keeps-trans : {F : Type 0} (u t s : Server F) → Keeps u t → Keeps t s → Keeps u s
Keeps-trans u t s (a, b, c, d) (a', b', c', d') = (a ∙ a', b ∙ b', c ∙ c', d ∙ d')

module _ {F : Type 0} (finish : String → Option (String × ℕ)) (now : ℕ) where
  update-Keeps : (s : Server F) (id : String) (f : Stream → Stream) → Keeps (update_stream s id f) s
  unfolding update_stream
  update-Keeps s id f = ground arith

  log-Keeps : (s : Server F) (c : DbCall) → endings (c ∷ []) ≡ [] → Keeps (log s c) s
  log-Keeps s c h = (refl, refl, endings-quiet s.db c h, refl)

  mark-Keeps :
      (s : Server F) (id : String) (c : DbCall)
      → endings (c ∷ []) ≡ []
      → Keeps (log (update_stream s id (λ st. (stopped st).0)) c) s
  mark-Keeps s id c h =
      let u = update_stream s id (λ st. (stopped st).0) in
      Keeps-trans (log u c) u s (log-Keeps u c h) (update-Keeps s id (λ st. (stopped st).0))

  keep_stats-Keeps :
      (s : Server F) (id device : String) (o : Option StreamStoppedStats)
      → Keeps (keep_stats finish now s id device o) s
  unfolding keep_stats
  keep_stats-Keeps s id device none = (refl, refl, refl, refl)
  keep_stats-Keeps s id device (some x) =
      (refl, refl, endings-quiet s.db (save_device_stats id device x) refl, refl)

  answer_stop-Keeps :
      (s : Server F) (id device : String) (m : Message)
      → Keeps (answer_stop finish now s id device m).0 s
  unfolding answer_stop
  answer_stop-Keeps s id device (m_stream_stopped m) =
      let k = keep_stats finish now s id device m.stats in
      let c = save_stream id device complete no_failure 0 now in
      Keeps-trans (log (update_stream k id (λ st. (stopped st).0)) c) k s (mark-Keeps k id c refl)
        (keep_stats-Keeps s id device m.stats)
  answer_stop-Keeps s id device (m_error m) =
      mark-Keeps s id (save_stream id device failed start_rejected 0 now) refl
  answer_stop-Keeps s id device (m_hello m) = update-Keeps s id (λ st. (stopped st).0)
  answer_stop-Keeps s id device (m_hello_ack m) = update-Keeps s id (λ st. (stopped st).0)
  answer_stop-Keeps s id device (m_ping m) = update-Keeps s id (λ st. (stopped st).0)
  answer_stop-Keeps s id device (m_pong m) = update-Keeps s id (λ st. (stopped st).0)
  answer_stop-Keeps s id device (m_start_stream m) = update-Keeps s id (λ st. (stopped st).0)
  answer_stop-Keeps s id device (m_stream_started m) = update-Keeps s id (λ st. (stopped st).0)
  answer_stop-Keeps s id device (m_stop_stream m) = update-Keeps s id (λ st. (stopped st).0)
  answer_stop-Keeps s id device (m_get_status m) = update-Keeps s id (λ st. (stopped st).0)
  answer_stop-Keeps s id device (m_status m) = update-Keeps s id (λ st. (stopped st).0)
  answer_stop-Keeps s id device (m_set_config m) = update-Keeps s id (λ st. (stopped st).0)

  kept :
      (s : Server F) (id : String)
      → recorder_of (finalize_recorder finish now s id) (opus_key id) ≡ recorder_of s (opus_key id)
  kept s id = ground (
    arith,
    recorder_of-finalize_recorder finish now s id (opus_key id),
    opus_key-ne id,
    String_discrete id (opus_key id),
  )

  closed-rtp : (s : Server F) (id : String) → binding_of (close_rtp s id).rtp id ≡ none
  unfolding close_rtp
  closed-rtp s id = ground (arith, GoMap.lookup-delete String_discrete id id s.rtp.streams)

  -- What the finalizer of the WAV recorder leaves, after the socket is closed.
  Left : Server F → Server F → String → Type 0
  Left t s id =
      (recorder_of t (opus_key id) ≡ recorder_of s (opus_key id))
      × (recorder_of t id ≡ none)
      × (binding_of t.rtp id ≡ none)
      × (endings t.db ≡ endings s.db ++ row_ended now (recorder_of s id) (id <> "-rec") (finish id))
      × (t.bus.listeners ≡ bus_left (recorder_of s id) id s.bus.listeners)

  Left-Keeps : (u t s : Server F) (id : String) → Keeps u t → Left t s id → Left u s id
  unfolding Left
  Left-Keeps u t s id (r, p, d, b) (x, y, z, e, l) = (
    ap (GoMap.lookup String_discrete (opus_key id)) r ∙ x,
    ap (GoMap.lookup String_discrete id) r ∙ y,
    ap (λ q. binding_of q id) p ∙ z,
    d ∙ e,
    ap (λ q. q.listeners) b ∙ l,
  )

  Left-finalize :
      (w s : Server F) (id : String)
      → Keeps w (close_rtp s id)
      → Left (finalize_recorder finish now w id) s id
  unfolding Left close_rtp
  Left-finalize w s id (r, p, d, b) =
      let a = finalize_recorder-Agrees finish now w id in
      let (db, bus) = finalize_recorder-ended finish now w id in
      let same_kind : recorder_of w id ≡ recorder_of s id =
        ap (GoMap.lookup String_discrete id) r in
      let row = row_ended now (recorder_of s id) (id <> "-rec") (finish id) in
      (
        kept w id ∙ ap (GoMap.lookup String_discrete (opus_key id)) r,
        ground (arith, recorder_of-finalize_recorder finish now w id id),
        ap (λ q. binding_of q id) (a.rtp_eq ∙ p) ∙ closed-rtp s id,
        ap endings (db ∙ ap (λ o. w.db ++ row_ended now o (id <> "-rec") (finish id)) same_kind)
            ∙ endings-append w.db row
            ∙ ap₂ (λ x y. x ++ y) d (endings-row now (recorder_of s id) (id <> "-rec") (finish id)),
        bus ∙ ap₂ (λ o q. bus_left o id q.listeners) same_kind b,
      )

  -- Stopping a stream, whatever the device answers and if it does not answer, closes its socket and
  -- drops its WAV recorder, which leaves the bus and is finalized: what its Finalize gives, if it
  -- succeeds, completes its row in the database. No other row of a recording is completed, and the
  -- Opus recorder stays among the recorders, so that it is not finalized.
  pub conclude_stop-leftover :
      (s : Server F) (id device : String) (reply : Option Message)
      → let s' = (conclude_stop finish now s id device reply).0 in
        (recorder_of s' (opus_key id) ≡ recorder_of s (opus_key id))
        × (recorder_of s' id ≡ none)
        × (binding_of s'.rtp id ≡ none)
        × (endings s'.db
            ≡ endings s.db ++ row_ended now (recorder_of s id) (id <> "-rec") (finish id))
        × (s'.bus.listeners ≡ bus_left (recorder_of s id) id s.bus.listeners)
  unfolding conclude_stop stop_anyway Left
  conclude_stop-leftover s id device none =
      let c = close_rtp s id in
      let w = update_stream c id (λ st. (stopped st).0) in
      let f = finalize_recorder finish now w id in
      let call = save_stream id device complete no_failure 0 now in
      Left-Keeps (log f call) f s id (log-Keeps f call refl)
        (Left-finalize w s id (update-Keeps c id (λ st. (stopped st).0)))
  conclude_stop-leftover s id device (some m) =
      let f = finalize_recorder finish now (close_rtp s id) id in
      Left-Keeps (answer_stop finish now f id device m).0 f s id (answer_stop-Keeps f id device m)
        (Left-finalize (close_rtp s id) s id (refl, refl, refl, refl))
