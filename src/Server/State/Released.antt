-- ===== src/Server/State/Released.antt =====
-- What is left of a stream once it is cleaned up.
use mathlib.Core.Logic.{ite}
use espmic.Common.{
  ℕ, ◌≡◌, ◌∙◌, Option, none, some, String, String_discrete, List, [], ◌∷◌, ◌++◌, append-nil,
  append_assoc, arith, ap, ap₂, refl, sym, Option-cases, inl, inr,
}
use espmic.Common.Text.{◌<>◌, opus_key-ne}
use espmic.Audio.Bus.{others, unsubscribe}
use espmic.Common.GoMap
use espmic.Rtp.Receiver.{binding_of, close_stream}
use espmic.Stream.Registry as Streams
use espmic.Server.State.{
  Server, DbCall, end_recording, drop_recorder, RecorderKind, wav, opus, stream_of, opus_key,
  end_row, leave_bus, close_rtp, remove_stream, forget_metrics, finalize_recorder,
  finalize_opus_recorder, cleanup_stream,
}

abbrev pub recorder_of : {F : Type 0} → Server F → String → Option RecorderKind
recorder_of s key = GoMap.lookup String_discrete key s.recordings

-- What the end of a recorder adds to the database: its row gets what Finalize says, if that
-- succeeds.
abbrev pub row_ended : ℕ → Option RecorderKind → String → Option (String × ℕ) → List DbCall
row_ended now none rec r = []
row_ended now (some kind) rec none = []
row_ended now (some kind) rec (some (uri, bytes)) = end_recording rec now bytes uri ∷ []

-- The listeners of the bus after the end of a recorder, of which only one of WAV files listens.
abbrev pub bus_left : Option RecorderKind → String → List String → List String
bus_left (some wav) key listeners = others key listeners
bus_left o key listeners = listeners

module _ {F : Type 0} where
  -- All but the recorders, the bus and the log.
  pub record Agrees (s t : Server F) : Type 0 where
    pub cfg_eq : s.cfg ≡ t.cfg
    pub rtp_eq : s.rtp ≡ t.rtp
    pub stream_eq : s.stream ≡ t.stream
    pub ctrl_eq : s.ctrl ≡ t.ctrl
    pub device_eq : s.device ≡ t.device
    pub stats_eq : s.last_stats ≡ t.last_stats
    pub bitrate_eq : s.last_bitrate ≡ t.last_bitrate
    pub bitrate_t_eq : s.last_bitrate_t ≡ t.last_bitrate_t

  end_row-Agrees :
      (now : ℕ) (s : Server F) (rec_id : String) (r : Option (String × ℕ))
      → Agrees (end_row s rec_id now r) s × ((end_row s rec_id now r).recordings ≡ s.recordings)
  end_row-Agrees now s rec_id none = ground arith
  end_row-Agrees now s rec_id (some (uri, bytes)) = ground arith

  leave_bus-Agrees :
      (s : Server F) (key : String) (kind : RecorderKind)
      → Agrees (leave_bus s key kind) s × ((leave_bus s key kind).recordings ≡ s.recordings)
  leave_bus-Agrees s key wav = ground arith
  leave_bus-Agrees s key opus = ground arith

  db-end_row :
      (now : ℕ) (s : Server F) (rec : String) (kind : RecorderKind) (r : Option (String × ℕ))
      → (end_row s rec now r).db ≡ s.db ++ row_ended now (some kind) rec r
  db-end_row now s rec kind none = sym (append-nil s.db)
  db-end_row now s rec kind (some (uri, bytes)) = refl

  bus-end_row :
      (now : ℕ) (s : Server F) (rec : String) (r : Option (String × ℕ))
      → (end_row s rec now r).bus ≡ s.bus
  bus-end_row now s rec none = refl
  bus-end_row now s rec (some (uri, bytes)) = refl

  bus-leave_bus :
      (s : Server F) (key : String) (kind : RecorderKind)
      → ((leave_bus s key kind).bus.listeners ≡ bus_left (some kind) key s.bus.listeners)
        × ((leave_bus s key kind).db ≡ s.db)
  unfolding unsubscribe
  bus-leave_bus s key wav = (refl, refl)
  bus-leave_bus s key opus = (refl, refl)

module _ {F : Type 0} (finish : String → Option (String × ℕ)) (now : ℕ) where
  -- The end of the WAV recorder: Finalize is called on it, its row is completed, and it leaves the bus.
  pub finalize_recorder-ended :
      (s : Server F) (id : String)
      → ((finalize_recorder finish now s id).db
          ≡ s.db ++ row_ended now (recorder_of s id) (id <> "-rec") (finish id))
        × ((finalize_recorder finish now s id).bus.listeners
            ≡ bus_left (recorder_of s id) id s.bus.listeners)
  unfolding finalize_recorder
  finalize_recorder-ended s id = elim (Option-cases (recorder_of s id)) [
    | inl e ↦ (ground (arith, append-nil s.db), ground arith)
    | inr (kind, e) ↦
        let d = drop_recorder s id in
        let t = leave_bus d id kind in
        let (b, n) = bus-leave_bus d id kind in
        (
          ground (arith, db-end_row now t (id <> "-rec") kind (finish id), n),
          ground (arith, bus-end_row now t (id <> "-rec") (finish id), b),
        )
  ]

  pub finalize_opus_recorder-ended :
      (s : Server F) (id : String)
      → ((finalize_opus_recorder finish now s id).db
          ≡ s.db
            ++ row_ended now (recorder_of s (opus_key id)) (id <> "-opus") (finish (id <> "-opus")))
        × ((finalize_opus_recorder finish now s id).bus ≡ s.bus)
  unfolding finalize_opus_recorder
  finalize_opus_recorder-ended s id = elim (Option-cases (recorder_of s (opus_key id))) [
    | inl e ↦ (ground (arith, append-nil s.db), ground arith)
    | inr (kind, e) ↦
        let d = drop_recorder s (opus_key id) in
        (
          ground (arith, db-end_row now d (id <> "-opus") kind (finish (id <> "-opus"))),
          ground (arith, bus-end_row now d (id <> "-opus") (finish (id <> "-opus"))),
        )
  ]

  pub finalize_recorder-Agrees :
      (s : Server F) (id : String) → Agrees (finalize_recorder finish now s id) s
  unfolding finalize_recorder
  finalize_recorder-Agrees s id = ground arith

  pub recorder_of-finalize_recorder :
      (s : Server F) (id key : String)
      → recorder_of (finalize_recorder finish now s id) key
        ≡ ite (String_discrete id key) none (recorder_of s key)
  unfolding finalize_recorder
  recorder_of-finalize_recorder s id key =
      ground (arith, GoMap.lookup-delete String_discrete id key s.recordings)

  pub finalize_opus_recorder-Agrees :
      (s : Server F) (id : String) → Agrees (finalize_opus_recorder finish now s id) s
  unfolding finalize_opus_recorder
  finalize_opus_recorder-Agrees s id = ground arith

  pub recorder_of-finalize_opus_recorder :
      (s : Server F) (id key : String)
      → recorder_of (finalize_opus_recorder finish now s id) key
        ≡ ite (String_discrete (opus_key id) key) none (recorder_of s key)
  unfolding finalize_opus_recorder
  recorder_of-finalize_opus_recorder s id key =
      ground (arith, GoMap.lookup-delete String_discrete (opus_key id) key s.recordings)

  opus_stays :
      (s : Server F) (id : String)
      → recorder_of (finalize_recorder finish now s id) (opus_key id) ≡ recorder_of s (opus_key id)
  opus_stays s id = ground (
    arith,
    recorder_of-finalize_recorder s id (opus_key id),
    opus_key-ne id,
    String_discrete id (opus_key id),
  )

  -- Cleaning up after a stream takes it out of the registry, closes its socket, drops its two recorders
  -- and forgets its metrics, and leaves every other stream, socket, recorder and metric as it was.
  -- Each of the two recorders that there is is finalized: what its Finalize gives, if it succeeds,
  -- completes its row in the database, first that of the WAV recorder, then that of the Opus
  -- recorder, and nothing else is sent there; and a WAV recorder leaves the bus, where the other
  -- listeners stay.
  pub cleanup_stream-releases :
      (s : Server F) (id j : String)
      → let s' = cleanup_stream finish now s id in
        (stream_of s' j ≡ ite (String_discrete id j) none (stream_of s j))
        × (binding_of s'.rtp j ≡ ite (String_discrete id j) none (binding_of s.rtp j))
        × (recorder_of s' j
            ≡ ite
                (String_discrete (opus_key id) j)
                none
                (ite (String_discrete id j) none (recorder_of s j)))
        × (GoMap.lookup String_discrete j s'.last_stats
            ≡ ite (String_discrete id j) none (GoMap.lookup String_discrete j s.last_stats))
        × (GoMap.lookup String_discrete j s'.last_bitrate
            ≡ ite (String_discrete id j) none (GoMap.lookup String_discrete j s.last_bitrate))
        × (GoMap.lookup String_discrete j s'.last_bitrate_t
            ≡ ite (String_discrete id j) none (GoMap.lookup String_discrete j s.last_bitrate_t))
        × (s'.db
            ≡ s.db
              ++ (row_ended now (recorder_of s id) (id <> "-rec") (finish id)
                  ++ row_ended now
                      (recorder_of s (id <> "-opus"))
                      (id <> "-opus")
                      (finish (id <> "-opus"))))
        × (s'.bus.listeners ≡ bus_left (recorder_of s id) id s.bus.listeners)
  unfolding cleanup_stream close_rtp remove_stream forget_metrics close_stream Streams.remove
  cleanup_stream-releases s id j =
      let a = remove_stream (close_rtp s id) id in
      let b = finalize_recorder finish now a id in
      let c = finalize_opus_recorder finish now b id in
      let p = finalize_recorder-Agrees a id in
      let q = finalize_opus_recorder-Agrees b id in
      (
        rw (q.stream_eq, p.stream_eq) (GoMap.lookup-delete String_discrete id j s.stream.streams),
        rw (q.rtp_eq, p.rtp_eq) (GoMap.lookup-delete String_discrete id j s.rtp.streams),
        recorder_of-finalize_opus_recorder b id j
            ∙ ap (λ o. ite (String_discrete (opus_key id) j) none o)
                (recorder_of-finalize_recorder a id j),
        rw (q.stats_eq, p.stats_eq) (GoMap.lookup-delete String_discrete id j s.last_stats),
        rw (q.bitrate_eq, p.bitrate_eq) (GoMap.lookup-delete String_discrete id j s.last_bitrate),
        rw (q.bitrate_t_eq, p.bitrate_t_eq)
            (GoMap.lookup-delete String_discrete id j s.last_bitrate_t),
        (finalize_opus_recorder-ended b id).0
            ∙ ap₂ (λ db o. db ++ row_ended now o (id <> "-opus") (finish (id <> "-opus")))
                (finalize_recorder-ended a id).0 (opus_stays a id)
            ∙ append_assoc s.db (row_ended now (recorder_of s id) (id <> "-rec") (finish id)) _,
        ap (λ x. x.listeners) (finalize_opus_recorder-ended b id).1
            ∙ (finalize_recorder-ended a id).1,
      )
