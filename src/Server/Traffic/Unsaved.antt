-- ===== src/Server/Traffic/Unsaved.antt =====
-- What the database hears of a stream that a tick or the end of a session ends.
use espmic.Common.{
  ℕ, ◌≡◌, ◌∙◌, true, Option, none, some, String, String_discrete, List, [], ◌∷◌, ◌++◌, arith, refl,
  same, Option-cases, inl, inr, if◌then◌else◌,
}
use espmic.Common.GoMap
use espmic.Rtp.Receiver.{binding_of}
use espmic.Stream.Lifecycle.{Stream, StreamState}
use espmic.Stream.Registry as Streams
use espmic.Server.State.{
  Server, DbCall, RecorderKind, wav, opus, save_stream, save_device, rename_device,
  create_recording, end_recording, save_device_stats, stream_of, cleanup_stream, end_row, leave_bus,
  opus_key, wav_id, drop_recorder, close_rtp, remove_stream, forget_metrics, finalize_recorder,
  finalize_opus_recorder,
}
use espmic.Server.Traffic.{
  selected, due, expire, disconnect, active_on, cleanup_all, end_due, on_device_disconnect,
}
use espmic.Server.Traffic.Timely.{Keyed, end_due-due}

-- The state in the last row that is saved of a stream.
pub row_state : String → List DbCall → Option StreamState
row_state id [] = none
row_state id (save_stream stream device state reason ssrc started ∷ calls) =
    elim (row_state id calls) [
      | none ↦ if same stream id then some state else none
      | some last ↦ some last
    ]
row_state id (call ∷ calls) = row_state id calls

row_state-end_recording :
    (id rec : String) (now bytes : ℕ) (uri : String) (calls : List DbCall)
    → row_state id (calls ++ (end_recording rec now bytes uri ∷ [])) ≡ row_state id calls
unfolding row_state
row_state-end_recording id rec now bytes uri [] = refl
row_state-end_recording id rec now bytes uri (save_stream a b c d e f ∷ calls) =
    ground (arith, row_state-end_recording id rec now bytes uri calls)
row_state-end_recording id rec now bytes uri (save_device a b ∷ calls) =
    row_state-end_recording id rec now bytes uri calls
row_state-end_recording id rec now bytes uri (rename_device a b ∷ calls) =
    row_state-end_recording id rec now bytes uri calls
row_state-end_recording id rec now bytes uri (create_recording a b c d ∷ calls) =
    row_state-end_recording id rec now bytes uri calls
row_state-end_recording id rec now bytes uri (end_recording a b c d ∷ calls) =
    row_state-end_recording id rec now bytes uri calls
row_state-end_recording id rec now bytes uri (save_device_stats a b c ∷ calls) =
    row_state-end_recording id rec now bytes uri calls

module _ {F : Type 0} (id : String) where
  row_state-end_row :
      (s : Server F) (rec : String) (now : ℕ) (r : Option (String × ℕ))
      → row_state id (end_row s rec now r).db ≡ row_state id s.db
  row_state-end_row s rec now none = refl
  row_state-end_row s rec now (some (uri, bytes)) =
      row_state-end_recording id rec now bytes uri s.db

  db-leave_bus :
      (s : Server F) (key : String) (kind : RecorderKind) → (leave_bus s key kind).db ≡ s.db
  db-leave_bus s key wav = refl
  db-leave_bus s key opus = refl

module _ {F : Type 0} (finish : String → Option (String × ℕ)) (now : ℕ) (id : String) where
  row_state-finalize_recorder :
      (s : Server F) (stream : String)
      → row_state id (finalize_recorder finish now s stream).db ≡ row_state id s.db
  unfolding finalize_recorder
  row_state-finalize_recorder s stream =
      elim (Option-cases (GoMap.lookup String_discrete stream s.recordings)) [
        | inl e ↦ ground arith
        | inr (kind, e) ↦
            let t = leave_bus (drop_recorder s stream) stream kind in
            ground (
              arith,
              row_state-end_row id t (wav_id stream) now (finish stream),
              db-leave_bus id (drop_recorder s stream) stream kind,
            )
      ]

  row_state-finalize_opus_recorder :
      (s : Server F) (stream : String)
      → row_state id (finalize_opus_recorder finish now s stream).db ≡ row_state id s.db
  unfolding finalize_opus_recorder
  row_state-finalize_opus_recorder s stream =
      elim (Option-cases (GoMap.lookup String_discrete (opus_key stream) s.recordings)) [
        | inl e ↦ ground arith
        | inr (kind, e) ↦ ground (
          arith,
          row_state-end_row id (drop_recorder s (opus_key stream)) (opus_key stream) now
              (finish (opus_key stream)),
        )
      ]

  row_state-cleanup_stream :
      (s : Server F) (stream : String)
      → row_state id (cleanup_stream finish now s stream).db ≡ row_state id s.db
  unfolding cleanup_stream close_rtp remove_stream forget_metrics
  row_state-cleanup_stream s stream =
      let s1 = remove_stream (close_rtp s stream) stream in
      row_state-finalize_opus_recorder (finalize_recorder finish now s1 stream) stream
      ∙ row_state-finalize_recorder s1 stream

  row_state-cleanup_all :
      (s : Server F) (ids : List String)
      → row_state id (cleanup_all finish now s ids).db ≡ row_state id s.db
  unfolding cleanup_all
  row_state-cleanup_all s [] = refl
  row_state-cleanup_all s (x ∷ xs) =
      row_state-cleanup_all (cleanup_stream finish now s x) xs ∙ row_state-cleanup_stream s x

  -- A session that ends its streams saves no row of them either.
  pub row_state-on_device_disconnect :
      (s : Server F) (device : String)
      → row_state id (on_device_disconnect finish now s device).db ≡ row_state id s.db
  unfolding on_device_disconnect Streams.for_each
  row_state-on_device_disconnect s device = ground (
    arith,
    row_state-cleanup_all (record s { stream = Streams.for_each s.stream (disconnect device) })
        (selected (active_on device) s.stream.streams),
  )

  -- In a registry that has each stream once, under its id, a stream that a tick finds due, since
  -- its RTP is late or has stopped, leaves the registry and its socket, and its row is not saved:
  -- the state in it stays the one that was saved before.
  pub end_due-unsaved :
      (s : Server F) (st : Stream)
      → stream_of s id ≡ some st
      → due now st ≡ true
      → Keyed s.stream.streams
      → GoMap.Unique String_discrete s.stream.streams
      → (stream_of (end_due finish now s) id ≡ none)
        × (binding_of (end_due finish now s).rtp id ≡ none)
        × (row_state id (end_due finish now s).db ≡ row_state id s.db)
  unfolding end_due Streams.for_each
  end_due-unsaved s st look late k u =
      let (p, q) = end_due-due finish now s id k u in
      (
        ground (arith, p),
        ground (arith, q),
        row_state-cleanup_all (record s { stream = Streams.for_each s.stream (expire now) })
            (selected (due now) s.stream.streams),
      )
