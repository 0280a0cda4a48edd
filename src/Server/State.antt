-- ===== src/Server/State.antt =====
-- The state of the server, and what ends a stream: finalizeRecorder, finalizeOpusRecorder and
-- cleanupStreamByID.
--
-- A call of the database is an entry of the log `db`, in the order of the calls; the server drops
-- their errors. The instants read within one step are one. `finish` is what Finalize of the
-- recorder under a key returns: the uri and the bytes, or none for an error.
pub mod Released
use espmic.Common.{
  ℕ, ◌≡◌, Bool, true, false, Option, none, some, String, String_discrete, List, [], ◌∷◌, ◌++◌,
  if◌then◌else◌,
}
use espmic.Common.GoMap
use espmic.Common.Int.{ℤ}
use espmic.Common.Text.{◌<>◌}
use espmic.Audio.Bus.{PcmBus, new_bus, unsubscribe}
use espmic.Control.Messages.{StreamStoppedStats}
use espmic.Control.Manager.{SessionManager, new_session_manager}
pub use espmic.Config.{Config}
use espmic.Device.Registry.{Device}
use espmic.Device.Registry as Devices
use espmic.Rtp.Jitter.{Stats}
use espmic.Rtp.Receiver.{Receiver, new_receiver, close_stream}
use espmic.Stream.Lifecycle.{Stream, StreamState, FailureReason}
use espmic.Stream.Registry as Streams

pub data RecorderKind : Type 0 where
  wav opus : RecorderKind

pub data DbCall : Type 0 where
  save_stream : String → String → StreamState → FailureReason → ℕ → ℕ → DbCall
  save_device : Device → List ℕ → DbCall
  rename_device : String → String → DbCall
  create_recording : String → String → RecorderKind → ℕ → DbCall
  end_recording : String → ℕ → ℕ → String → DbCall
  save_device_stats : String → String → StreamStoppedStats → DbCall

pub record Metrics : Type 0 where
  pub rtp_packets_received : ℕ
  pub rtp_packets_lost : ℕ
  pub rtp_packets_duplicate : ℕ
  pub rtp_packets_reordered : ℕ
  pub rtp_packets_late : ℕ
  pub rtp_jitter_ms : ℤ
  pub rtp_bitrate_bps : ℤ
  pub opus_decode_errors : ℕ

pub record Server (F : Type 0) : Type 0 where
  pub cfg : Config
  pub device : Devices.Registry
  pub stream : Streams.Registry
  pub metrics : Metrics
  pub rtp : Receiver F
  pub bus : PcmBus
  pub ctrl : SessionManager
  pub recordings : List (String × RecorderKind)
  pub last_stats : List (String × Stats F)
  pub last_bitrate : List (String × ℕ)
  pub last_bitrate_t : List (String × ℕ)
  pub device_stats : List (String × StreamStoppedStats)
  pub db : List DbCall

-- The key of the Opus recorder of a stream, and the id under which a recording is stored.
abbrev pub opus_key : String → String
opus_key id = id <> "-opus"

abbrev pub wav_id : String → String
wav_id id = id <> "-rec"

module _ {F : Type 0} where
  abbrev pub log : Server F → DbCall → Server F
  log s call = record s { db = s.db ++ (call ∷ []) }

  abbrev pub stream_of : Server F → String → Option Stream
  stream_of s id = GoMap.lookup String_discrete id s.stream.streams

  -- A method on the stream of this id, while the registry has it.
  unfoldable pub update_stream : Server F → String → (Stream → Stream) → Server F
  update_stream s id f = elim (stream_of s id) [
    | none ↦ s
    | some st ↦ record s {
      stream = record { streams = GoMap.insert String_discrete id (f st) s.stream.streams };
    }
  ]

  unfoldable pub close_rtp : Server F → String → Server F
  unfolding close_stream
  close_rtp s id = record s { rtp = close_stream s.rtp id }

  unfoldable pub remove_stream : Server F → String → Server F
  unfolding Streams.remove
  remove_stream s id = record s { stream = Streams.remove s.stream id }

  -- The metrics kept for a stream are deleted.
  unfoldable pub forget_metrics : Server F → String → Server F
  forget_metrics s id = record s {
    last_stats = GoMap.delete String_discrete id s.last_stats;
    last_bitrate = GoMap.delete String_discrete id s.last_bitrate;
    last_bitrate_t = GoMap.delete String_discrete id s.last_bitrate_t;
  }

  -- The recorder leaves the bus, if it listens there; Finalize is called and the row completed.
  abbrev pub leave_bus : Server F → String → RecorderKind → Server F
  leave_bus s key wav = record s { bus = unsubscribe s.bus key }
  leave_bus s key opus = s

  abbrev pub end_row : Server F → String → ℕ → Option (String × ℕ) → Server F
  end_row s rec_id now none = s
  end_row s rec_id now (some (uri, bytes)) = log s (end_recording rec_id now bytes uri)

  abbrev pub drop_recorder : Server F → String → Server F
  drop_recorder s key = record s { recordings = GoMap.delete String_discrete key s.recordings }

  module _ (finish : String → Option (String × ℕ)) (now : ℕ) where
    unfoldable pub finalize_recorder : Server F → String → Server F
    finalize_recorder s id = elim (GoMap.lookup String_discrete id s.recordings) [
      | none ↦ s
      | some kind ↦ end_row (leave_bus (drop_recorder s id) id kind) (wav_id id) now (finish id)
    ]

    unfoldable pub finalize_opus_recorder : Server F → String → Server F
    finalize_opus_recorder s id = elim (GoMap.lookup String_discrete (opus_key id) s.recordings) [
      | none ↦ drop_recorder s (opus_key id)
      | some kind ↦ end_row (drop_recorder s (opus_key id)) (opus_key id) now (finish (opus_key id))
    ]

    -- cleanupStreamByID.
    unfoldable pub cleanup_stream : Server F → String → Server F
    cleanup_stream s id =
        forget_metrics
          (finalize_opus_recorder (finalize_recorder (remove_stream (close_rtp s id) id) id) id) id
