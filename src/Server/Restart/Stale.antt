-- ===== src/Server/Restart/Stale.antt =====
-- What the registry holds after a restart.
use espmic.Common.{
  ◌≡◌, Bool, true, Option, none, some, String, String_discrete, List, [], ◌∷◌, arith, refl,
  if◌then◌else◌, same, Bool-cases, inl, inr,
}
use espmic.Common.GoMap
use espmic.Stream.Lifecycle.{Stream, failed, server_restart}
use espmic.Server.State.{Config, Server, stream_of}
use espmic.Server.Start.{timeouts}
use espmic.Server.Restart.{StreamRow, is_stale, restore_stream, restore_streams}

-- The last stale row of this id.
abbrev pub stale_row : String → List StreamRow → Option StreamRow
stale_row id [] = none
stale_row id (row ∷ rows) = elim (stale_row id rows) [
  | some later ↦ some later
  | none ↦ if is_stale row then (if same row.stream_id id then some row else none) else none
]

-- A stream that the restart has failed.
abbrev pub failed_stream : Config → StreamRow → Stream
failed_stream c row = record {
  stream_id = row.stream_id;
  device_id = row.device_id;
  ssrc = row.ssrc;
  state = failed;
  started_at = row.started;
  reason = server_restart;
  stream_started_at = 0;
  last_packet_at = 0;
  cfg = timeouts c;
}

module _ {F : Type 0} (saves : StreamRow → Bool) where
  stream_of-restore_stream :
      (s : Server F) (row : StreamRow) (id : String)
      → saves row ≡ true
      → ((restore_stream saves s row).1 ≡ none)
        × ((restore_stream saves s row).0.cfg ≡ s.cfg)
        × (stream_of (restore_stream saves s row).0 id
            ≡ (if same row.stream_id id then some (failed_stream s.cfg row) else stream_of s id))
  unfolding restore_stream
  stream_of-restore_stream s row id h = (
    ground arith,
    ground arith,
    ground (
      arith,
      GoMap.lookup-insert String_discrete row.stream_id id (failed_stream s.cfg row)
          s.stream.streams,
    ),
  )

  -- While the database takes every row, Restore comes to the end, and each id is then registered
  -- exactly if it is in the registry before or some row of it says ACTIVE, STARTING or RTP_WAIT;
  -- in the second case as a stream that has failed with the reason of a restart, with that row's
  -- data, the last one's if there are several.
  pub restore_streams-stale :
      (s : Server F) (rows : List StreamRow) (id : String)
      → ((row : StreamRow) → saves row ≡ true)
      → ((restore_streams saves s rows).1 ≡ none)
        × (stream_of (restore_streams saves s rows).0 id
            ≡ (elim (stale_row id rows) as (λ x. Option Stream) [
              | none ↦ stream_of s id
              | some row ↦ some (failed_stream s.cfg row)
            ]))
  unfolding restore_streams
  restore_streams-stale s [] id h = (refl, refl)
  restore_streams-stale s (row ∷ rows) id h = elim (Bool-cases (is_stale row)) [
    | inr fresh ↦ ground (arith, restore_streams-stale s rows id h)
    | inl stale ↦
        let (e, c, look) = stream_of-restore_stream s row id (h row) in
        ground (arith, restore_streams-stale (restore_stream saves s row).0 rows id h)
  ]
