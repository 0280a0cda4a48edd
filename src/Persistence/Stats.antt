-- ===== src/Persistence/Stats.antt =====
-- DeviceStatsRepo of server/internal/persistence/repositories.go.
use espmic.Common.{
  ℕ, ◌≡◌, Option, some, String, List, arith, if◌then◌else◌, same, Option-cases, inl, inr,
}
use espmic.Persistence.Table.{Table, IsLawful}

-- `extra` is the bytes of a JSON text.
pub record StatsRow : Type 0 where
  pub device_id : String
  pub packets_sent : ℕ
  pub bytes_sent : ℕ
  pub duration_ms : ℕ
  pub encoder_errors : ℕ
  pub extra : List ℕ

module _ (T : Table StatsRow) where
  unfoldable pub save : T.State → String → StatsRow → Option T.State
  save db stream row = T.upsert db stream row (λ old. row)

  unfoldable pub load : T.State → String → Option StatsRow
  load db stream = T.find db stream

  module _ (law : IsLawful T) where
    -- The last statistics that are saved of a stream are those that are loaded, and those of the
    -- other streams stay.
    pub load-save :
        (db db' : T.State) (stream other : String) (row : StatsRow)
        → save db stream row ≡ some db'
        → load db' other ≡ (if same stream other then some row else load db other)
    unfolding save load
    load-save db db' stream other row h = elim (Option-cases (T.find db stream)) [
      | inl e ↦ ground (arith, law.find-upsert db db' stream other row (λ old. row) h)
      | inr (old, e) ↦ ground (arith, law.find-upsert db db' stream other row (λ old. row) h)
    ]
