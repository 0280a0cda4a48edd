-- ===== src/Persistence/Streams.antt =====
-- StreamRepo of server/internal/persistence/repositories.go.
use espmic.Common.{if◌then◌else◌, ◌==◌, ◌/◌}
use espmic.Common.{ℕ, ◌%◌, ◌^◌, ◌≡◌, false, Option, none, some, String, List, map, arith, same}
use espmic.Persistence.Millis.{to_millis, of_millis}
use espmic.Persistence.Table.{Table, IsLawful}

pub record StreamRow : Type 0 where
  pub device_id : String
  pub ssrc : ℕ
  pub state : String
  pub started_at : Option ℕ
  pub reason : String

pub record StreamRecord : Type 0 where
  pub stream_id : String
  pub device_id : String
  pub ssrc : ℕ
  pub state : String
  pub reason : String
  pub started : ℕ

abbrev pub row_of : String → String → String → ℕ → ℕ → StreamRow
row_of device state reason ssrc started = record {
  device_id = device;
  ssrc = ssrc % 2 ^ 32;
  state = state;
  started_at = to_millis started;
  reason = reason;
}

abbrev record_of : String × StreamRow → StreamRecord
record_of (id, row) = record {
  stream_id = id;
  device_id = row.device_id;
  ssrc = row.ssrc;
  state = row.state;
  reason = row.reason;
  started = of_millis row.started_at;
}

module _ (T : Table StreamRow) where
  unfoldable pub save : T.State → String → String → String → String → ℕ → ℕ → Option T.State
  save db id device state reason ssrc started =
      T.upsert db id (row_of device state reason ssrc started)
        (λ old. record old { state = state; reason = reason })

  unfoldable pub load_all : T.State → Option (List StreamRecord)
  load_all db = elim (T.all db) [ none ↦ none | some rows ↦ some (map record_of rows) ]

  module _ (law : IsLawful T) where
    -- The row of another stream stays.
    save-other :
        (db db' : T.State) (id other device state reason : String) (ssrc started : ℕ)
        → save db id device state reason ssrc started ≡ some db'
        → same id other ≡ false
        → T.find db' other ≡ T.find db other
    unfolding save
    save-other db db' id other device state reason ssrc started h ne = ground (
      arith,
      law.find-upsert db db' id other (row_of device state reason ssrc started)
          (λ old. record old { state = state; reason = reason }) h,
    )

    -- Over a table that keeps the laws of SQL, a stream without a row that is saved twice has the
    -- state and the reason of the second call, and the device, the SSRC and the start of the first.
    pub save-again :
        (db db' db'' : T.State) (id device state reason device' state' reason' : String)
        (ssrc started ssrc' started' : ℕ)
        → T.find db id ≡ none
        → save db id device state reason ssrc started ≡ some db'
        → save db' id device' state' reason' ssrc' started' ≡ some db''
        → T.find db'' id
          ≡ some (record {
            device_id = device;
            ssrc = ssrc % 2 ^ 32;
            state = state';
            started_at = if started == 0 then none else some (started / 1000000);
            reason = reason';
          })
    unfolding save
    save-again db db' db'' id device state reason device' state' reason' ssrc started ssrc' started'
          new h k =
        ground (
          arith,
          law.find-upsert db db' id id (row_of device state reason ssrc started)
              (λ old. record old { state = state; reason = reason }) h,
          law.find-upsert db' db'' id id (row_of device' state' reason' ssrc' started')
              (λ old. record old { state = state'; reason = reason' }) k,
        )
