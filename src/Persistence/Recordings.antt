-- ===== src/Persistence/Recordings.antt =====
-- RecordingRepo of server/internal/persistence/repositories.go.
use espmic.Common.{
  List, [], ◌∷◌, All, ap, sym, ◌∙◌, some_inj, Option-cases, inl, inr, String_discrete, false, ◌/◌,
  same,
}
use espmic.Common.{ℕ, ◌/◌, ◌≡◌, Option, none, some, String, arith, same}
use espmic.Common.Int.{ℤ}
use espmic.Persistence.Table.{Table, IsLawful}

pub record RecordingRow : Type 0 where
  pub stream_id : String
  pub sample_rate : ℤ
  pub channels : ℤ
  pub codec : String
  pub start_time : Option ℕ
  pub end_time : Option ℕ
  pub bytes_stored : ℤ
  pub uri : Option String

abbrev pub opened : String → ℤ → ℤ → String → ℕ → RecordingRow
opened stream rate channels codec start = record {
  stream_id = stream;
  sample_rate = rate;
  channels = channels;
  codec = codec;
  start_time = some (start / 1000000);
  end_time = none;
  bytes_stored = ℤ.pos 0;
  uri = none;
}

abbrev pub closed : ℕ → ℤ → String → RecordingRow → RecordingRow
closed end bytes uri row = record row {
  end_time = some (end / 1000000);
  bytes_stored = bytes;
  uri = some uri;
}

pub data Statement : Type 0 where
  creates : String → String → ℤ → ℤ → String → ℕ → Statement
  finalizes : String → ℕ → ℤ → String → Statement

abbrev pub about : Statement → String
about (creates id stream rate channels codec start) = id
about (finalizes id end bytes uri) = id

module _ (T : Table RecordingRow) where
  unfoldable pub create : T.State → String → String → ℤ → ℤ → String → ℕ → Option T.State
  create db id stream rate channels codec start =
      T.insert db id (opened stream rate channels codec start)

  unfoldable pub finalize : T.State → String → ℕ → ℤ → String → Option T.State
  finalize db id end bytes uri = T.update db id (closed end bytes uri)

  -- Statements for recordings, in any order, up to the first that fails.
  abbrev pub execute : T.State → Statement → Option T.State
  execute db (creates id stream rate channels codec start) =
      create db id stream rate channels codec start
  execute db (finalizes id end bytes uri) = finalize db id end bytes uri

  abbrev pub execute_all : T.State → List Statement → Option T.State
  execute_all db [] = some db
  execute_all db (st ∷ sts) = elim (execute db st) [ none ↦ none | some db' ↦ execute_all db' sts ]

  module _ (law : IsLawful T) where
    execute-other :
        (db db' : T.State) (id : String) (st : Statement)
        → execute db st ≡ some db'
        → same (about st) id ≡ false
        → T.find db' id ≡ T.find db id
    unfolding create finalize
    execute-other db db' id (creates other stream rate channels codec start) h ne =
        ground (arith, law.find-insert db db' other id (opened stream rate channels codec start) h)
    execute-other db db' id (finalizes other end bytes uri) h ne =
        ground (arith, law.find-update db db' other id (closed end bytes uri) h)

    execute_all-other :
        (db db' : T.State) (id : String) (sts : List Statement)
        → execute_all db sts ≡ some db'
        → All (λ st. same (about st) id ≡ false) sts
        → T.find db' id ≡ T.find db id
    execute_all-other db db' id [] h others = ap (λ x. T.find x id) (sym (some_inj h))
    execute_all-other db db' id (st ∷ sts) h (ne, others) = elim (Option-cases (execute db st)) [
      | inl e ↦ ground arith
      | inr (db1, e) ↦
          execute_all-other db1 db' id sts (ground arith) others ∙ execute-other db db1 id st e ne
    ]

    -- Over a table that keeps the laws of SQL: whatever recordings are created and finalized between
    -- them, the row of a recording that Create and then Finalize take has the stream, the format and
    -- the start that it was created with and the end, the length and the uri that it was finalized
    -- with, the instants by the millisecond.
    pub create-finalize :
        (db db1 db2 db3 : T.State) (sts : List Statement) (id stream codec uri : String)
        (rate channels bytes : ℤ) (start end : ℕ)
        → create db id stream rate channels codec start ≡ some db1
        → execute_all db1 sts ≡ some db2
        → All (λ st. same (about st) id ≡ false) sts
        → finalize db2 id end bytes uri ≡ some db3
        → T.find db3 id
          ≡ some (record {
            stream_id = stream;
            sample_rate = rate;
            channels = channels;
            codec = codec;
            start_time = some (start / 1000000);
            end_time = some (end / 1000000);
            bytes_stored = bytes;
            uri = some uri;
          })
    unfolding create finalize
    create-finalize db db1 db2 db3 sts id stream codec uri rate channels bytes start end h run
          others k =
        ground (
          arith,
          String_discrete id id,
          law.find-insert db db1 id id (opened stream rate channels codec start) h,
          execute_all-other db1 db2 id sts run others,
          law.find-update db2 db3 id id (closed end bytes uri) k,
        )
