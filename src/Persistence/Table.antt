-- ===== src/Persistence/Table.antt =====
-- What server/internal/persistence asks of a table of the database, whose engine is not part of the
-- repository: a table has a text as its primary key, and a statement may fail, which is none.
pub mod Memory
use espmic.Common.{
  ◌≡◌, Bool, Option, none, some, String, String_discrete, List, if◌then◌else◌, same,
}
use espmic.Common.GoMap

-- A row is kept apart from its key.
pub record Table (R : Type 0) : Type 1 where
  pub State : Type 0
  -- `SELECT … WHERE key=?`, and without the WHERE.
  pub find : State → String → Option R
  pub all : State → Option (List (String × R))
  -- `INSERT … ON CONFLICT(key) DO UPDATE`, with the row and the change of an old one.
  pub upsert : State → String → R → (R → R) → Option State
  pub insert : State → String → R → Option State
  -- `UPDATE … WHERE key=?`.
  pub update : State → String → (R → R) → Option State

abbrev pub merged : {R : Type 0} → R → (R → R) → Option R → R
merged r f none = r
merged r f (some old) = f old

abbrev pub changed : {R : Type 0} → (R → R) → Option R → Option R
changed f none = none
changed f (some old) = some (f old)

-- What SQL says of the statements that succeed.
pub record IsLawful {R : Type 0} (T : Table R) : Type 0 where
  pub find-upsert :
      (s t : T.State) (k j : String) (r : R) (f : R → R)
      → T.upsert s k r f ≡ some t
      → T.find t j ≡ (if same k j then some (merged r f (T.find s k)) else T.find s j)
  pub find-insert :
      (s t : T.State) (k j : String) (r : R)
      → T.insert s k r ≡ some t
      → T.find t j ≡ (if same k j then some r else T.find s j)
  pub find-update :
      (s t : T.State) (k j : String) (f : R → R)
      → T.update s k f ≡ some t
      → T.find t j ≡ (if same k j then changed f (T.find s k) else T.find s j)
  pub lookup-all :
      (s : T.State) (rows : List (String × R)) (k : String)
      → T.all s ≡ some rows
      → GoMap.lookup String_discrete k rows ≡ T.find s k
