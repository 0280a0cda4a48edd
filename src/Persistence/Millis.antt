-- ===== src/Persistence/Millis.antt =====
-- An instant in a column: Time.UnixMilli, or null for Go's zero time, and time.UnixMilli. Instants are
-- in nanoseconds, 0 is the zero time.
use espmic.Common.{ℕ, ◌*◌, ◌/◌, Option, none, some, ◌==◌, if◌then◌else◌}

abbrev pub to_millis : ℕ → Option ℕ
to_millis t = if t == 0 then none else some (t / 1000000)

abbrev pub of_millis : Option ℕ → ℕ
of_millis none = 0
of_millis (some ms) = ms * 1000000
