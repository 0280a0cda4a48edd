-- ===== src/Server/Start/Timeouts.antt =====
-- What the environment makes of a new stream's timeouts.
use espmic.Common.{ℕ, ◌+◌, ◌-◌, ◌*◌, ◌%◌, ◌^◌, ◌≡◌, ◌≤◌, ◌&&◌, arith, if◌then◌else◌, ltb, ◌<◌}
use espmic.Common.Int.{ℤ, pos, negsuc}
use espmic.Config.{Config}

-- So many seconds in nanoseconds, as a remainder modulo 2^64.
abbrev nanoseconds : ℤ → ℕ
nanoseconds (pos n) = n * 1000000000 % 2 ^ 64
nanoseconds (negsuc n) = (2 ^ 64 - (n + 1) * 1000000000 % 2 ^ 64) % 2 ^ 64

-- A setting in seconds as a duration, where an int64 holds it as a positive number.
abbrev pub seconds_or : ℤ → ℕ → ℕ
seconds_or n def = let d = nanoseconds n in if ltb 0 d && ltb d (2 ^ 63) then d else def

small :
    (n : ℕ)
    → 0 < n
    → n ≤ 9223372036
    → (n * 1000000000 % 2 ^ 64 ≡ n * 1000000000) × (0 < n * 1000000000) × (n * 1000000000 < 2 ^ 63)
small n h k = (omega arith, omega arith, omega arith)

-- Up to 9223372036 seconds a setting is not wrapped.
seconds_or-small : (n def : ℕ) → 0 < n → n ≤ 9223372036 → seconds_or (pos n) def ≡ n * 1000000000
seconds_or-small n def h k = ground (arith, small n h k)

-- `if d > 0` of the timeouts.
abbrev positive : ℤ → ℕ → ℕ
positive (pos n) def = if ltb 0 n then n else def
positive (negsuc n) def = def

-- A duration that is kept as an int64, by its remainder.
kept : ℕ → ℕ → ℕ
kept d def = if ltb 0 d && ltb d (2 ^ 63) then d else def
