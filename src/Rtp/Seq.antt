-- ===== src/Rtp/Seq.antt =====
-- Serial arithmetic on uint16 sequence numbers: seqBefore, seqDistance and seqNext of
-- server/internal/rtp/jitter.go.
use espmic.Common.{ℕ, ◌+◌, ◌-◌, ◌%◌, ◌<◌, ◌≡◌, ◌↔◌, Bool, true, false, not, ◌&&◌, arith, leb, ◌==◌}

abbrev pub u16 : ℕ → ℕ
u16 n = n % 65536

abbrev pub IsU16 : ℕ → Type 0
IsU16 n = n < 65536

-- `int16(a-b) < 0`: the uint16 difference has its top bit set.
unfoldable pub seq_before : ℕ → ℕ → Bool
seq_before a b = not (a == b) && leb 32768 ((a + 65536 - b) % 65536)

-- `(int(b) - int(a) + 65536) % 65536`, which is not negative since `a` is below 65536.
unfoldable pub seq_distance : ℕ → ℕ → ℕ
seq_distance a b = (b + 65536 - a) % 65536

unfoldable pub seq_next : ℕ → ℕ
seq_next s = u16 (s + 1)

-- Within half the range ahead of `e`, the order of serial numbers is the order of their distances
-- from `e`.
pub seq_before_iff :
    (e a b : ℕ)
    → IsU16 e
    → IsU16 a
    → IsU16 b
    → seq_distance e a < 32768
    → seq_distance e b < 32768
    → (seq_before a b ≡ true) ↔ (seq_distance e a < seq_distance e b)
unfolding seq_before seq_distance
seq_before_iff e a b he ha hb da db = ground arith

-- What is not before `e` lies in the half of the range ahead of it.
pub not-seq_before_iff :
    (a e : ℕ) → IsU16 a → IsU16 e → (seq_before a e ≡ false) ↔ (seq_distance e a < 32768)
unfolding seq_before seq_distance
not-seq_before_iff a e ha he = ground arith

-- A step forward by the distance arrives.
pub seq_distance_lem : (a b : ℕ) → IsU16 a → IsU16 b → u16 (a + seq_distance a b) ≡ b
unfolding seq_distance
seq_distance_lem a b ha hb = omega arith

-- Neither direction is preferred at exactly half the range: each number is before the other.
pub seq_before_antipode :
    (a : ℕ) → IsU16 a → seq_before a (u16 (a + 32768)) && seq_before (u16 (a + 32768)) a ≡ true
unfolding seq_before
seq_before_antipode a h = ground arith

-- Everywhere else exactly one of two different numbers is before the other.
pub seq_before_total :
    (a b : ℕ)
    → IsU16 a
    → IsU16 b
    → ¬ (a ≡ b)
    → ¬ (seq_distance a b ≡ 32768)
    → seq_before a b ≡ not (seq_before b a)
unfolding seq_before seq_distance
seq_before_total a b ha hb ne na = ground arith
