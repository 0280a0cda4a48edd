-- ===== src/Common/Trim.antt =====
-- Go's strings.TrimSpace and len, over the code points of a text.
use Prim.Native.Char.{Char, code}
use Prim.Native.Nat.{ℕ, ◌+◌}
use Prim.Native.String.{String, [], ◌∷◌}
use mathlib.Core.Path.{◌≡◌, refl}
use mathlib.Core.Bool.{Bool, true, false, not, ◌&&◌, ◌||◌}
use native.Mathlib.Omega.{arith}
use espmic.Common.Tests.{leb, ltb, ◌==◌, if◌then◌else◌}

-- unicode.IsSpace: White_Space, by code point.
unfoldable pub is_space : Char → Bool
is_space c =
    let n = code c in
    leb 9 n && leb n 13
    || n == 32
    || n == 0x85
    || n == 0xA0
    || n == 0x1680
    || leb 0x2000 n && leb n 0x200A
    || n == 0x2028
    || n == 0x2029
    || n == 0x202F
    || n == 0x205F
    || n == 0x3000

abbrev pub is_blank : String → Bool
is_blank [] = true
is_blank (c ∷ s) = false

unfoldable pub trim_left : String → String
unfolding is_space
trim_left [] = []
trim_left (c ∷ s) = let rest = trim_left s in if is_space c then rest else c ∷ s

unfoldable pub trim_right : String → String
unfolding is_space
trim_right [] = []
trim_right (c ∷ s) = let rest = trim_right s in if is_blank rest && is_space c then [] else c ∷ rest

unfoldable pub trim_space : String → String
unfolding trim_left trim_right
trim_space s = trim_right (trim_left s)

-- Bytes of a code point in UTF-8.
abbrev width : Char → ℕ
width c =
    let n = code c in
    if ltb n 0x80 then 1 else if ltb n 0x800 then 2 else if ltb n 0x10000 then 3 else 4

unfoldable pub byte_length : String → ℕ
byte_length [] = 0
byte_length (c ∷ s) = width c + byte_length s

-- The first character, and the last, is no space.
abbrev pub starts_bare : String → Bool
starts_bare [] = true
starts_bare (c ∷ s) = not (is_space c)

abbrev pub ends_bare : String → Bool
ends_bare [] = true
ends_bare (c ∷ s) = if is_blank s then not (is_space c) else ends_bare s

trim_left-bare : (s : String) → starts_bare (trim_left s) ≡ true
unfolding trim_left
trim_left-bare [] = refl
trim_left-bare (c ∷ s) = ground (arith, trim_left-bare s)

trim_right-bare :
    (s : String)
    → (ends_bare (trim_right s) ≡ true) × (starts_bare s ≡ true → starts_bare (trim_right s) ≡ true)
unfolding trim_right
trim_right-bare [] = (refl, λ h. h)
trim_right-bare (c ∷ s) =
    let (e, b) = trim_right-bare s in (ground (arith, e), λ h. ground (arith, h))

pub trim_space-bare :
    (s : String) → (starts_bare (trim_space s) ≡ true) × (ends_bare (trim_space s) ≡ true)
unfolding trim_space
trim_space-bare s = let (e, b) = trim_right-bare (trim_left s) in (b (trim_left-bare s), e)
