-- ===== src/Common/Text.antt =====
-- Texts joined, as by Go's `+`.
use Prim.Native.String.{String, ◌++◌, count}
use mathlib.Core.Path.{ap}
use mathlib.Core.Bool.{Bool, true}
use espmic.Common.Tests.{same, if◌then◌else◌}
use mathlib.Core.Logic.{◌≢◌}
use native.Mathlib.Omega.{arith}
use text.Mathlib.TextLemmas.{length-append}

infixr 65 ◌<>◌
abbrev pub ◌<>◌ : String → String → String
s <> t = s ++ t

-- strings.HasSuffix, with the suffix first.
unfoldable pub ends_with : String → String → Bool
ends_with suffix String.[] = same "" suffix
ends_with suffix (String.◌∷◌ c s) =
    let rest = ends_with suffix s in if same (String.◌∷◌ c s) suffix then true else rest

-- The recorders of one stream have different keys.
pub opus_key-ne : (s : String) → s <> "-opus" ≢ s
opus_key-ne s e = omega (arith, ap count e, length-append s "-opus")
