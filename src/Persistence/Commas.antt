-- ===== src/Persistence/Commas.antt =====
-- Go's strings.Join and strings.Split with a comma, as the repositories keep a list in one column.
use Prim.Native.Char.{Char, code}
use text.Mathlib.TextLemmas.{nil-append, cons-append}
use espmic.Common.Text.{◌<>◌}
use espmic.Common.{
  ◌≡◌, Bool, false, ◌||◌, String, List, [], ◌∷◌, arith, refl, ap, if◌then◌else◌, ◌==◌, All, ◌∙◌,
}

unfoldable pub join : List String → String
join [] = ""
join (s ∷ rest) = let tail = join rest in elim rest [ [] ↦ s | r ∷ rs ↦ s <> "," <> tail ]

abbrev is_comma : Char → Bool
is_comma c = code c == 0x2C

abbrev onto_first : Char → List String → List String
onto_first c [] = String.◌∷◌ c String.[] ∷ []
onto_first c (s ∷ rest) = String.◌∷◌ c s ∷ rest

unfoldable pub split : String → List String
split String.[] = "" ∷ []
split (String.◌∷◌ c s) = let rest = split s in if is_comma c then "" ∷ rest else onto_first c rest

unfoldable pub has_comma : String → Bool
has_comma String.[] = false
has_comma (String.◌∷◌ c s) = is_comma c || has_comma s

abbrev pub NoCommas : List String → Type 0
NoCommas l = All (λ s. has_comma s ≡ false) l

split-one : (s : String) → has_comma s ≡ false → split s ≡ s ∷ []
unfolding split has_comma
split-one String.[] h = refl
split-one (String.◌∷◌ c s) h = ground (arith, split-one s)

after_one : (c : Char) (t : String) → String.◌∷◌ c String.[] <> t ≡ String.◌∷◌ c t
after_one c t = cons-append c String.[] t ∙ ap (λ z. String.◌∷◌ c z) (nil-append t)

split-first : (s t : String) → has_comma s ≡ false → split (s <> "," <> t) ≡ s ∷ split t
unfolding split has_comma
split-first String.[] t h = ap split (nil-append ("," <> t) ∙ after_one _ t)
split-first (String.◌∷◌ c s) t h = ground (arith, split-first s t, cons-append c s ("," <> t))

-- What is joined is split again, unless it is no text, or one alone that is empty.
pub split-join :
    (s : String) (rest : List String) → NoCommas (s ∷ rest) → split (join (s ∷ rest)) ≡ s ∷ rest
unfolding join
split-join s [] (h, k) = split-one s h
split-join s (r ∷ rest) (h, k) =
    split-first s (join (r ∷ rest)) h ∙ ap (λ l. s ∷ l) (split-join r rest k)
