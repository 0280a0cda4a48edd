-- ===== src/Control/Messages/Validation.antt =====
-- What a set_config command that passes validation looks like.
use espmic.Common.{
  ℕ, ◌≤◌, ◌≡◌, ◌≢◌, ◌⊎◌, inl, inr, ◌↔◌, Bool, true, false, ◌||◌, Option, none, some, String, arith,
  refl, same, if◌then◌else◌, Bool-cases, some_inj, ap,
}
use espmic.Common.Int.{ℤ, pos, negsuc}
use espmic.Control.Messages.{
  SetConfig, new_set_config, validate, is_negative, is_outside, is_empty, is_bad_frame,
  has_no_field, bad_pin,
}

-- An option that is empty or in the range.
abbrev pub Within : ℕ → Option ℤ → Type 0
Within hi v = (v ≡ none) ⊎ ((n : ℕ) × (v ≡ some (pos n)) × (n ≤ hi))

abbrev pub NonNegative : Option ℤ → Type 0
NonNegative v = (v ≡ none) ⊎ ((n : ℕ) × (v ≡ some (pos n)))

abbrev pub FrameMs : Option ℤ → Type 0
FrameMs v =
    (v ≡ none)
    ⊎ ((v ≡ some (pos 10)) ⊎ ((v ≡ some (pos 20)) ⊎ ((v ≡ some (pos 40)) ⊎ (v ≡ some (pos 60)))))

pub record IsValid (s : SetConfig) : Type 0 where
  pub some_field : s ≢ new_set_config s.request_id
  pub default_rate : NonNegative s.default_bitrate
  pub host : s.server_host ≢ some ""
  pub bclk : Within 47 s.i2s_bclk
  pub ws : Within 47 s.i2s_ws
  pub din : Within 47 s.i2s_din
  pub complexity_ok : Within 10 s.complexity
  pub rate : NonNegative s.bitrate
  pub frame : FrameMs s.frame_ms

Within-of : (hi : ℕ) (v : Option ℤ) → is_outside hi v ≡ false → Within hi v
Within-of hi none h = inl refl
Within-of hi (some (pos n)) h = inr (n, refl, ground arith)
Within-of hi (some (negsuc n)) h = ground arith

NonNegative-of : (v : Option ℤ) → is_negative v ≡ false → NonNegative v
NonNegative-of none h = inl refl
NonNegative-of (some (pos n)) h = inr (n, refl)
NonNegative-of (some (negsuc n)) h = ground arith

FrameMs-of : (v : Option ℤ) → is_bad_frame v ≡ false → FrameMs v
FrameMs-of v h = ground arith

host_of : (v : Option String) → is_empty v ≡ false → v ≢ some ""
host_of none h e = cc
host_of (some s) h e = ground (arith, some_inj e)

some_field_of : (s : SetConfig) → has_no_field s ≡ false → s ≢ new_set_config s.request_id
unfolding new_set_config
some_field_of s h e = ground (arith, ap has_no_field e)

no_field_of : (s : SetConfig) → has_no_field s ≡ true → s ≡ new_set_config s.request_id
unfolding new_set_config
no_field_of s h = ground arith

-- The ladder of checks.
passes :
    (a b c d e f g : Bool) {E : Type 0} (x1 x2 x3 x4 x5 x6 x7 : E)
    → (if a
        then some x1
        else if b
        then some x2
        else if c
        then some x3
        else if d
        then some x4
        else if e
        then some x5
        else if f
        then some x6
        else if g
        then some x7
        else none)
      ≡ none
    → (a ≡ false)
      × (b ≡ false)
      × (c ≡ false)
      × (d ≡ false)
      × (e ≡ false)
      × (f ≡ false)
      × (g ≡ false)
passes a b c d e f g x1 x2 x3 x4 x5 x6 x7 h = ground arith

or_false : (a b c : Bool) → a || b || c ≡ false → (a ≡ false) × (b ≡ false) × (c ≡ false)
or_false a b c h = ground arith

sound : (s : SetConfig) → validate s ≡ none → IsValid s
unfolding validate
sound s h =
    let (a, b, c, d, e, f, g) =
      passes (has_no_field s) (is_negative s.default_bitrate) (is_empty s.server_host) (bad_pin s)
        (is_outside 10 s.complexity) (is_negative s.bitrate) (is_bad_frame s.frame_ms) _ _ _ _ _ _ _
        h in
    let (p, q, r) =
      or_false (is_outside 47 s.i2s_bclk) (is_outside 47 s.i2s_ws) (is_outside 47 s.i2s_din) d in
    record {
      some_field = some_field_of s a;
      default_rate = NonNegative-of s.default_bitrate b;
      host = host_of s.server_host c;
      bclk = Within-of 47 s.i2s_bclk p;
      ws = Within-of 47 s.i2s_ws q;
      din = Within-of 47 s.i2s_din r;
      complexity_ok = Within-of 10 s.complexity e;
      rate = NonNegative-of s.bitrate f;
      frame = FrameMs-of s.frame_ms g;
    }

Within-outside : (hi : ℕ) (v : Option ℤ) → Within hi v → is_outside hi v ≡ false
Within-outside hi v w = ground arith

NonNegative-negative : (v : Option ℤ) → NonNegative v → is_negative v ≡ false
NonNegative-negative v w = ground arith

FrameMs-bad : (v : Option ℤ) → FrameMs v → is_bad_frame v ≡ false
FrameMs-bad v w = ground arith

host-empty : (v : Option String) → v ≢ some "" → is_empty v ≡ false
host-empty none h = refl
host-empty (some s) h = elim (Bool-cases (same s "")) [
  | inl e ↦ absurd (h (ground arith))
  | inr e ↦ e
]

field-present : (s : SetConfig) → s ≢ new_set_config s.request_id → has_no_field s ≡ false
field-present s h = elim (Bool-cases (has_no_field s)) [
  | inl e ↦ absurd (h (no_field_of s e))
  | inr e ↦ e
]

complete : (s : SetConfig) → IsValid s → validate s ≡ none
unfolding validate
complete s v = rw (
  field-present s v.some_field,
  NonNegative-negative s.default_bitrate v.default_rate,
  host-empty s.server_host v.host,
  Within-outside 47 s.i2s_bclk v.bclk,
  Within-outside 47 s.i2s_ws v.ws,
  Within-outside 47 s.i2s_din v.din,
  Within-outside 10 s.complexity v.complexity_ok,
  NonNegative-negative s.bitrate v.rate,
  FrameMs-bad s.frame_ms v.frame,
)

-- Validation accepts exactly the commands that set some field, whose bit rates are not negative,
-- whose host is not the empty text, whose pins lie in 0 to 47, whose complexity lies in 0 to 10,
-- and whose frame length is 10, 20, 40 or 60 ms, each as far as it is set.
pub validate-IsValid : (s : SetConfig) → (validate s ≡ none) ↔ IsValid s
validate-IsValid s = (sound s, complete s)
