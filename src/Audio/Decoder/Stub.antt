-- ===== src/Audio/Decoder/Stub.antt =====
-- StubDecoder of server/internal/audio/decoder.go.
use espmic.Common.{
  ℕ, zero, suc, ◌+◌, ◌*◌, ◌≡◌, ◌≤◌, none, some, List, [], ◌∷◌, ◌++◌, ltb, if◌then◌else◌, length,
  drop, arith, refl, length-append, length-drop, ap,
}
use espmic.Common.Int.{ℤ, pos}
use espmic.Audio.Frame.{stereo}
use espmic.Audio.Decoder.{Decoder, Decoded, IsStereo}

pub record StubDecoder : Type 0 where
  pub samples : ℕ
  pub channels : ℕ
  pub calls : ℕ

unfoldable pub new_stub_decoder : ℕ → ℕ → StubDecoder
new_stub_decoder samples channels = record { samples = samples; channels = channels; calls = 0 }

unfoldable pub silence : ℕ → List ℤ
silence zero = []
silence (suc n) = pos 0 ∷ silence n

unfoldable pub decode : StubDecoder → List ℕ → List ℤ → Decoded StubDecoder
unfolding silence
decode d opus out =
    let want = d.samples * d.channels in
    let d' = record d { calls = d.calls + 1 } in
    if ltb (length out) want
    then record { decoder = d'; out = out; samples = none }
    else record { decoder = d'; out = silence want ++ drop want out; samples = some d.samples }

unfoldable pub reset : StubDecoder → StubDecoder
reset d = record d { calls = 0 }

unfoldable pub calls_made : StubDecoder → ℕ
calls_made d = d.calls

-- Stubs for stereo sound differ in their calls.
module _ (samples : ℕ) where
  abbrev with_calls : ℕ → StubDecoder
  with_calls n = record (new_stub_decoder samples stereo) { calls = n }

  abbrev calls_only : Decoded StubDecoder → Decoded ℕ
  calls_only r = record { decoder = calls_made r.decoder; out = r.out; samples = r.samples }

  unfoldable pub stereo_stub : Decoder ℕ
  unfolding decode reset calls_made new_stub_decoder
  stereo_stub = record {
    decode = λ n opus out. calls_only (decode (with_calls n) opus out);
    reset = λ n. calls_made (reset (with_calls n));
  }

length-silence : (n : ℕ) → length (silence n) ≡ n
unfolding silence
length-silence zero = refl
length-silence (suc n) = ap suc (length-silence n)

length-filled :
    (n : ℕ) (out : List ℤ) → n ≤ length out → length (silence n ++ drop n out) ≡ length out
length-filled n out h =
    omega (arith, length-append (silence n) (drop n out), length-silence n, length-drop n out)

-- The stub promises what the worker relies on.
pub stereo_stub-IsStereo : (samples : ℕ) → IsStereo (stereo_stub samples)
unfolding stereo_stub decode new_stub_decoder
stereo_stub-IsStereo samples = record {
  keeps_length = λ d opus out. ground (arith, length-filled (samples * stereo) out);
  fits = λ d opus out n h. ground arith;
}
