-- ===== src/Audio/Decoder.antt =====
-- server/internal/audio/decoder.go: a decoder of Opus packets. A call of Decode
-- leaves the decoder, the buffer it was given, and the samples per channel, none for an error.
pub mod Stub
use espmic.Common.{
  ℕ, suc, ◌+◌, ◌*◌, ◌≡◌, ◌≤◌, Bool, true, false, Option, none, some, List, [], ◌∷◌, ◌++◌, ltb,
  if◌then◌else◌, length, drop, arith, refl, length-append, length-drop, Bool-cases, inl, inr,
}
use espmic.Common.Int.{ℤ, pos}
use espmic.Audio.Frame.{stereo}

pub record Decoded (D : Type 0) : Type 0 where
  pub decoder : D
  pub out : List ℤ
  pub samples : Option ℕ

pub record Decoder (D : Type 0) : Type 0 where
  pub decode : D → List ℕ → List ℤ → Decoded D
  pub reset : D → D

-- What Decode promises of stereo sound: the buffer keeps its length, and the samples are in it.
pub record IsStereo {D : Type 0} (dec : Decoder D) : Type 0 where
  pub keeps_length :
      (d : D) (opus : List ℕ) (out : List ℤ) → length (dec.decode d opus out).out ≡ length out
  pub fits :
      (d : D) (opus : List ℕ) (out : List ℤ) (n : ℕ)
      → (dec.decode d opus out).samples ≡ some n
      → n * stereo ≤ length out

abbrev pub max_frame_samples : ℕ
max_frame_samples = 5760
