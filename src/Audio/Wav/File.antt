-- ===== src/Audio/Wav/File.antt =====
-- The file that a WAV recording ends up as.
use espmic.Common.{
  ℕ, ◌+◌, ◌≡◌, ◌∙◌, true, false, Option, none, some, List, [], ◌∷◌, ◌++◌, length, length-append,
  arith, refl, ap, sym, append_assoc, append-nil,
}
use espmic.Common.Int.{ℤ}
use espmic.Audio.Ogg.{put_uint16, put_uint32}
use espmic.Audio.Wav.{
  Recorder, pcm_bytes, wav_header, append, patch_wav_sizes, on_pcm, begin, write_wav_header,
  finalize, made, new_recorder, already_finalized,
}

-- The patches fill in the sizes that the header left at 0, and nothing else.
patch-header :
    (channels rate bytes : ℕ) (rest : List ℕ)
    → patch_wav_sizes bytes (wav_header channels rate 0 0 ++ rest)
      ≡ wav_header channels rate (bytes + 36) bytes ++ rest
unfolding patch_wav_sizes wav_header put_uint16 put_uint32
patch-header channels rate bytes rest = refl

module _ (update : ℕ → List ℕ → ℕ) where
  abbrev pub on_all : Recorder → List (Option (List ℤ)) → Recorder
  on_all r [] = r
  on_all r (frame ∷ frames) = on_all (on_pcm update r frame) frames

  -- The samples of the frames, in order.
  abbrev pub samples : List (Option (List ℤ)) → List ℕ
  samples [] = []
  samples (none ∷ frames) = samples frames
  samples (some pcm ∷ frames) = pcm_bytes pcm ++ samples frames

  on_pcm-open :
      (r : Recorder) (f : List ℕ) (pcm : List ℤ)
      → r.closed ≡ false
      → r.wav_file ≡ some f
      → let t = on_pcm update r (some pcm) in
        (t.wav_file ≡ some (f ++ pcm_bytes pcm))
        × (t.bytes ≡ r.bytes + length (pcm_bytes pcm))
        × (t.closed ≡ false)
  unfolding on_pcm append
  on_pcm-open r f pcm h k = ground arith

  on_all-open :
      (r : Recorder) (f : List ℕ) (frames : List (Option (List ℤ)))
      → r.closed ≡ false
      → r.wav_file ≡ some f
      → let t = on_all r frames in
        (t.wav_file ≡ some (f ++ samples frames))
        × (t.bytes ≡ r.bytes + length (samples frames))
        × (t.closed ≡ false)
  unfolding on_pcm
  on_all-open r f [] h k = (k ∙ ap some (sym (append-nil f)), omega arith, h)
  on_all-open r f (none ∷ frames) h k = on_all-open r f frames h k
  on_all-open r f (some pcm ∷ frames) h k =
      let (a, b, c) = on_pcm-open r f pcm h k in
      let (x, y, z) = on_all-open (on_pcm update r (some pcm)) (f ++ pcm_bytes pcm) frames c a in
      (
        x ∙ ap some (append_assoc f (pcm_bytes pcm) (samples frames)),
        omega (arith, y, b, length-append (pcm_bytes pcm) (samples frames)),
        z,
      )

  finalize-open :
      (r : Recorder) (f : List ℕ)
      → r.closed ≡ false
      → r.wav_file ≡ some f
      → finalize r ≡ (record r { closed = true; wav_file = some (patch_wav_sizes r.bytes f) }, none)
  unfolding finalize
  finalize-open r f h k = ground arith

  opened :
      (r : Recorder) (rate channels : ℕ)
      → new_recorder true "wav" rate channels ≡ made r
      → let b = (begin r true).0 in
        (b.wav_file ≡ some (wav_header channels rate 0 0)) × (b.bytes ≡ 0) × (b.closed ≡ false)
  unfolding new_recorder begin write_wav_header
  opened r rate channels h = (ground (arith, h), ground (arith, h), ground (arith, h))

  finalized :
      (r : Recorder) (channels rate : ℕ) (body : List ℕ)
      → r.closed ≡ false
      → r.wav_file ≡ some (wav_header channels rate 0 0 ++ body)
      → r.bytes ≡ length body
      → let t = finalize r in
        (t.1 ≡ none)
        × (t.0.wav_file ≡ some (wav_header channels rate (length body + 36) (length body) ++ body))
        × (t.0.bytes ≡ length body)
        × (finalize t.0 ≡ (t.0, some already_finalized))
  unfolding finalize
  finalized r channels rate body h k e =
      let f = wav_header channels rate 0 0 ++ body in
      let q = finalize-open r f h k in
      (
        ap (λ z. z.1) q,
        ap (λ z. z.0.wav_file) q
            ∙ ap (λ n. some (patch_wav_sizes n f)) e
            ∙ ap some (patch-header channels rate (length body) body),
        ap (λ z. z.0.bytes) q ∙ e,
        ground arith,
      )

  -- A recorder that NewRecorder makes and that Begin opens is finalized, whatever frames come in
  -- between: the file is then the header with the length of the data and the samples of all frames
  -- in order, two bytes each, and the byte count is that length. A second Finalize is an error and
  -- changes nothing.
  pub finalize-on_all :
      (r : Recorder) (rate channels : ℕ) (frames : List (Option (List ℤ)))
      → new_recorder true "wav" rate channels ≡ made r
      → let t = finalize (on_all (begin r true).0 frames) in
        let n = length (samples frames) in
        (t.1 ≡ none)
        × (t.0.wav_file ≡ some (wav_header channels rate (n + 36) n ++ samples frames))
        × (t.0.bytes ≡ n)
        × (finalize t.0 ≡ (t.0, some already_finalized))
  finalize-on_all r rate channels frames h =
      let b = (begin r true).0 in
      let (k, e, c) = opened r rate channels h in
      let (x, y, z) = on_all-open b (wav_header channels rate 0 0) frames c k in
      finalized (on_all b frames) channels rate (samples frames) z x (omega (arith, y, e))
