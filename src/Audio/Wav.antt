-- ===== src/Audio/Wav.antt =====
-- server/internal/audio/recorder.go: the recorder of decoded sound as a WAV file.
--
-- The file is its bytes. Whether the directory and the file can be made are arguments; a write to
-- the open file, a patch of it and its closing succeed. `update` is Update of hash/crc32 with the
-- IEEE table. The rate and the channels are not negative, and the byte count stays below 2^63. The
-- lock of each method is held throughout it.
pub mod File
use espmic.Common.{
  ℕ, ◌+◌, ◌*◌, ◌-◌, ◌%◌, ◌≡◌, Bool, true, false, not, Option, none, some, String, List, [], ◌∷◌,
  ◌++◌, if◌then◌else◌, same, length, take, drop,
}
use espmic.Common.Int.{ℤ, pos, negsuc}
use espmic.Audio.Ogg.{put_uint16, put_uint32}

pub record Recorder : Type 0 where
  pub format : String
  pub channels : ℕ
  pub rate : ℕ
  pub bytes : ℕ
  pub closed : Bool
  pub wav_file : Option (List ℕ)
  pub checksum : ℕ

pub data RecorderError : Type 0 where
  unsupported_format no_directory already_begun not_created already_finalized never_begun :
      RecorderError

pub data NewResult : Type 0 where
  made : Recorder → NewResult
  refused : RecorderError → NewResult

unfoldable pub new_recorder : Bool → String → ℕ → ℕ → NewResult
new_recorder dir_made format rate channels =
    if not (same format "wav")
    then refused unsupported_format
    else if not dir_made
    then refused no_directory
    else made (record {
      format = format;
      channels = channels;
      rate = rate;
      bytes = 0;
      closed = false;
      wav_file = none;
      checksum = 0;
    })

-- `uint16(s)` in little-endian order, for each sample.
abbrev pub uint16_of : ℤ → ℕ
uint16_of (pos n) = n % 65536
uint16_of (negsuc n) = 65535 - n % 65536

unfoldable pub pcm_bytes : List ℤ → List ℕ
unfolding put_uint16
pcm_bytes [] = []
pcm_bytes (s ∷ pcm) = put_uint16 (uint16_of s) ++ pcm_bytes pcm

-- "RIFF", a length, "WAVE", "fmt " with its 16 bytes, "data" and a length.
unfoldable pub wav_header : ℕ → ℕ → ℕ → ℕ → List ℕ
unfolding put_uint16 put_uint32
wav_header channels rate riff_size data_size =
    (82 ∷ 73 ∷ 70 ∷ 70 ∷ [])
    ++ (put_uint32 riff_size
        ++ ((87 ∷ 65 ∷ 86 ∷ 69 ∷ 102 ∷ 109 ∷ 116 ∷ 32 ∷ [])
            ++ (put_uint32 16
                ++ (put_uint16 1
                    ++ (put_uint16 channels
                        ++ (put_uint32 rate
                            ++ (put_uint32 (rate * channels * 2)
                                ++ (put_uint16 (channels * 2)
                                    ++ (put_uint16 16
                                        ++ ((100 ∷ 97 ∷ 116 ∷ 97 ∷ [])
                                            ++ put_uint32 data_size))))))))))

unfoldable pub write_wav_header : Recorder → List ℕ
unfolding wav_header
write_wav_header r = wav_header r.channels r.rate 0 0

unfoldable pub begin : Recorder → Bool → Recorder × Option RecorderError
unfolding write_wav_header
begin r created = elim r.wav_file [
  | some f ↦ (r, some already_begun)
  | none ↦
      if not created
      then (r, some not_created)
      else (record r { wav_file = some (write_wav_header r) }, none)
]

-- At the end of the file.
unfoldable pub append : Recorder → List ℕ → List ℤ → Recorder
unfolding pcm_bytes
append r f pcm = record r {
  wav_file = some (f ++ pcm_bytes pcm);
  bytes = r.bytes + length (pcm_bytes pcm);
}

-- `f.WriteAt`.
abbrev pub write_at : ℕ → List ℕ → List ℕ → List ℕ
write_at at bs f = take at f ++ (bs ++ drop (at + length bs) f)

unfoldable pub patch_wav_sizes : ℕ → List ℕ → List ℕ
unfolding put_uint32
patch_wav_sizes bytes f = write_at 40 (put_uint32 bytes) (write_at 4 (put_uint32 (bytes + 36)) f)

unfoldable pub finalize : Recorder → Recorder × Option RecorderError
unfolding patch_wav_sizes
finalize r = if r.closed then (r, some already_finalized) else elim r.wav_file [
  | none ↦ (record r { closed = true }, some never_begun)
  | some f ↦ (record r { closed = true; wav_file = some (patch_wav_sizes r.bytes f) }, none)
]

module _ (update : ℕ → List ℕ → ℕ) where
  unfoldable pub crc32_update : ℕ → List ℤ → ℕ
  unfolding pcm_bytes
  crc32_update crc pcm = update crc (pcm_bytes pcm)

  -- None is the nil frame.
  unfoldable pub on_pcm : Recorder → Option (List ℤ) → Recorder
  unfolding append crc32_update
  on_pcm r none = r
  on_pcm r (some pcm) = if r.closed then r else elim r.wav_file [
    | none ↦ r
    | some f ↦ record (append r f pcm) { checksum = crc32_update r.checksum pcm }
  ]
