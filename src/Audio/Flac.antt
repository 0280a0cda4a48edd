-- ===== src/Audio/Flac.antt =====
-- server/internal/audio/flac.go: decoded samples cut into blocks and handed to a FLAC encoder.
--
-- The encoder of the flac package is the state `E` with the operation `write_frame`, which says
-- whether a frame was written. Block size and channels are not negative; the byte count does not
-- reach 2^63. The lock of each method is held throughout it.
pub mod Blocks
use espmic.Common.{
  ℕ, zero, suc, ◌+◌, ◌*◌, ◌%◌, ◌^◌, Bool, true, false, ◌||◌, Option, none, some, List, [], ◌∷◌,
  ◌++◌, leb, if◌then◌else◌, length, take, drop,
}
use espmic.Common.Int.{ℤ}

pub record Frame : Type 0 where
  pub block_size : ℕ
  pub sample_rate : ℕ
  pub channels : ℕ
  pub num : ℕ
  pub subframes : List (List ℤ)

pub record FlacRecorder (E : Type 0) : Type 0 where
  pub channels : ℕ
  pub rate : ℕ
  pub block_size : ℕ
  pub buf : List ℤ
  pub enc : E
  pub start_time : ℕ
  pub bytes : ℕ
  pub closed : Bool
  pub n_block : ℕ

unfoldable pub new : {E : Type 0} → E → ℕ → ℕ → ℕ → FlacRecorder E
new enc rate channels block_size = record {
  channels = channels;
  rate = rate;
  block_size = block_size;
  buf = [];
  enc = enc;
  start_time = 0;
  bytes = 0;
  closed = false;
  n_block = 0;
}

unfoldable pub begin : {E : Type 0} → FlacRecorder E → ℕ → FlacRecorder E
begin r start = record r { start_time = start }

-- `Bytes`.
unfoldable pub encoded_bytes : {E : Type 0} → FlacRecorder E → ℕ
encoded_bytes r = r.bytes

-- `pcm[k]`; none is the panic of an index out of range.
unfoldable pub sample : List ℤ → ℕ → Option ℤ
sample [] k = none
sample (x ∷ xs) zero = some x
sample (x ∷ xs) (suc k) = sample xs k

abbrev prepend : {A : Type 0} → A → Option (List A) → Option (List A)
prepend x none = none
prepend x (some xs) = some (x ∷ xs)

-- The samples of one channel: `pcm[at]`, `pcm[at+channels]` and so on, `n` of them.
unfoldable pub channel_data : List ℤ → ℕ → ℕ → ℕ → Option (List ℤ)
unfolding sample
channel_data pcm channels at zero = some []
channel_data pcm channels at (suc n) = elim (sample pcm at) [
  | none ↦ none
  | some x ↦ prepend x (channel_data pcm channels (at + channels) n)
]

-- The channels from `at` on, `n` of them.
unfoldable pub deinterleave : List ℤ → ℕ → ℕ → ℕ → ℕ → Option (List (List ℤ))
unfolding channel_data
deinterleave pcm block_size channels at zero = some []
deinterleave pcm block_size channels at (suc n) = elim (channel_data pcm channels at block_size) [
  | none ↦ none
  | some xs ↦ prepend xs (deinterleave pcm block_size channels (suc at) n)
]

-- What a call does: it returns, it panics, or its loop does not end.
pub data Outcome (E : Type 0) : Type 0 where
  done : FlacRecorder E → Outcome E
  panics diverges : Outcome E

module _ {E : Type 0} (write_frame : E → Frame → E × Bool) where
  -- The frame is built and given to the encoder.
  unfoldable pub encode : FlacRecorder E → List (List ℤ) → FlacRecorder E
  encode r ch_data =
      let n = (r.n_block + 1) % 2 ^ 64 in
      let (enc, written) = write_frame r.enc (record {
        block_size = r.block_size % 2 ^ 16;
        sample_rate = r.rate % 2 ^ 32;
        channels = (r.channels + 255) % 256;
        num = n;
        subframes = ch_data;
      }) in
      record r {
        enc = enc;
        n_block = n;
        bytes = if written then r.bytes + r.block_size * r.channels * 2 else r.bytes;
      }

  unfoldable pub write_block : FlacRecorder E → List ℤ → Option (FlacRecorder E)
  write_block r pcm = elim (deinterleave pcm r.block_size r.channels 0 r.channels) [
    | none ↦ none
    | some ch_data ↦ some (encode r ch_data)
  ]

  unfoldable pub encode_blocks : ℕ → FlacRecorder E → Outcome E
  encode_blocks zero r = diverges
  encode_blocks (suc n) r = elim (leb (r.block_size * r.channels) (length r.buf)) [
    | false ↦ done r
    | true ↦ elim (write_block r (take (r.block_size * r.channels) r.buf)) [
      | none ↦ panics
      | some r' ↦ encode_blocks n (record r' { buf = drop (r.block_size * r.channels) r.buf })
    ]
  ]

  -- `OnPCM`; none is the nil frame.
  unfoldable pub on_pcm : FlacRecorder E → Option (List ℤ) → Outcome E
  on_pcm r none = done r
  on_pcm r (some pcm) =
      if r.closed
      then done r
      else encode_blocks (suc (length (r.buf ++ pcm))) (record r { buf = r.buf ++ pcm })

  pub data Finalized : Type 0 where
    already_finalized finalize_panics : Finalized
    finalized : FlacRecorder E → Finalized

  -- `Finalize` up to the encoder's own Close.
  unfoldable pub finalize : FlacRecorder E → Finalized
  finalize r = if r.closed then already_finalized else elim r.buf [
    | [] ↦ finalized (record r { closed = true })
    | x ∷ xs ↦ elim (write_block (record r { closed = true }) (x ∷ xs)) [
      | none ↦ finalize_panics
      | some r' ↦ finalized (record r' { buf = [] })
    ]
  ]
