-- ===== src/Audio/Frame.antt =====
-- server/internal/audio/frame.go and audio.go: one decoded frame, whose samples are interleaved.
use espmic.Common.{
  ℕ, ◌*◌, Bool, false, ◌||◌, not, String, List, [], ◌==◌, if◌then◌else◌, length, same,
}
use espmic.Common.Int.{ℤ}

abbrev pub sample_rate_48k : ℕ
sample_rate_48k = 48000

abbrev pub stereo : ℕ
stereo = 2

pub record DecodedAudioFrame : Type 0 where
  pub stream_id : String
  pub timestamp_48k : ℕ
  pub sample_count_per_channel : ℕ
  pub sample_rate : ℕ
  pub channels : ℕ
  pub pcm : List ℤ
  pub discontinuity : Bool
  pub source_rtp_sequence_start : ℕ
  pub source_rtp_sequence_end : ℕ

unfoldable pub new_frame : String → ℕ → DecodedAudioFrame
new_frame stream timestamp = record {
  stream_id = stream;
  timestamp_48k = timestamp;
  sample_count_per_channel = 0;
  sample_rate = sample_rate_48k;
  channels = stereo;
  pcm = [];
  discontinuity = false;
  source_rtp_sequence_start = 0;
  source_rtp_sequence_end = 0;
}

unfoldable pub valid : DecodedAudioFrame → Bool
valid f =
    if same f.stream_id "" || not (f.sample_rate == sample_rate_48k) || not (f.channels == stereo)
    then false
    else length f.pcm == f.sample_count_per_channel * f.channels
