-- ===== src/Audio/Tests.antt =====
-- The recorder theorems at a concrete recorder, and the bus.
mod Sound
use espmic.Common.{
  Option, none, String_discrete, ◌+◌, ℕ, suc, List, ◌++◌, ◌%◌, ◌/◌, length, drop, if◌then◌else◌,
  false, ◌≡◌, ◌≢◌, ◌↔◌, Bool, true, some, [], ◌∷◌, arith, refl,
}
use espmic.Common.Int.{ℤ, pos, negsuc}
use espmic.Audio.Flac.{Frame, FlacRecorder, new, on_pcm, finalize, finalize_panics}
use espmic.Audio.Bus.{new_bus}
use espmic.Audio.Bus.Listeners.{joins, run, copies, is_joined, copies-run}
use espmic.Audio.Ogg.{page, eos_page, header, segments, segment_count, ogg_crc}
use espmic.Audio.Ogg.Reader.{read_page, read_page-page}
use espmic.Audio.OpusRecorder.{OpusRecorder, new_opus_recorder, warmup_skip}
use espmic.Audio.OpusRecorder as Opus
use espmic.Audio.OpusRecorder.Pages.{data_pages, number_after, end_granule}
use espmic.Audio.OpusRecorder.Recording as Recording
use espmic.Audio.Wav.{new_recorder, made, wav_header, already_finalized}
use espmic.Audio.Wav.{Recorder as WavRecorder}
use espmic.Audio.Wav as Wav
use espmic.Audio.Wav.File.{on_all, samples, finalize-on_all}
use espmic.Audio.Flac.Blocks.{Drained, on_pcm-Drained, finalize-panics}

-- An encoder that counts its frames.
abbrev counting : ℕ → Frame → ℕ × Bool
counting n f = (suc n, true)

abbrev stereo : FlacRecorder ℕ
unfolding new
stereo = new 0 48000 2 1

abbrev one_left : FlacRecorder ℕ
unfolding stereo
one_left = record (stereo) { buf = pos 3 ∷ [] }

finalize-panics_example : (finalize counting one_left ≡ finalize_panics) ↔ (one_left.buf ≢ [])
unfolding one_left
finalize-panics_example = finalize-panics counting one_left (omega arith) refl

abbrev two_bytes : List ℕ
two_bytes = 7 ∷ 8 ∷ []

read_page-page_example :
    read_page (page 0 960 1 2 two_bytes ++ [])
    ≡ some (
      record {
        flag = 0;
        granulepos = 960 % 18446744073709551616;
        serial = 1 % 4294967296;
        seq = 2 % 4294967296;
        crc =
            ogg_crc (
              header 0 960 1 2 0 (segment_count two_bytes)
              ++ (segments (segment_count two_bytes) (length two_bytes) ++ two_bytes))
            % 4294967296;
        payload = two_bytes;
      },
      [],
    )
read_page-page_example = read_page-page 0 960 1 2 two_bytes [] (omega arith)

-- Three packets, of which the writer takes one before the end.
abbrev three : List Recording.Event
three =
    Recording.gives (1 ∷ [])
    ∷ Recording.gives (2 ∷ [])
    ∷ Recording.writes
    ∷ Recording.gives (3 ∷ [])
    ∷ []

finalize-run_example :
    let r = new_opus_recorder 5 48000 2 312 in
    let kept = drop warmup_skip (Recording.taken_packets r three) in
    (t : OpusRecorder) × (Opus.finalize (Recording.run r three) ≡ some t)
    × (t.file
        ≡ (r.file ++ data_pages 5 (48000 / 50) 312 r.seq kept)
          ++ (eos_page (end_granule 0 312 (48000 / 50) kept) 5 (number_after r.seq kept) ∷ []))
finalize-run_example = Recording.finalize-run 5 48000 2 312 three

abbrev wav_recorder : WavRecorder
wav_recorder = record {
  format = "wav";
  channels = 2;
  rate = 48000;
  bytes = 0;
  closed = false;
  wav_file = none;
  checksum = 0;
}

-- In place of a CRC, the sum of the bytes.
abbrev add_bytes : ℕ → List ℕ → ℕ
add_bytes c [] = c
add_bytes c (b ∷ bs) = add_bytes (c + b) bs

abbrev two_frames : List (Option (List ℤ))
two_frames = some (pos 1 ∷ negsuc 0 ∷ []) ∷ none ∷ some (pos 300 ∷ pos 2 ∷ []) ∷ []

made_wav : new_recorder true "wav" 48000 2 ≡ made wav_recorder
unfolding new_recorder String_discrete
made_wav = refl

finalize-on_all_example :
    let t = Wav.finalize (on_all add_bytes (Wav.begin wav_recorder true).0 two_frames) in
    let n = length (samples add_bytes two_frames) in
    (t.1 ≡ none)
    × (t.0.wav_file ≡ some (wav_header 2 48000 (n + 36) n ++ samples add_bytes two_frames))
    × (t.0.bytes ≡ n)
    × (Wav.finalize t.0 ≡ (t.0, some already_finalized))
finalize-on_all_example = finalize-on_all add_bytes wav_recorder 48000 2 two_frames made_wav
