-- ===== src/Audio/Tests/Sound.antt =====
-- The worker and the live client at concrete packets and frames.
use espmic.Common.{ℕ, ◌≡◌, ◌/◌, true, false, some, List, [], ◌∷◌, arith, refl}
use espmic.Common.Int.{ℤ, pos, negsuc, ◌+ℤ◌, ◌-ℤ◌, ◌*ℤ◌, pos_part}
use espmic.Audio.Bus.{PcmBus}
use espmic.Audio.Decoder.Stub.{stereo_stub, stereo_stub-IsStereo}
use espmic.Audio.Frame.{DecodedAudioFrame}
use espmic.Audio.Live.{new_live_output}
use espmic.Audio.Live.Queue.{Event, heard, writes, Client, run, InTurn, run-InTurn}
use espmic.Audio.Worker.{Effect, Worker, tick}
use espmic.Audio.Worker.Frames.{Account, tick-Account}
use espmic.Rtp.Jitter.{Float64, JitterBuffer, new, push, emit}
use espmic.Rtp.Jitter.Invariant.{Inv, new-Inv, push-Inv}
use espmic.Rtp.Packet.{Packet}

-- Whole numbers in place of floats.
abbrev whole : Float64 ℤ
whole = record {
  of_int = λ n. n;
  to_int64 = λ n. n;
  add = ◌+ℤ◌;
  sub = ◌-ℤ◌;
  mul = ◌*ℤ◌;
  div = λ a b. pos (pos_part a / pos_part b);
}

abbrev packet : Packet
packet = record {
  version = 2;
  payload_type = 111;
  sequence_number = 7;
  timestamp = 960;
  ssrc = 5;
  payload = 1 ∷ 2 ∷ [];
}

abbrev one_packet : JitterBuffer ℤ
one_packet = push whole (new whole 60 false) packet 0

one_packet-Inv : Inv one_packet
one_packet-Inv = push-Inv whole (new whole 60 false) packet 0 (omega arith) (new-Inv whole 60 false)

abbrev bus : PcmBus
bus = record { listeners = "s1" ∷ [] }

abbrev worker : Worker ℕ
worker = record {
  stream_id = "s1";
  decoder = 0;
  watched = true;
  measured = true;
  first_packet_sent = false;
  out_buf = pos 3 ∷ pos 3 ∷ pos 3 ∷ pos 3 ∷ [];
}

tick-Account_example :
    (ps : List Packet) × (calls : List ℕ) × (jb' : JitterBuffer ℤ) × (w' : Worker ℕ) × (es : List
      Effect)
    × (emit one_packet 100 ≡ some (ps, calls, jb'))
    × (tick (stereo_stub 2) bus worker one_packet 100 ≡ some (w', jb', es))
    × Account (stereo_stub 2) bus worker ps es
tick-Account_example =
    tick-Account (stereo_stub 2) bus (stereo_stub-IsStereo 2) worker one_packet 100 one_packet-Inv
      (λ p. absurd (cc)) (omega arith)

abbrev frame : DecodedAudioFrame
frame = record {
  stream_id = "s1";
  timestamp_48k = 960;
  sample_count_per_channel = 1;
  sample_rate = 48000;
  channels = 2;
  pcm = pos 1 ∷ negsuc 0 ∷ [];
  discontinuity = false;
  source_rtp_sequence_start = 7;
  source_rtp_sequence_end = 7;
}

abbrev fresh : Client
fresh = record { output = new_live_output; bus = bus; queued = []; messages = [] }

abbrev events : List Event
events = heard frame ∷ writes true ∷ heard frame ∷ writes false ∷ []

run-InTurn_example : InTurn "live" (run "live" fresh events)
run-InTurn_example = run-InTurn "live" fresh events (refl, omega arith)
