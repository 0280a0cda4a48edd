-- ===== src/Rtp/Tests.antt =====
-- Runs of the RTP modules at concrete inputs, and their theorems at such inputs.
use espmic.Rtp.Seq.{seq_next}
use espmic.Common.{
  ℕ, ◌+◌, ◌≡◌, List, [], ◌∷◌, Option, none, some, true, arith, refl, ℕ_discrete, ◌/◌, map,
}
use espmic.Common.GoMap
use espmic.Common.Int.{ℤ, pos, ◌+ℤ◌, ◌-ℤ◌, ◌*ℤ◌, pos_part}
use espmic.Rtp.Seq.{seq_before, seq_distance, seq_next}
use espmic.Rtp.Packet.{Packet}
use espmic.Rtp.Jitter.{
  Buffered, JitterBuffer, Float64, Stats, new, push, emit, find, u64, len, statistics, played,
  skipped, emit_round, skip, update_jitter, store, count_received, count_reordered, start_at,
}
use espmic.Rtp.Jitter.Invariant.{Inv}
use espmic.Rtp.Jitter.Account.{Reach, start, pushes, Reach-balance, Reach-emit, Answers}
use espmic.Rtp.Jitter.Nearest.{Ahead, Timely-of_All_due}
use espmic.Rtp.Jitter.Order.{Ascends}
use espmic.Rtp.Jitter.Playout.{emit-Ascends, skip-overtakes}

-- Whole numbers in place of floats.
abbrev whole : Float64 ℤ
whole = record {
  of_int = λ n. n;
  to_int64 = λ n. n;
  add = ◌+ℤ◌;
  sub = ◌-ℤ◌;
  mul = ◌*ℤ◌;
  div = λ a b. pos (pos_part a / pos_part b);
}

abbrev packet : ℕ → Packet
packet n = record {
  version = 2;
  payload_type = 111;
  sequence_number = n;
  timestamp = 0;
  ssrc = 7;
  payload = n ∷ [];
}

abbrev numbers : List Packet → List ℕ
numbers = map (λ p. p.sequence_number)

-- 65535, 0 and 2 arrive in time, 1 after 2.
abbrev first_two : JitterBuffer ℤ
first_two = push whole (push whole (new whole 60 true) (packet 65535) 0) (packet 0) 20

abbrev crossing : JitterBuffer ℤ
crossing = push whole (push whole first_two (packet 2) 40) (packet 1) 50

Reach-crossing : Reach whole 60 true [] crossing
Reach-crossing = pushes (packet 1) 50 (omega arith) (
    pushes (packet 2) 40 (omega arith)
      (pushes (packet 0) 20 (omega arith) (pushes (packet 65535) 0 (omega arith) start)))

seqs_of : Option (List Packet × List ℕ × JitterBuffer ℤ) → List ℕ
seqs_of none = []
seqs_of (some (ps, cs, jb)) = numbers ps

-- Everything that a run of the buffer calls.
abbrev runs : JitterBuffer ℤ → ℕ → Option (List Packet × List ℕ × JitterBuffer ℤ)
unfolding emit push new update_jitter store ℕ_discrete seq_before seq_distance seq_next GoMap.lookup
    GoMap.insert GoMap.delete count_received count_reordered start_at
runs = emit

crossing_emitted : seqs_of (emit crossing 200) ≡ 65535 ∷ 0 ∷ 1 ∷ 2 ∷ []
unfolding seqs_of runs
crossing_emitted = refl

Reach-emit_example : Answers whole crossing 200
Reach-emit_example = Reach-emit whole 60 true 200 Reach-crossing

Reach-balance_example :
    (statistics crossing).received
    ≡ u64 ((statistics crossing).duplicate + (statistics crossing).late + len crossing + 0)
Reach-balance_example = Reach-balance whole 60 true Reach-crossing

-- 5 is stored later than 6, and 4 is missing.
abbrev held : ℕ → ℕ → ℕ × Buffered
held n due = (n, record { p = packet n; due = due })

abbrev no_stats : Stats ℤ
no_stats = record {
  received = 0;
  lost = 0;
  duplicate = 0;
  reordered = 0;
  late = 0;
  jitter_ms = pos 0;
}

abbrev buffer : List (ℕ × Buffered) → ℕ → JitterBuffer ℤ
buffer m e = record {
  target = 60;
  on_loss = true;
  buf = m;
  expected = e;
  have_seq = true;
  max_seen = 6;
  stats = no_stats;
  prev_transit = pos 0;
  have_prev = true;
  jitter = pos 0;
}

abbrev gap : JitterBuffer ℤ
gap = buffer (held 6 70 ∷ held 5 90 ∷ []) 4

gap-Inv : Inv gap
unfolding GoMap.lookup ℕ_discrete
gap-Inv = record {
  keyed = omega arith;
  unique = (refl, (refl, tt));
  expected_u16 = omega arith;
  max_u16 = omega arith;
  empty_before = λ h. absurd (cc);
}

gap-Ahead : Ahead 4 0 gap.buf
unfolding seq_distance
gap-Ahead = omega arith

emit-Ascends_example :
    Ascends 4 0 (packet 5 ∷ packet 6 ∷ [])
    × (u64 ((played (played (skipped gap (held 5 90).1))).stats.lost + 2)
        ≡ u64 (0 + seq_distance 4 (played (played (skipped gap (held 5 90).1))).expected))
    × Ahead
        (played (played (skipped gap (held 5 90).1))).expected
        0
        (played (played (skipped gap (held 5 90).1))).buf
unfolding runs played skipped
emit-Ascends_example =
    emit-Ascends whole gap (played (played (skipped gap (held 5 90).1))) 100
      (packet 5 ∷ packet 6 ∷ []) (4 ∷ []) gap-Inv gap-Ahead
      (Timely-of_All_due 4 100 gap.buf (omega arith)) refl

skip-overtakes_example :
    (cs : List ℕ) × (j : JitterBuffer ℤ) × (emit_round gap 75 ≡ skip cs j)
    × (find 5 j.buf ≡ some (held 5 90).1)
    × (seq_before 5 j.expected ≡ true)
    × (j.stats.lost ≡ u64 (0 + seq_distance 4 6))
unfolding runs seq_distance
skip-overtakes_example =
    skip-overtakes gap 75 (held 5 90).1 (held 6 70).1 gap-Inv refl refl refl (omega arith)
      (omega arith)

-- 6 has been played, 5 is still there.
abbrev stale : JitterBuffer ℤ
stale = buffer (held 5 90 ∷ []) 7
