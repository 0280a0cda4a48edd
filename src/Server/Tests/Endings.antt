-- ===== src/Server/Tests/Endings.antt =====
-- How streams end, and how long they may last, at concrete servers.
use espmic.Common.{
  ◌≤◌, ◌+◌, ◌≡◌, true, Option, none, some, String, String_discrete, [], ◌∷◌, arith, refl, inr,
  if◌then◌else◌, same, ◌++◌,
}
use espmic.Common.GoMap
use espmic.Common.Int.{ℤ, pos}
use espmic.Rtp.Receiver.{Binding, binding_of}
use espmic.Stream.Lifecycle.{
  Stream, rtp_wait, no_failure, wait, disappear, rtp_wait_timed_out?, rtp_disappeared?,
}
use espmic.Server.State.{Server, stream_of, save_stream}
use espmic.Server.Steps.Changes.{Inv}
use espmic.Server.Steps.Ownership.{IsOpen}
use espmic.Server.Steps.Silence.{monitor, monitor-silent}
use espmic.Server.Tests.{whole, live, live_stream, finish, nothing_else}
use espmic.Server.Traffic.{due, end_due}
use espmic.Server.Traffic.Unsaved.{row_state, end_due-unsaved}

-- As `live`, of which RTP_WAIT was saved.
abbrev waited : Server ℤ
waited = record (live) { db = save_stream "s1" "mic" rtp_wait no_failure 0 0 ∷ [] }

found : stream_of waited "s1" ≡ some live_stream
unfolding GoMap.lookup String_discrete
found = refl

silent_by_nine : due 9 live_stream ≡ true
unfolding rtp_wait_timed_out? rtp_disappeared? wait disappear
silent_by_nine = refl

end_due-unsaved_example :
    (stream_of (end_due finish 9 waited) "s1" ≡ none)
    × (binding_of (end_due finish 9 waited).rtp "s1" ≡ none)
    × (row_state "s1" (end_due finish 9 waited).db ≡ row_state "s1" waited.db)
end_due-unsaved_example =
    end_due-unsaved finish 9 "s1" waited live_stream found silent_by_nine (refl, tt)
      (nothing_else, tt)

socket_owner :
    (id : String) (b : Binding ℤ)
    → binding_of waited.rtp id ≡ some b
    → (st : Stream) × (stream_of waited id ≡ some st) × IsOpen st
unfolding GoMap.lookup
socket_owner id b h = elim (String_discrete "s1" id) [
  | yes e ↦ (live_stream, ground (arith, String_discrete "s1" id), (omega arith, omega arith))
  | no ne ↦ ground (arith, String_discrete "s1" id)
]

waited-Inv : Inv waited
waited-Inv = record {
  keyed = (refl, tt);
  unique = (nothing_else, tt);
  owner = λ id b h. socket_owner id b h;
}

long_silent : 0 + disappear live_stream.cfg ≤ 9
unfolding disappear
long_silent = omega arith

monitor-silent_example :
    (stream_of (monitor whole finish waited ((1 ∷ 2 ∷ []) ++ (9 ∷ 10 ∷ []))) "s1" ≡ none)
    × (binding_of (monitor whole finish waited ((1 ∷ 2 ∷ []) ++ (9 ∷ 10 ∷ []))).rtp "s1" ≡ none)
monitor-silent_example =
    monitor-silent whole finish waited live_stream "s1" (1 ∷ 2 ∷ []) (10 ∷ []) 9 waited-Inv found
      (inr (refl, long_silent))

abbrev environment : String → Option String
environment key = if same key "ESPMIC_RTP_WAIT_TIMEOUT_S" then some "7" else none

abbrev one_digit : String → Option ℤ
one_digit text = if same text "7" then some (pos 7) else none
