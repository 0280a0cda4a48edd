-- ===== src/Control/FrameTests.antt =====
-- Frames at concrete bytes.
use espmic.Common.{ℕ, ◌≡◌, false, Option, none, some, List, [], ◌∷◌, arith, refl}
use espmic.Control.Frame.{Pushed, push, next, receive_frame, got}
use espmic.Control.Frame.Stream.{Together, push-append}
use espmic.Control.Frame.RoundTrip.{written, push-written, receive_frame-drops}

two_payloads : List (List ℕ)
two_payloads = (123 ∷ 125 ∷ []) ∷ (91 ∷ 49 ∷ 93 ∷ []) ∷ []

pushed_frames : Option Pushed → List (List ℕ)
pushed_frames none = []
pushed_frames (some r) = r.frames

half_a_frame :
    pushed_frames (push (record { buf = 0 ∷ 0 ∷ [] }) (0 ∷ 1 ∷ 65 ∷ 0 ∷ [])) ≡ (65 ∷ []) ∷ []
unfolding pushed_frames push next
half_a_frame = refl

push-append_example : Together (record { buf = 0 ∷ 0 ∷ [] }) (0 ∷ []) (1 ∷ 65 ∷ [])
push-append_example = push-append (record { buf = 0 ∷ 0 ∷ [] }) (0 ∷ []) (1 ∷ 65 ∷ [])

push-written_example :
    push (record { buf = [] }) (written [] two_payloads)
    ≡ some (record {
      frames = two_payloads;
      need_more = false;
      too_large = false;
      left = record { buf = [] };
    })
unfolding two_payloads
push-written_example = push-written two_payloads (omega arith)

receive_frame-drops_example :
    receive_frame (written [] ((123 ∷ 125 ∷ []) ∷ (65 ∷ []) ∷ []) ∷ []) (record { buf = [] })
    ≡ got (123 ∷ 125 ∷ []) (record { buf = [] }) []
receive_frame-drops_example = receive_frame-drops (123 ∷ 125 ∷ []) ((65 ∷ []) ∷ []) [] (omega arith)
