-- ===== src/Stream/Tests.antt =====
-- The stream theorems at concrete streams.
use espmic.Common.{◌≡◌, none, some, List, [], ◌∷◌, refl, ◌⊎◌}
use espmic.Common.GoMap
use espmic.Stream.Lifecycle.{
  Stream, StreamState, complete, waiting_for_device, new, Call, starts, sends_command, is_started,
  gets_first, gets_packet, asks_stop, is_stopped, disconnects, illegal_transition, apply,
}
use espmic.Stream.Lifecycle.Traces.{Inv, run, run-new-Inv}
use espmic.Stream.Lifecycle.Diagram.{Edge, apply-Edge}
use espmic.Stream.Registry.{Registry, new_registry, add}

abbrev fresh : Stream
unfolding new
fresh = new "s1" "mic" 7 0

abbrev session : List Call
session =
    starts 5
    ∷ sends_command
    ∷ is_started 10
    ∷ gets_first 20
    ∷ gets_packet 40
    ∷ asks_stop
    ∷ is_stopped
    ∷ disconnects
    ∷ []

session_completes : (run session fresh).state ≡ complete
unfolding run apply fresh
session_completes = refl

run-new-Inv_example : Inv (run session (new "s1" "mic" 7 0))
run-new-Inv_example = run-new-Inv "s1" "mic" 7 0 session

abbrev in_state : StreamState → Stream
in_state st = record (fresh) { state = st }

apply-Edge_example :
    (((apply asks_stop fresh).1 ≡ none)
      × Edge asks_stop fresh.state (apply asks_stop fresh).0.state)
    ⊎ ((apply asks_stop fresh ≡ (fresh, some illegal_transition))
        × ((t : StreamState) → ¬ Edge asks_stop fresh.state t))
apply-Edge_example = apply-Edge asks_stop fresh

abbrev waiting_registry : Registry
unfolding add new_registry GoMap.insert fresh
waiting_registry = add new_registry (in_state waiting_for_device)
