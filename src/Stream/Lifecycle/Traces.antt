-- ===== src/Stream/Lifecycle/Traces.antt =====
-- What holds of a stream over every sequence of calls.
use espmic.Common.{
  ℕ, ◌+◌, ◌≤◌, ◌<◌, ◌≡◌, ◌≢◌, ◌⊎◌, String, refl, List, [], ◌∷◌, arith, ap, ◌∙◌, if◌then◌else◌,
}
use espmic.Stream.Lifecycle.{
  StreamState, complete, failed, place, ◌is◌, no_failure, replaced, Stream, new, Call, apply,
}

abbrev pub IsTerminal : Stream → Type 0
IsTerminal s = (s.state ≡ complete) ⊎ (s.state ≡ failed)

-- What the reason of a stream says of its state.
pub record Inv (s : Stream) : Type 0 where
  pub failed_for : s.state ≡ failed → s.reason ≢ no_failure
  pub complete_for : s.state ≡ complete → (s.reason ≡ no_failure) ⊎ (s.reason ≡ replaced)
  pub live_for : s.state ≢ failed → s.state ≢ complete → s.reason ≡ no_failure

apply-Inv : (c : Call) (s : Stream) → Inv s → Inv (apply c s).0
unfolding apply
apply-Inv c s v = ground arith

apply_terminal : (c : Call) (s : Stream) → IsTerminal s → (apply c s).0 ≡ s
unfolding apply
apply_terminal c s h = ground arith

new-Inv : (id device : String) (ssrc at : ℕ) → Inv (new id device ssrc at)
unfolding new
new-Inv id device ssrc at = ground arith

-- Calls in this order; their errors are dropped, as most callers do.
unfoldable pub run : List Call → Stream → Stream
run [] s = s
run (c ∷ cs) s = run cs (apply c s).0

run-Inv : (cs : List Call) (s : Stream) → Inv s → Inv (run cs s)
unfolding run
run-Inv [] s v = v
run-Inv (c ∷ cs) s v = run-Inv cs (apply c s).0 (apply-Inv c s v)

-- However a new stream is driven, a failed one has a reason, a complete one has none or was
-- replaced, and one that is neither has none.
pub run-new-Inv :
    (id device : String) (ssrc at : ℕ) (cs : List Call) → Inv (run cs (new id device ssrc at))
run-new-Inv id device ssrc at cs = run-Inv cs _ (new-Inv id device ssrc at)

-- A complete or failed stream stays as it is, whatever calls come.
pub run_terminal : (cs : List Call) (s : Stream) → IsTerminal s → run cs s ≡ s
unfolding run
run_terminal [] s h = refl
run_terminal (c ∷ cs) s h = ap (run cs) (apply_terminal c s h) ∙ run_terminal cs s h

-- How far a state lies along the lifecycle; the two ends are alike.
abbrev pub rank : StreamState → ℕ
rank complete = 6
rank failed = 6
rank s = place s

apply-rank :
    (c : Call) (s : Stream)
    → ((apply c s).0.state ≡ s.state) ⊎ (rank s.state < rank (apply c s).0.state)
unfolding apply
apply-rank c s = ground arith

-- The states that a run goes through, without repetitions.
abbrev pub changes : List Call → Stream → ℕ
changes [] s = 0
changes (c ∷ cs) s = (if (apply c s).0.state is s.state then 0 else 1) + changes cs (apply c s).0

-- No sequence of calls changes the state of a stream back to one that lies before it, and so none
-- changes it more than six times.
pub changes-le :
    (cs : List Call) (s : Stream)
    → (rank s.state + changes cs s ≤ rank (run cs s).state) × (rank (run cs s).state ≤ 6)
unfolding run
changes-le [] s = ground arith
changes-le (c ∷ cs) s = ground (arith, apply-rank c s, changes-le cs (apply c s).0)
