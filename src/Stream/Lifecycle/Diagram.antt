-- ===== src/Stream/Lifecycle/Diagram.antt =====
-- Which call takes a stream from which state to which: the diagram of the lifecycle, and the methods.
use espmic.Common.{
  ℕ, ◌≡◌, ◌⊎◌, Bool, true, false, ◌||◌, none, some, refl, arith, Bool-cases, inl, inr, ◌≢◌, sym,
  ◌∙◌,
}
use espmic.Stream.Lifecycle.{
  StreamState, FailureReason, created, waiting_for_device, starting, rtp_wait, active, stopping,
  complete, failed, ◌is◌, illegal_transition, Stream, Call, starts, sends_command, is_rejected,
  marks_restart, is_started, gets_first, gets_packet, asks_stop, is_stopped, forces, disconnects,
  waits_too_long, falls_silent, fails_decode, apply,
}

pub data Edge : Call → StreamState → StreamState → Type 0 where
  enlist : {now : ℕ} → Edge (starts now) created waiting_for_device
  command_new : Edge sends_command created starting
  command : Edge sends_command waiting_for_device starting
  reject : {why : FailureReason} → Edge (is_rejected why) starting failed
  confirm : {now : ℕ} → Edge (is_started now) starting rtp_wait
  hear : {now : ℕ} → Edge (gets_first now) rtp_wait active
  halt : Edge asks_stop active stopping
  finish : Edge is_stopped stopping complete
  lose_device : Edge disconnects active failed
  starve : Edge waits_too_long rtp_wait failed
  fall_silent : Edge falls_silent active failed
  fail_decode : Edge fails_decode active failed
  restart_created : Edge marks_restart created failed
  restart_starting : Edge marks_restart starting failed
  restart_waiting : Edge marks_restart rtp_wait failed
  restart_active : Edge marks_restart active failed
  replace_created : Edge forces created complete
  replace_enlisted : Edge forces waiting_for_device complete
  replace_starting : Edge forces starting complete
  replace_waiting : Edge forces rtp_wait complete
  replace_active : Edge forces active complete
  replace_stopping : Edge forces stopping complete
  replace_complete : Edge forces complete complete
  replace_failed : Edge forces failed failed
  listen : {now : ℕ} {s : StreamState} → Edge (gets_packet now) s s

-- The call is legal in the state.
abbrev legal : Call → StreamState → Bool
legal (starts now) s = s is created
legal sends_command s = s is created || s is waiting_for_device
legal (is_rejected why) s = s is starting
legal marks_restart s = s is created || s is starting || s is rtp_wait || s is active
legal (is_started now) s = s is starting
legal (gets_first now) s = s is rtp_wait
legal (gets_packet now) s = true
legal asks_stop s = s is active
legal is_stopped s = s is stopping
legal forces s = true
legal disconnects s = s is active
legal waits_too_long s = s is rtp_wait
legal falls_silent s = s is active
legal fails_decode s = s is active

Edge-legal : {c : Call} {s t : StreamState} → Edge c s t → legal c s ≡ true
Edge-legal enlist = refl
Edge-legal command_new = refl
Edge-legal command = refl
Edge-legal reject = refl
Edge-legal confirm = refl
Edge-legal hear = refl
Edge-legal halt = refl
Edge-legal finish = refl
Edge-legal lose_device = refl
Edge-legal starve = refl
Edge-legal fall_silent = refl
Edge-legal fail_decode = refl
Edge-legal restart_created = refl
Edge-legal restart_starting = refl
Edge-legal restart_waiting = refl
Edge-legal restart_active = refl
Edge-legal replace_created = refl
Edge-legal replace_enlisted = refl
Edge-legal replace_starting = refl
Edge-legal replace_waiting = refl
Edge-legal replace_active = refl
Edge-legal replace_stopping = refl
Edge-legal replace_complete = refl
Edge-legal replace_failed = refl
Edge-legal listen = refl

ruleset edges = (
  enlist, command_new, command, reject, confirm, hear, halt, finish, lose_device, starve,
  fall_silent, fail_decode, restart_created, restart_starting, restart_waiting, restart_active,
  replace_created, replace_enlisted, replace_starting, replace_waiting, replace_active,
  replace_stopping, replace_complete, replace_failed, listen,
)

true_not_false : ◌≢◌ {A = Bool} true false
true_not_false p = absurd (cc)

apply-legal :
    (c : Call) (s : Stream)
    → legal c s.state ≡ true
    → ((apply c s).1 ≡ none) × Edge c s.state (apply c s).0.state
unfolding apply
apply-legal c s h = grind (arith, edges)

apply-illegal :
    (c : Call) (s : Stream) → legal c s.state ≡ false → apply c s ≡ (s, some illegal_transition)
unfolding apply
apply-illegal c s h = ground arith

-- A call on a stream returns no error exactly along the edges of the diagram that bear this call,
-- and then takes the stream along such an edge; on any other stream it returns the error of an illegal
-- transition and changes nothing.
pub apply-Edge :
    (c : Call) (s : Stream)
    → (((apply c s).1 ≡ none) × Edge c s.state (apply c s).0.state)
      ⊎ ((apply c s ≡ (s, some illegal_transition)) × ((t : StreamState) → ¬ Edge c s.state t))
apply-Edge c s = elim (Bool-cases (legal c s.state)) [
  | inl h ↦ inl (apply-legal c s h)
  | inr h ↦ inr (apply-illegal c s h, λ t e. absurd (true_not_false (sym (Edge-legal e) ∙ h)))
]
