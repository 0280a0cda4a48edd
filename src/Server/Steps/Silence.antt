-- ===== src/Server/Steps/Silence.antt =====
-- What the monitor's ticks, one after another, leave of a stream that hears nothing in between.
use espmic.Common.{
  ℕ, ◌+◌, ◌≤◌, ◌≡◌, Bool, true, false, ◌||◌, Option, none, some, String, List, [], ◌∷◌, ◌++◌, arith,
  refl, Bool-cases, inl, inr, ◌⊎◌, le→leb,
}
use espmic.Rtp.Jitter.{Float64}
use espmic.Rtp.Receiver.{binding_of}
use espmic.Stream.Lifecycle.{
  Stream, rtp_wait, active, ◌is◌, wait, disappear, rtp_wait_timed_out?, rtp_disappeared?,
}
use espmic.Server.State.{Server, stream_of}
use espmic.Server.Traffic.{tick, push_metrics, selected, due}
use espmic.Server.Traffic.Timely.{unless, picked, end_due-due}
use espmic.Server.Steps.Changes.{Inv}
use espmic.Server.Steps.Visits.{Left, Inv-tick, push_metrics-same}

-- Whether one of the ticks finds the stream due.
abbrev pub ever_due : List ℕ → Option Stream → Bool
ever_due [] o = false
ever_due (now ∷ later) o = picked (due now) o || ever_due later o

ever_due-none : (nows : List ℕ) → ever_due nows none ≡ false
ever_due-none [] = refl
ever_due-none (now ∷ later) = ever_due-none later

module _ {F : Type 0} (fl : Float64 F) (finish : String → Option (String × ℕ)) where
  unfoldable pub monitor : Server F → List ℕ → Server F
  unfolding tick
  monitor s [] = s
  monitor s (now ∷ later) = monitor (tick finish now fl s) later

  tick-Left :
      (now : ℕ) (s : Server F) (id : String) → Inv s → Left (due now) s (tick finish now fl s) id
  unfolding tick
  tick-Left now s id v =
      let ids = selected (λ st. st.state is active) s.stream.streams in
      let (p, q) = push_metrics-same fl s now ids in
      let s' = push_metrics fl s now ids in
      let (a, b) = end_due-due finish now s' id (rw q v.keyed) (rw q v.unique) in
      (ground (arith, a, q), ground (arith, b, p, q))

  -- However many ticks there are, and whenever they are: a stream that hears nothing between them is
  -- ended, and its socket closed, if one of them finds it due, and is as it was otherwise.
  pub monitor-ever_due :
      (s : Server F) (nows : List ℕ) (id : String)
      → Inv s
      → (stream_of (monitor s nows) id ≡ unless (ever_due nows (stream_of s id)) (stream_of s id))
        × (binding_of (monitor s nows).rtp id
            ≡ unless (ever_due nows (stream_of s id)) (binding_of s.rtp id))
  unfolding monitor
  monitor-ever_due s [] id v = (refl, refl)
  monitor-ever_due s (now ∷ later) id v =
      let s' = tick finish now fl s in
      let (p, q) = tick-Left now s id v in
      let (a, b) = monitor-ever_due s' later id (Inv-tick fl finish now s v) in
      elim (Bool-cases (picked (due now) (stream_of s id))) [
        | inl e ↦ ground (arith, a, b, p, q, ever_due-none later)
        | inr e ↦ ground (arith, a, b, p, q)
      ]

  ever_due-at :
      (before after : List ℕ) (now : ℕ) (st : Stream)
      → due now st ≡ true
      → ever_due (before ++ (now ∷ after)) (some st) ≡ true
  ever_due-at [] after now st h = ground arith
  ever_due-at (x ∷ before) after now st h = ground (arith, ever_due-at before after now st h)

  -- In a server whose registry has each stream once, under its id, and whose sockets belong to open
  -- streams, a stream in RTP_WAIT that hears nothing is ended, and its socket closed, by the first
  -- tick at the end of its wait or later, and one that is ACTIVE at the end of the silence it is
  -- allowed; no later tick brings it back.
  pub monitor-silent :
      (s : Server F) (st : Stream) (id : String) (before after : List ℕ) (now : ℕ)
      → Inv s
      → stream_of s id ≡ some st
      → ((st.state ≡ rtp_wait) × (st.stream_started_at + wait st.cfg ≤ now))
        ⊎ ((st.state ≡ active) × (st.last_packet_at + disappear st.cfg ≤ now))
      → (stream_of (monitor s (before ++ (now ∷ after))) id ≡ none)
        × (binding_of (monitor s (before ++ (now ∷ after))).rtp id ≡ none)
  unfolding rtp_wait_timed_out? rtp_disappeared?
  monitor-silent s st id before after now v look over =
      let late : due now st ≡ true = elim over [
        | inl (e, h) ↦ ground (arith, le→leb (st.stream_started_at + wait st.cfg) now h)
        | inr (e, h) ↦ ground (arith, le→leb (st.last_packet_at + disappear st.cfg) now h)
      ] in
      let (p, q) = monitor-ever_due s (before ++ (now ∷ after)) id v in
      let k = ever_due-at before after now st late in (ground (arith, p), ground (arith, q))
