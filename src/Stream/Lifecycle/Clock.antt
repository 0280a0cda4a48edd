-- ===== src/Stream/Lifecycle/Clock.antt =====
-- The two deadlines of a stream: RTP that does not begin, and RTP that falls silent.
use espmic.Common.{ℕ, ◌+◌, ◌≤◌, ◌<◌, ◌≡◌, ◌↔◌, true, List, [], ◌∷◌, arith, ◌∙◌}
use espmic.Stream.Lifecycle.{
  TimeoutConfig, wait, disappear, Stream, active, rtp_wait, first_packet, packet, stream_started,
  starting, rtp_wait_timed_out?, rtp_disappeared?,
}

-- Both deadlines are positive, whatever is configured.
pub deadlines_pos : (c : TimeoutConfig) → (0 < wait c) × (0 < disappear c)
unfolding wait disappear
deadlines_pos c = ground arith

-- Packets at these instants, in this order.
abbrev pub packets_at : Stream → List ℕ → Stream
packets_at s [] = s
packets_at s (t ∷ ts) = packets_at (packet s t) ts

abbrev pub last_or : ℕ → List ℕ → ℕ
last_or t [] = t
last_or t (u ∷ ts) = last_or u ts

packet-active :
    (s : Stream) (t : ℕ)
    → s.state ≡ active
    → ((packet s t).state ≡ active) × ((packet s t).last_packet_at ≡ t) × ((packet s t).cfg ≡ s.cfg)
unfolding packet
packet-active s t h = ground arith

disappeared_active :
    (s : Stream) (now last : ℕ) (c : TimeoutConfig)
    → s.state ≡ active
    → s.last_packet_at ≡ last
    → s.cfg ≡ c
    → (rtp_disappeared? s now ≡ true) ↔ (last + disappear c ≤ now)
unfolding rtp_disappeared?
disappeared_active s now last c h l e = ground arith

disappeared-packets_at :
    (s : Stream) (ts : List ℕ) (now last : ℕ) (c : TimeoutConfig)
    → s.state ≡ active
    → s.last_packet_at ≡ last
    → s.cfg ≡ c
    → (rtp_disappeared? (packets_at s ts) now ≡ true) ↔ (last_or last ts + disappear c ≤ now)
disappeared-packets_at s [] now last c h l e = disappeared_active s now last c h l e
disappeared-packets_at s (t ∷ ts) now last c h l e =
    let (still, latest, same) = packet-active s t h in
    disappeared-packets_at (packet s t) ts now t c still latest (same ∙ e)

heard :
    (s : Stream) (t : ℕ)
    → s.state ≡ rtp_wait
    → ((first_packet s t).0.state ≡ active)
      × ((first_packet s t).0.last_packet_at ≡ t)
      × ((first_packet s t).0.cfg ≡ s.cfg)
unfolding first_packet
heard s t h = ground arith

-- A stream whose first packet is accepted, and which then gets packets, counts as silent exactly
-- from the last packet's instant plus the configured window on, and never without a positive one.
pub first_packet-disappeared :
    (s : Stream) (t : ℕ) (ts : List ℕ) (now : ℕ)
    → s.state ≡ rtp_wait
    → (rtp_disappeared? (packets_at (first_packet s t).0 ts) now ≡ true)
      ↔ (last_or t ts + disappear s.cfg ≤ now)
first_packet-disappeared s t ts now h =
    let (on, latest, same) = heard s t h in
    disappeared-packets_at (first_packet s t).0 ts now t s.cfg on latest same

-- A stream that the device has confirmed at `t` counts as not having begun exactly from `t` plus the
-- configured wait on.
pub stream_started-timed_out :
    (s : Stream) (t now : ℕ)
    → s.state ≡ starting
    → (rtp_wait_timed_out? (stream_started s t).0 now ≡ true) ↔ (t + wait s.cfg ≤ now)
unfolding stream_started rtp_wait_timed_out?
stream_started-timed_out s t now h = ground arith
