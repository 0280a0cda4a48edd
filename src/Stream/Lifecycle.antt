-- ===== src/Stream/Lifecycle.antt =====
-- The Stream type of server/internal/stream/stream.go and its methods. Each method holds the
-- stream's lock throughout, so it is one step. Instants are nanoseconds, 0 is Go's zero time, and
-- `now.Sub(t) >= d` with a positive `d` is `t + d ≤ now`.
pub mod Traces
pub mod Diagram
pub mod Clock
use espmic.Common.{
  ℕ, suc, ◌+◌, ◌≡◌, Bool, true, false, not, ◌&&◌, ◌||◌, Option, none, some, String, ◌==◌, leb, ltb,
  if◌then◌else◌,
}
use espmic.Common.Int.{ℤ, pos, negsuc}

pub data StreamState : Type 0 where
  created waiting_for_device starting rtp_wait active stopping complete failed : StreamState

-- A reason is a string in the source; `reason_text` is any other than those named there.
pub data FailureReason : Type 0 where
  no_failure start_rejected rtp_wait_timed_out rtp_timed_out device_disc decode_failed :
      FailureReason
  server_restart replaced : FailureReason
  reason_text : String → FailureReason

pub data StreamError : Type 0 where
  stream_not_found illegal_transition : StreamError

pub record TimeoutConfig : Type 0 where
  pub rtp_wait_for : ℤ
  pub rtp_disappear : ℤ

abbrev pub default_rtp_wait_timeout : ℕ
default_rtp_wait_timeout = 5000000000

abbrev pub default_rtp_disappear_timeout : ℕ
default_rtp_disappear_timeout = 1000000000

-- `if d > 0 { return d }; return def`.
abbrev positive_or : ℤ → ℕ → ℕ
positive_or (pos n) def = if ltb 0 n then n else def
positive_or (negsuc n) def = def

unfoldable pub wait : TimeoutConfig → ℕ
wait c = positive_or c.rtp_wait_for default_rtp_wait_timeout

unfoldable pub disappear : TimeoutConfig → ℕ
disappear c = positive_or c.rtp_disappear default_rtp_disappear_timeout

pub record Stream : Type 0 where
  pub stream_id : String
  pub device_id : String
  pub ssrc : ℕ
  pub state : StreamState
  pub started_at : ℕ
  pub reason : FailureReason
  pub stream_started_at : ℕ
  pub last_packet_at : ℕ
  pub cfg : TimeoutConfig

unfoldable pub new : String → String → ℕ → ℕ → Stream
new id device ssrc started_at = record {
  stream_id = id;
  device_id = device;
  ssrc = ssrc;
  state = created;
  started_at = started_at;
  reason = no_failure;
  stream_started_at = 0;
  last_packet_at = 0;
  cfg = record { rtp_wait_for = pos 0; rtp_disappear = pos 0 };
}

unfoldable pub with_timeout_config : Stream → TimeoutConfig → Stream
with_timeout_config s cfg = record s { cfg = cfg }

-- `==` on states, by their places in the list above.
abbrev pub place : StreamState → ℕ
place created = 0
place waiting_for_device = 1
place starting = 2
place rtp_wait = 3
place active = 4
place stopping = 5
place complete = 6
place failed = 7

infix 50 ◌is◌
abbrev pub ◌is◌ : StreamState → StreamState → Bool
a is b = place a == place b

-- A method's new stream and its error.
abbrev pub Outcome : Type 0
Outcome = Stream × Option StreamError

abbrev illegal : Stream → Outcome
illegal s = (s, some illegal_transition)

unfoldable pub start : Stream → ℕ → Outcome
start s now =
    if not (s.state is created)
    then illegal s
    else (record s { state = waiting_for_device; started_at = now }, none)

unfoldable pub device_command_sent : Stream → Outcome
device_command_sent s =
    if not (s.state is created) && not (s.state is waiting_for_device)
    then illegal s
    else (record s { state = starting }, none)

abbrev or_rejected : FailureReason → FailureReason
or_rejected no_failure = start_rejected
or_rejected r = r

unfoldable pub device_rejected : Stream → FailureReason → Outcome
device_rejected s reason =
    if not (s.state is starting)
    then illegal s
    else (record s { state = failed; reason = or_rejected reason }, none)

unfoldable pub mark_server_restart_failed : Stream → Outcome
mark_server_restart_failed s =
    if s.state is created || s.state is starting || s.state is rtp_wait || s.state is active
    then (record s { state = failed; reason = server_restart }, none)
    else illegal s

unfoldable pub stream_started : Stream → ℕ → Outcome
stream_started s now =
    if not (s.state is starting)
    then illegal s
    else (record s { state = rtp_wait; stream_started_at = now }, none)

unfoldable pub first_packet : Stream → ℕ → Outcome
first_packet s now =
    if not (s.state is rtp_wait)
    then illegal s
    else (record s { state = active; last_packet_at = now }, none)

-- `Packet` returns nothing.
unfoldable pub packet : Stream → ℕ → Stream
packet s now = if not (s.state is active) then s else record s { last_packet_at = now }

unfoldable pub rtp_wait_timed_out? : Stream → ℕ → Bool
unfolding wait
rtp_wait_timed_out? s now =
    if not (s.state is rtp_wait) then false else leb (s.stream_started_at + wait s.cfg) now

unfoldable pub rtp_disappeared? : Stream → ℕ → Bool
unfolding disappear
rtp_disappeared? s now =
    if not (s.state is active) then false else leb (s.last_packet_at + disappear s.cfg) now

unfoldable pub stop_requested : Stream → Outcome
stop_requested s =
    if not (s.state is active) then illegal s else (record s { state = stopping }, none)

unfoldable pub stopped : Stream → Outcome
stopped s = if not (s.state is stopping) then illegal s else (record s { state = complete }, none)

unfoldable pub force_complete : Stream → Outcome
force_complete s =
    if s.state is complete || s.state is failed
    then (s, none)
    else (record s { state = complete; reason = replaced }, none)

-- DeviceDisconnected, RTPTimeout and DecodeError differ in their reason only.
abbrev fail_from : StreamState → FailureReason → Stream → Outcome
fail_from from why s =
    if not (s.state is from) then illegal s else (record s { state = failed; reason = why }, none)

unfoldable pub device_disconnected : Stream → Outcome
device_disconnected = fail_from active device_disc

unfoldable pub rtp_wait_timeout : Stream → Outcome
rtp_wait_timeout = fail_from rtp_wait rtp_wait_timed_out

unfoldable pub rtp_timeout : Stream → Outcome
rtp_timeout = fail_from active rtp_timed_out

unfoldable pub decode_error : Stream → Outcome
decode_error = fail_from active decode_failed

-- The calls that others make on a stream.
pub data Call : Type 0 where
  starts : ℕ → Call
  sends_command : Call
  is_rejected : FailureReason → Call
  marks_restart : Call
  is_started : ℕ → Call
  gets_first : ℕ → Call
  gets_packet : ℕ → Call
  asks_stop : Call
  is_stopped : Call
  forces : Call
  disconnects : Call
  waits_too_long : Call
  falls_silent : Call
  fails_decode : Call

unfoldable pub apply : Call → Stream → Outcome
unfolding start device_command_sent device_rejected mark_server_restart_failed stream_started
    first_packet packet stop_requested stopped force_complete device_disconnected rtp_wait_timeout
    rtp_timeout decode_error
apply (starts now) s = start s now
apply sends_command s = device_command_sent s
apply (is_rejected r) s = device_rejected s r
apply marks_restart s = mark_server_restart_failed s
apply (is_started now) s = stream_started s now
apply (gets_first now) s = first_packet s now
apply (gets_packet now) s = (packet s now, none)
apply asks_stop s = stop_requested s
apply is_stopped s = stopped s
apply forces s = force_complete s
apply disconnects s = device_disconnected s
apply waits_too_long s = rtp_wait_timeout s
apply falls_silent s = rtp_timeout s
apply fails_decode s = decode_error s
