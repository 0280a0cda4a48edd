-- ===== src/Server/Traffic.antt =====
-- server/internal/server/server.go: packets, the monitor's tick, and the end of a device's session.
--
-- A tick reads the registry twice and ends what it found; here it is one step, as is the end of a
-- session. Go's zero time is 0. The counters of the metrics are taken modulo 2^64, and the estimate
-- of bytes below 2^63.
pub mod Timely
pub mod Unsaved
pub mod Counts
use espmic.Common.{
  ℕ, ◌+◌, ◌-◌, ◌*◌, ◌/◌, ◌%◌, ◌≡◌, Bool, true, false, not, ◌&&◌, ◌||◌, Option, none, some, String,
  String_discrete, List, [], ◌∷◌, ◌++◌, if◌then◌else◌, same, ltb, ◌==◌,
}
use espmic.Common.GoMap
use espmic.Common.Int.{ℤ, pos}
use espmic.Device.Registry as Devices
use espmic.Rtp.Jitter.{Float64, Stats, u64}
use espmic.Rtp.Packet.{PionPacket}
use espmic.Rtp.Receiver.{Receiver, Receipt, rejected, foreign, taken, receive, stream_stats}
use espmic.Stream.Lifecycle.{
  Stream, rtp_wait, active, ◌is◌, first_packet, packet, rtp_wait_timed_out?, rtp_disappeared?,
  rtp_wait_timeout, rtp_timeout, device_disconnected,
}
use espmic.Stream.Registry as Streams
use espmic.Server.State.{Server, Metrics, update_stream, cleanup_stream}

-- The callback set by SetOnPacket, which looks at the stream's own state.
abbrev pub alive : ℕ → Stream → Stream
alive now st = if st.state is rtp_wait then (first_packet st now).0 else packet st now

-- The callback is called where it is set, so where the flag is there.
abbrev pub on_alive : {F : Type 0} → ℕ → String → Option Bool → Server F → Server F
on_alive now id none s = s
on_alive now id (some first) s = update_stream s id (alive now)

-- The server at one round of the read loop; and the recorder that gets the payload, if one does.
module _ {F : Type 0} (fl : Float64 F) (unmarshal : List ℕ → Option PionPacket) where
  abbrev pub note : ℕ → String → Server F → Receipt → Server F × Option String
  note now id s rejected = (
    record s {
      metrics = record (s.metrics) { opus_decode_errors = u64 (s.metrics.opus_decode_errors + 1) };
    },
    none,
  )
  note now id s foreign = (s, none)
  note now id s (taken p first recorder) = (
    on_alive now id first (record s {
      metrics = record (s.metrics) {
        rtp_packets_received = u64 (s.metrics.rtp_packets_received + 1);
      };
    }),
    recorder,
  )

  -- None where no datagram is read.
  abbrev pub heard : ℕ → String → Server F → Option Receipt → Server F × Option String
  heard now id s none = (s, none)
  heard now id s (some r) = note now id s r

  unfoldable pub receive_datagram : Server F → String → List ℕ → ℕ → Server F × Option String
  unfolding receive update_stream
  receive_datagram s id raw now =
      let (rtp, receipt) = receive fl unmarshal s.rtp id raw now in
      heard now id (record s { rtp = rtp }) receipt

-- `now.Sub(t).Seconds()`.
abbrev pub elapsed : {F : Type 0} → Float64 F → ℕ → F
elapsed fl d =
    fl.add (fl.of_int (pos (d / 1000000000)))
      (fl.div (fl.of_int (pos (d % 1000000000))) (fl.of_int (pos 1000000000)))

-- `a - b` on uint64.
abbrev pub delta : ℕ → ℕ → ℕ
delta a b = (a + 18446744073709551616 - b) % 18446744073709551616

module _ {F : Type 0} (fl : Float64 F) where
  abbrev pub no_stats : Stats F
  no_stats = record {
    received = 0;
    lost = 0;
    duplicate = 0;
    reordered = 0;
    late = 0;
    jitter_ms = fl.of_int (pos 0);
  }

  -- `m[id]`, with the zero value for a missing key.
  abbrev pub last_of : List (String × Stats F) → String → Stats F
  last_of m id = elim (GoMap.lookup String_discrete id m) [ none ↦ no_stats | some st ↦ st ]

  abbrev pub number_of : List (String × ℕ) → String → ℕ
  number_of m id = elim (GoMap.lookup String_discrete id m) [ none ↦ 0 | some n ↦ n ]

  -- The counters grow by what a stream's counters have grown, a step at a time; the gauges are set.
  unfoldable pub add_counts : Metrics → Stats F → Stats F → Metrics
  add_counts m last st = record m {
    rtp_packets_lost = u64 (m.rtp_packets_lost + delta st.lost last.lost);
    rtp_packets_duplicate = u64 (m.rtp_packets_duplicate + delta st.duplicate last.duplicate);
    rtp_packets_reordered = u64 (m.rtp_packets_reordered + delta st.reordered last.reordered);
    rtp_packets_late = u64 (m.rtp_packets_late + delta st.late last.late);
    rtp_jitter_ms = fl.to_int64 (fl.mul st.jitter_ms (fl.of_int (pos 1000)));
  }

  -- The estimate of 300 bytes for each packet received since the last call.
  unfoldable pub estimate : Server F → String → Stats F → ℕ → Server F
  estimate s id st now =
      let grown = delta st.received (last_of s.last_stats id).received in
      if grown == 0 then s else record s {
        last_bitrate = GoMap.insert String_discrete id (grown * 300) s.last_bitrate;
        last_bitrate_t = GoMap.insert String_discrete id now s.last_bitrate_t;
      }

  unfoldable pub show_bitrate : Server F → String → ℕ → ℕ → Server F
  show_bitrate s id last_time now =
      if last_time == 0 then s else if not (ltb last_time now) then s else record s {
        metrics = record (s.metrics) {
          rtp_bitrate_bps = fl.to_int64 (
              fl.div (fl.mul (fl.of_int (pos (number_of s.last_bitrate id))) (fl.of_int (pos 8)))
                (elapsed fl (now - last_time)));
        };
      }

  unfoldable pub push_stream_metrics : Server F → String → Stats F → ℕ → Server F
  push_stream_metrics s id st now =
      let last_time = number_of s.last_bitrate_t id in
      let s1 = record s { metrics = add_counts s.metrics (last_of s.last_stats id) st } in
      let s2 = show_bitrate (estimate s1 id st now) id last_time now in
      record s2 { last_stats = GoMap.insert String_discrete id st s2.last_stats }

  unfoldable pub push_metrics : Server F → ℕ → List String → Server F
  unfolding push_stream_metrics stream_stats
  push_metrics s now [] = s
  push_metrics s now (id ∷ ids) = elim (stream_stats s.rtp id) [
    | none ↦ push_metrics s now ids
    | some st ↦ push_metrics (push_stream_metrics s id st now) now ids
  ]

-- The ids of the streams that a test selects, in the order of a visit of the registry.
unfoldable pub selected : (Stream → Bool) → List (String × Stream) → List String
selected test [] = []
selected test ((k, st) ∷ m) =
    let rest = selected test m in if test st then st.stream_id ∷ rest else rest

abbrev pub due : ℕ → Stream → Bool
due now st = rtp_wait_timed_out? st now || rtp_disappeared? st now

unfoldable pub expire : ℕ → Stream → Stream
expire now st =
    if rtp_wait_timed_out? st now
    then (rtp_wait_timeout st).0
    else if rtp_disappeared? st now
    then (rtp_timeout st).0
    else st

abbrev pub active_on : String → Stream → Bool
active_on device st = same st.device_id device && st.state is active

abbrev pub disconnect : String → Stream → Stream
disconnect device st = if active_on device st then (device_disconnected st).0 else st

module _ {F : Type 0} (finish : String → Option (String × ℕ)) (now : ℕ) where
  unfoldable pub cleanup_all : Server F → List String → Server F
  unfolding cleanup_stream
  cleanup_all s [] = s
  cleanup_all s (id ∷ ids) = cleanup_all (cleanup_stream finish now s id) ids

  -- The second half of a tick.
  unfoldable pub end_due : Server F → Server F
  unfolding selected expire cleanup_all Streams.for_each
  end_due s =
      cleanup_all (record s { stream = Streams.for_each s.stream (expire now) })
        (selected (due now) s.stream.streams)

  unfoldable pub tick : Float64 F → Server F → Server F
  unfolding end_due push_metrics selected
  tick fl s = end_due (push_metrics fl s now (selected (λ st. st.state is active) s.stream.streams))

  unfoldable pub on_device_disconnect : Server F → String → Server F
  unfolding selected cleanup_all Streams.for_each Devices.set_offline
  on_device_disconnect s device =
      if same device ""
      then s
      else let s' =
          cleanup_all (record s { stream = Streams.for_each s.stream (disconnect device) })
            (selected (active_on device) s.stream.streams) in
        record s' { device = Devices.set_offline s'.device device }
