-- ===== src/Rtp/Receiver.antt =====
-- server/internal/rtp/receiver.go: which datagrams of a stream's socket reach its jitter buffer.
--
-- `unmarshal` is pion/rtp's, as in Packet. What net.ListenPacket answers is an argument of `bind`:
-- the port, or none on an error. The callbacks are closures of the server: `on_packet` says
-- whether one is set, and `on_compressed` names the recorder that the closure writes to. What they
-- are called with is a result, and so are the calls of the metrics.
pub mod Solicited
use espmic.Common.{
  ℕ, ◌+◌, ◌≡◌, List, [], ◌∷◌, Option, none, some, Bool, true, false, not, ◌==◌, if◌then◌else◌,
  length, String, String_discrete,
}
use mathlib.Core.Option
use espmic.Common.GoMap
use espmic.Common.Int.{ℤ, pos, negsuc}
use espmic.Rtp.Packet.{PionPacket, Packet, ParseResult, ok, err, parse_for}
use espmic.Rtp.Jitter.{JitterBuffer, Float64, Stats, new, push, statistics}

pub record Binding (F : Type 0) : Type 0 where
  pub stream_id : String
  pub ssrc : ℕ
  pub ssrc_learned : Bool
  pub first_seen : Bool
  pub pt : ℕ
  pub port : ℕ
  pub jb : JitterBuffer F
  pub has_worker : Bool

pub record Receiver (F : Type 0) : Type 0 where
  pub streams : List (String × Binding F)
  pub on_packet : Bool
  pub on_compressed : Option String

-- What one datagram does besides: a decode error is counted; nothing, for a foreign SSRC; or a
-- packet is counted, with the flag that on_packet gets and the recorder that on_compressed feeds.
pub data Receipt : Type 0 where
  rejected foreign : Receipt
  taken : Packet → Option Bool → Option String → Receipt

pub data BindError : Type 0 where
  already_bound listen_failed : BindError

pub data BindResult : Type 0 where
  bound : ℕ → BindResult
  unbound : BindError → BindResult

abbrev pub default_jitter_target : ℕ
default_jitter_target = 60000000

-- `if jitterTarget <= 0`.
abbrev pub target_or_default : ℤ → ℕ
target_or_default (pos n) = if n == 0 then default_jitter_target else n
target_or_default (negsuc n) = default_jitter_target

-- `:0` unless the port is positive.
abbrev pub port_asked : ℤ → ℕ
port_asked (pos n) = n
port_asked (negsuc n) = 0

unfoldable pub new_receiver : {F : Type 0} → Receiver F
new_receiver = record { streams = []; on_packet = false; on_compressed = none }

module _ {F : Type 0} where
  abbrev pub binding_of : Receiver F → String → Option (Binding F)
  binding_of r id = GoMap.lookup String_discrete id r.streams

  unfoldable pub jitter_buffer : Receiver F → String → Option (JitterBuffer F)
  jitter_buffer r id = Option.map (λ b. b.jb) (binding_of r id)

  unfoldable pub stream_stats : Receiver F → String → Option (Stats F)
  unfolding statistics
  stream_stats r id = Option.map (λ b. statistics b.jb) (binding_of r id)

  unfoldable pub stream_port : Receiver F → String → Option ℕ
  stream_port r id = Option.map (λ b. b.port) (binding_of r id)

  unfoldable pub set_worker_cancel : Receiver F → String → Receiver F
  set_worker_cancel r id = elim (binding_of r id) [
    | none ↦ r
    | some b ↦ record r {
      streams = GoMap.insert String_discrete id (record b { has_worker = true }) r.streams;
    }
  ]

  unfoldable pub set_on_packet : Receiver F → Receiver F
  set_on_packet r = record r { on_packet = true }

  unfoldable pub set_on_compressed : Receiver F → String → Receiver F
  set_on_compressed r recorder = record r { on_compressed = some recorder }

  -- The worker, the read loop and the socket end with the binding.
  unfoldable pub close_stream : Receiver F → String → Receiver F
  close_stream r id = record r { streams = GoMap.delete String_discrete id r.streams }

  unfoldable pub stream_count : Receiver F → ℕ
  stream_count r = length r.streams

  -- The part of the read loop under the receiver's lock.
  unfoldable pub learn : Bool → Binding F → Packet → Binding F
  learn on_packet b p =
      let b' = if b.ssrc_learned then b else record b { ssrc = p.ssrc; ssrc_learned = true } in
      if on_packet then record b' { first_seen = true } else b'

module _ {F : Type 0} (fl : Float64 F) where
  unfoldable pub bind : Receiver F → String → ℕ → ℤ → ℤ → (ℕ → Option ℕ) → Receiver F × BindResult
  unfolding new
  bind r id pt jitter_target bind_port listen = elim (binding_of r id) [
    | some b ↦ (r, unbound already_bound)
    | none ↦ elim (listen (port_asked bind_port)) [
      | none ↦ (r, unbound listen_failed)
      | some port ↦
          let b : Binding F = record {
            stream_id = id;
            ssrc = 0;
            ssrc_learned = false;
            first_seen = false;
            pt = pt;
            port = port;
            jb = new fl (target_or_default jitter_target) false;
            has_worker = false;
          } in
          (record r { streams = GoMap.insert String_discrete id b r.streams }, bound port)
    ]
  ]

module _ {F : Type 0} (fl : Float64 F) (unmarshal : List ℕ → Option PionPacket) where
  unfoldable pub accept : Bool → Option String → Binding F → Packet → ℕ → Binding F × Receipt
  unfolding learn
  accept on_packet on_compressed b p now =
      let b' = learn on_packet b p in
      if not (p.ssrc == b'.ssrc) then (b', foreign) else (
        record b' { jb = push fl b'.jb p now },
        taken p (if on_packet then some (not b.first_seen) else none) on_compressed,
      )

  -- One round of the read loop that reads a datagram.
  unfoldable pub read_datagram : Bool → Option String → Binding F → List ℕ → ℕ → Binding F × Receipt
  unfolding accept
  read_datagram on_packet on_compressed b raw now = elim (parse_for unmarshal raw b.pt) [
    | err e ↦ (b, rejected)
    | ok p ↦ accept on_packet on_compressed b p now
  ]

  -- The same at the receiver; none where the stream's socket is not open.
  unfoldable pub receive : Receiver F → String → List ℕ → ℕ → Receiver F × Option Receipt
  unfolding read_datagram
  receive r id raw now = elim (binding_of r id) [
    | none ↦ (r, none)
    | some b ↦
        let (b', receipt) = read_datagram r.on_packet r.on_compressed b raw now in
        (record r { streams = GoMap.insert String_discrete id b' r.streams }, some receipt)
  ]
