-- ===== src/Server/Start/Takeover.antt =====
-- Which recorder the packets of each stream reach after a start.
use espmic.Common.{
  ℕ, ◌≡◌, ◌∙◌, Bool, true, Option, none, some, String, List, arith, refl, ap, if◌then◌else◌, not,
}
use espmic.Rtp.Jitter.{Float64}
use espmic.Rtp.Packet.{PionPacket, Packet, ok, parse_for}
use espmic.Rtp.Receiver.{
  Receiver, Binding, taken, binding_of, receive, read_datagram, accept, learn,
}
use espmic.Server.State.{Server, opus_key}
use espmic.Server.Start.{
  RecordingConfig, started, conclude_start, go_live, attach, record_opus, record_wav,
}
use espmic.Rtp.Receiver.{set_on_packet, set_worker_cancel}
use espmic.Control.Messages.{StreamStarted, m_stream_started}
use espmic.Server.Traffic.{receive_datagram, heard, note}

module _ {F : Type 0} where
  opus_recorder :
      (now began : ℕ) (rec : RecordingConfig) (wav_made : Bool) (s : Server F) (id : String)
      → (record_opus now began rec wav_made true s id).rtp.on_compressed ≡ some (opus_key id)
  unfolding record_opus
  opus_recorder now began rec wav_made s id = refl

  module _ (fl : Float64 F) (unmarshal : List ℕ → Option PionPacket) where
    recorder-heard :
        (now : ℕ) (id : String) (s : Server F) (p : Packet) (first : Option Bool)
        (recorder : Option String)
        → (note fl unmarshal now id s (taken p first recorder)).1 ≡ recorder
    recorder-heard now id s p none recorder = refl
    recorder-heard now id s p (some first) recorder = refl

    receive-taken :
        (r : Receiver F) (id : String) (raw : List ℕ) (now : ℕ) (b : Binding F) (p : Packet)
        → binding_of r id ≡ some b
        → parse_for unmarshal raw b.pt ≡ ok p
        → b.ssrc_learned ≡ true
        → p.ssrc ≡ b.ssrc
        → (first : Option Bool) × ((receive fl unmarshal r id raw now).1
            ≡ some (taken p first r.on_compressed))
    unfolding receive read_datagram accept learn
    receive-taken r id raw now b p h k l e =
        (if r.on_packet then some (not b.first_seen) else none, ground arith)

  attach-started :
      (now began : ℕ) (rec : RecordingConfig) (wav_made : Bool) (s : Server F) (id device : String)
      (port : ℕ) (b : Option (Binding F))
      → (attach now began rec wav_made true s id device port b).1 ≡ started id port
      → (attach now began rec wav_made true s id device port b).0.rtp.on_compressed
        ≡ some (opus_key id)
  unfolding attach
  attach-started now began rec wav_made s id device port none h = ground arith
  attach-started now began rec wav_made s id device port (some b) h =
      opus_recorder now began rec wav_made
        (record_wav now began rec wav_made true
          (record s { rtp = set_on_packet (set_worker_cancel s.rtp id) }) id)
        id

  -- Once a stream has started with its Opus recorder, the packets of every stream reach that one
  -- recorder: a packet that stream `j` takes, whichever stream that is, is written to the recording
  -- of the stream that started last.
  pub conclude_start-takes_over :
      (fl : Float64 F) (unmarshal : List ℕ → Option PionPacket) (now began : ℕ)
      (rec : RecordingConfig) (wav_made : Bool) (s : Server F) (id device j : String) (port : ℕ)
      (m : StreamStarted) (raw : List ℕ) (at : ℕ) (b : Binding F) (p : Packet)
      → let r =
          conclude_start now began rec wav_made true s id device port (some (m_stream_started m)) in
        r.1 ≡ started id port
        → binding_of r.0.rtp j ≡ some b
        → parse_for unmarshal raw b.pt ≡ ok p
        → b.ssrc_learned ≡ true
        → p.ssrc ≡ b.ssrc
        → (receive_datagram fl unmarshal r.0 j raw at).1 ≡ some (opus_key id)
  unfolding conclude_start go_live receive_datagram
  conclude_start-takes_over fl unmarshal now began rec wav_made s id device j port m raw at b p
        ok_start h k l e =
      let t =
        (conclude_start now began rec wav_made true s id device port
          (some (m_stream_started m))).0 in
      let (first, q) = receive-taken fl unmarshal t.rtp j raw at b p h k l e in
      let rtp = (receive fl unmarshal t.rtp j raw at).0 in
      ap (λ y. (heard fl unmarshal at j (record t { rtp = rtp }) y).1) q
      ∙ recorder-heard fl unmarshal at j (record t { rtp = rtp }) p first t.rtp.on_compressed
      ∙ attach-started now began rec wav_made _ id device port _ ok_start
