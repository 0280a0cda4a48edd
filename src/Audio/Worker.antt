-- ===== src/Audio/Worker.antt =====
-- server/internal/audio/worker.go: the worker that decodes what the jitter buffer plays.
--
-- A tick of its ticker is one step; what it does to others is its effects, in their order. The
-- buffer that is decoded into keeps its contents from one packet to the next.
pub mod Frames
use espmic.Common.{
  ℕ, ◌*◌, ◌%◌, ◌^◌, Bool, true, false, not, Option, none, some, String, List, [], ◌∷◌, ◌++◌,
  if◌then◌else◌, take,
}
use espmic.Common.Int.{ℤ}
use espmic.Audio.Bus.{PcmBus, publish}
use espmic.Audio.Frame.{DecodedAudioFrame, new_frame, stereo}
use espmic.Audio.Decoder.{Decoder, Decoded}
use espmic.Rtp.Jitter.{JitterBuffer, emit}
use espmic.Rtp.Packet.{Packet}

-- onPacket is called, with whether it is the first packet; a counter of the metrics goes up; or the
-- bus hands a frame to the listeners.
pub data Effect : Type 0 where
  packet_heard : Bool → Effect
  decode_error frame_decoded : Effect
  published : DecodedAudioFrame → List String → Effect

-- `watched` and `measured` say whether there is an onPacket and whether there are metrics.
pub record Worker (D : Type 0) : Type 0 where
  pub stream_id : String
  pub decoder : D
  pub watched : Bool
  pub measured : Bool
  pub first_packet_sent : Bool
  pub out_buf : List ℤ

abbrev pub only_if : Bool → Effect → List Effect
only_if b e = if b then e ∷ [] else []

unfoldable pub frame_of : String → Packet → ℕ → List ℤ → DecodedAudioFrame
unfolding new_frame
frame_of stream p samples out = record (new_frame stream p.timestamp) {
  sample_count_per_channel = samples % 2 ^ 32;
  pcm = take (samples * stereo) out;
  source_rtp_sequence_start = p.sequence_number;
  source_rtp_sequence_end = p.sequence_number;
}

module _ {D : Type 0} (dec : Decoder D) (bus : PcmBus) where
  abbrev heard : Worker D → List Effect
  heard w = only_if w.watched (packet_heard (not w.first_packet_sent))

  -- With what the decoder made of the packet.
  abbrev decoded : Worker D → Packet → Decoded D → Worker D
  decoded w p r = record w {
    decoder = r.decoder;
    out_buf = r.out;
    first_packet_sent = if w.watched then true else w.first_packet_sent;
  }

  abbrev outcome : Worker D → Packet → Decoded D → List Effect
  outcome w p r = elim (r.samples) [
    | none ↦ only_if w.measured decode_error
    | some n ↦
        let frame = frame_of w.stream_id p n r.out in
        only_if w.measured frame_decoded ++ (published frame (publish bus (some frame)) ∷ [])
  ]

  unfoldable pub play_packet : Worker D → Packet → Worker D × List Effect
  unfolding frame_of publish
  play_packet w p =
      let r = dec.decode w.decoder p.payload w.out_buf in (decoded w p r, heard w ++ outcome w p r)

  unfoldable pub play_packets : Worker D → List Packet → Worker D × List Effect
  unfolding play_packet
  play_packets w [] = (w, [])
  play_packets w (p ∷ ps) =
      let (w', es) = play_packet w p in let (w'', rest) = play_packets w' ps in (w'', es ++ rest)

  -- None if the fuel of Emit ran out.
  unfoldable pub tick :
      {F : Type 0}
      → Worker D
      → JitterBuffer F
      → ℕ
      → Option (Worker D × JitterBuffer F × List Effect)
  unfolding play_packets
  tick w jb now = elim (emit jb now) [
    | none ↦ none
    | some (ps, calls, jb') ↦ let (w', es) = play_packets w ps in some (w', jb', es)
  ]
