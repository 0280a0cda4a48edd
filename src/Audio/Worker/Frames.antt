-- ===== src/Audio/Worker/Frames.antt =====
-- What the worker makes of the packets that it is given.
use espmic.Common.{
  ℕ, suc, ◌+◌, ◌*◌, ◌≡◌, ◌≢◌, ◌≤◌, ◌<◌, Bool, true, false, not, none, some, String, String_discrete,
  List, [], ◌∷◌, ◌++◌, if◌then◌else◌, All, arith, refl, ap, length, Option-cases, Bool-cases, inl,
  inr, ◌∙◌, length-take, length-append, ◌⊎◌,
}
use espmic.Common.Int.{ℤ}
use espmic.Audio.Bus.{PcmBus}
use espmic.Audio.Frame.{DecodedAudioFrame, new_frame, valid, stereo}
use espmic.Audio.Decoder.{Decoder, IsStereo}
use espmic.Rtp.Jitter.{JitterBuffer, emit}
use espmic.Rtp.Jitter.Invariant.{Inv}
use espmic.Rtp.Jitter.Run.{emit-Run}
use espmic.Rtp.Packet.{Packet}
use espmic.Audio.Worker.{
  Effect, Worker, packet_heard, decode_error, frame_decoded, published, frame_of, play_packet,
  play_packets, tick,
}

-- The frames that reach the bus, the packets that onPacket hears, and the errors that are counted.
abbrev pub frames : List Effect → List DecodedAudioFrame
frames [] = []
frames (published f to ∷ es) = f ∷ frames es
frames (packet_heard b ∷ es) = frames es
frames (decode_error ∷ es) = frames es
frames (frame_decoded ∷ es) = frames es

abbrev pub hears : List Effect → List Bool
hears [] = []
hears (packet_heard b ∷ es) = b ∷ hears es
hears (published f to ∷ es) = hears es
hears (decode_error ∷ es) = hears es
hears (frame_decoded ∷ es) = hears es

abbrev pub errors : List Effect → ℕ
errors [] = 0
errors (decode_error ∷ es) = suc (errors es)
errors (packet_heard b ∷ es) = errors es
errors (published f to ∷ es) = errors es
errors (frame_decoded ∷ es) = errors es

-- Frames of some of the packets, in the packets' order.
pub data InOrder : List DecodedAudioFrame → List Packet → Type 0 where
  at_end : InOrder [] []
  made :
      (f : DecodedAudioFrame) (p : Packet) {fs : List DecodedAudioFrame} {ps : List Packet}
      → f.source_rtp_sequence_start ≡ p.sequence_number
      → f.timestamp_48k ≡ p.timestamp
      → InOrder fs ps
      → InOrder (f ∷ fs) (p ∷ ps)
  lost :
      (p : Packet) {fs : List DecodedAudioFrame} {ps : List Packet}
      → InOrder fs ps
      → InOrder fs (p ∷ ps)

frame_of-valid :
    (stream : String) (p : Packet) (n : ℕ) (out : List ℤ)
    → stream ≢ ""
    → n * stereo ≤ length out
    → length out < 8589934592
    → valid (frame_of stream p n out) ≡ true
unfolding frame_of valid new_frame
frame_of-valid stream p n out ne fits small =
    ground (arith, length-take (n * stereo) out fits, String_discrete stream "")

frames-append : (a b : List Effect) → frames (a ++ b) ≡ frames a ++ frames b
frames-append [] b = refl
frames-append (published f to ∷ es) b = ap (λ l. f ∷ l) (frames-append es b)
frames-append (packet_heard x ∷ es) b = frames-append es b
frames-append (decode_error ∷ es) b = frames-append es b
frames-append (frame_decoded ∷ es) b = frames-append es b

hears-append : (a b : List Effect) → hears (a ++ b) ≡ hears a ++ hears b
hears-append [] b = refl
hears-append (packet_heard x ∷ es) b = ap (λ l. x ∷ l) (hears-append es b)
hears-append (published f to ∷ es) b = hears-append es b
hears-append (decode_error ∷ es) b = hears-append es b
hears-append (frame_decoded ∷ es) b = hears-append es b

errors-append : (a b : List Effect) → errors (a ++ b) ≡ errors a + errors b
errors-append [] b = omega arith
errors-append (decode_error ∷ es) b = omega (arith, errors-append es b)
errors-append (packet_heard x ∷ es) b = errors-append es b
errors-append (published f to ∷ es) b = errors-append es b
errors-append (frame_decoded ∷ es) b = errors-append es b

-- The first packet that a worker hears is its first, and no other is.
abbrev pub firsts : Bool → List Packet → List Bool
firsts sent [] = []
firsts sent (p ∷ ps) = not sent ∷ firsts true ps

total-append :
    (a b : List Effect) (n : ℕ)
    → length (frames a) + errors a ≡ 1
    → length (frames b) + errors b ≡ n
    → length (frames (a ++ b)) + errors (a ++ b) ≡ suc n
total-append a b n h k =
    omega (
      arith,
      ap length (frames-append a b) ∙ length-append (frames a) (frames b),
      errors-append a b,
    )

firsts-append :
    (watched sent : Bool) (a b : List Effect) (p : Packet) (ps : List Packet)
    → hears a ≡ (if watched then not sent ∷ [] else [])
    → hears b ≡ (if watched then firsts (if watched then true else sent) ps else [])
    → hears (a ++ b) ≡ (if watched then firsts sent (p ∷ ps) else [])
firsts-append true sent a b p ps h k = hears-append a b ∙ rw (h, k) refl
firsts-append false sent a b p ps h k = hears-append a b ∙ rw (h, k) refl

module _ {D : Type 0} (dec : Decoder D) (bus : PcmBus) where
  -- One packet: its frame, if there is one, and what else is heard of it.
  Shown : Worker D → Packet → Type 0
  Shown w p =
      let r = dec.decode w.decoder p.payload w.out_buf in
      let es = (play_packet dec bus w p).1 in
      (hears es ≡ (if w.watched then not w.first_packet_sent ∷ [] else []))
      × (((r.samples ≡ none) × (frames es ≡ []) × (errors es ≡ (if w.measured then 1 else 0)))
          ⊎ ((n : ℕ) × (r.samples ≡ some n)
              × (frames es ≡ frame_of w.stream_id p n r.out ∷ [])
              × (errors es ≡ 0)))

  play_packet-Shown : (w : Worker D) (p : Packet) → Shown w p
  unfolding Shown play_packet
  play_packet-Shown w p =
      let r = dec.decode w.decoder p.payload w.out_buf in
      elim (Option-cases r.samples) [
        | inl e ↦ elim (Bool-cases w.watched) [
          | inl a ↦ elim (Bool-cases w.measured) [ inl b ↦ ground arith | inr b ↦ ground arith ]
          | inr a ↦ elim (Bool-cases w.measured) [ inl b ↦ ground arith | inr b ↦ ground arith ]
        ]
        | inr (n, e) ↦ elim (Bool-cases w.watched) [
          | inl a ↦ elim (Bool-cases w.measured) [
            | inl b ↦ (ground arith, inr (n, e, ground arith, ground arith))
            | inr b ↦ (ground arith, inr (n, e, ground arith, ground arith))
          ]
          | inr a ↦ elim (Bool-cases w.measured) [
            | inl b ↦ (ground arith, inr (n, e, ground arith, ground arith))
            | inr b ↦ (ground arith, inr (n, e, ground arith, ground arith))
          ]
        ]
      ]

  -- What the worker makes of some packets.
  abbrev pub Account : Worker D → List Packet → List Effect → Type 0
  Account w ps es =
      InOrder (frames es) ps
      × All (λ f. (valid f ≡ true) × (f.stream_id ≡ w.stream_id)) (frames es)
      × (hears es ≡ (if w.watched then firsts w.first_packet_sent ps else []))
      × (w.measured ≡ true → length (frames es) + errors es ≡ length ps)

  module _ (law : IsStereo dec) where
    InOrder-step :
        (w : Worker D) (p : Packet) (ps : List Packet) (es rest : List Effect)
        → w.stream_id ≢ ""
        → length w.out_buf < 8589934592
        → es ≡ (play_packet dec bus w p).1
        → InOrder (frames rest) ps
        → All (λ f. (valid f ≡ true) × (f.stream_id ≡ w.stream_id)) (frames rest)
        → InOrder (frames (es ++ rest)) (p ∷ ps)
          × All (λ f. (valid f ≡ true) × (f.stream_id ≡ w.stream_id)) (frames (es ++ rest))
          × (w.measured ≡ true → length (frames es) + errors es ≡ 1)
    unfolding Shown frame_of new_frame
    InOrder-step w p ps es rest ne small here order all_valid =
        let r = dec.decode w.decoder p.payload w.out_buf in
        let (heard_p, shown) = play_packet-Shown w p in
        let q = frames-append es rest in
        elim shown [
          | inl (e, fs, n) ↦
              let k : frames (es ++ rest) ≡ frames rest = ground arith in
              (rw k (lost p order), rw k all_valid, λ m. ground arith)
          | inr (n, e, fs, none_lost) ↦
              let f = frame_of w.stream_id p n r.out in
              let k : frames (es ++ rest) ≡ f ∷ frames rest = ground arith in
              let fine =
                frame_of-valid w.stream_id p n r.out ne
                  (rw (law.keeps_length w.decoder p.payload w.out_buf)
                    (law.fits w.decoder p.payload w.out_buf n e))
                  (rw (law.keeps_length w.decoder p.payload w.out_buf) small) in
              (rw k (made f p refl refl order), rw k ((fine, refl), all_valid), λ m. ground arith)
        ]

    Account-step :
        (w : Worker D) (p : Packet) (ps : List Packet) (rest : List Effect)
        → w.stream_id ≢ ""
        → length w.out_buf < 8589934592
        → Account (play_packet dec bus w p).0 ps rest
        → Account w (p ∷ ps) ((play_packet dec bus w p).1 ++ rest)
    unfolding play_packet Shown
    Account-step w p ps rest ne small (order, all_valid, heard_rest, total) =
        let es = (play_packet dec bus w p).1 in
        let (hs, shown) = play_packet-Shown w p in
        let (in_order, fine, one) = InOrder-step w p ps es rest ne small refl order all_valid in
        (
          in_order,
          fine,
          firsts-append w.watched w.first_packet_sent es rest p ps hs heard_rest,
          λ m. total-append es rest (length ps) (one m) (total m),
        )

    -- Whatever packets the worker is given, and whatever the decoder makes of them, its effects are
    -- as the account of these packets says.
    pub play_packets-Account :
        (w : Worker D) (ps : List Packet)
        → w.stream_id ≢ ""
        → length w.out_buf < 8589934592
        → Account w ps (play_packets dec bus w ps).1
    unfolding play_packets
    play_packets-Account w [] ne small = (at_end, tt, ground arith, λ h. omega arith)
    play_packets-Account w (p ∷ ps) ne small =
        let w' = (play_packet dec bus w p).0 in
        Account-step w p ps (play_packets dec bus w' ps).1 ne small (
          play_packets-Account w' ps (unfold play_packet in ne)
            (unfold play_packet in (rw (law.keeps_length w.decoder p.payload w.out_buf) small)))

    -- A tick of the worker of a named stream, with a decoder that keeps what it promises of stereo
    -- sound and a buffer of less than 2^33 samples, over a well-formed jitter buffer returns. With
    -- the packets that the buffer plays: each frame that reaches the bus is valid and is that of
    -- one of the packets, in the packets' order; if there are metrics, a packet without a frame is
    -- one error that is counted; and if there is an onPacket, it is told of every packet, and of
    -- the first that the worker ever has, and no other, as the first.
    pub tick-Account :
        {F : Type 0} (w : Worker D) (jb : JitterBuffer F) (now : ℕ)
        → Inv jb
        → w.stream_id ≢ ""
        → length w.out_buf < 8589934592
        → (ps : List Packet) × (calls : List ℕ) × (jb' : JitterBuffer F) × (w' : Worker D)
          × (es : List Effect) × (emit jb now ≡ some (ps, calls, jb'))
          × (tick dec bus w jb now ≡ some (w', jb', es))
          × Account w ps es
    unfolding tick
    tick-Account w jb now v ne small =
        let (ps, calls, jb', e, run) = emit-Run jb now v in
        (
          ps,
          calls,
          jb',
          (play_packets dec bus w ps).0,
          (play_packets dec bus w ps).1,
          e,
          ground arith,
          play_packets-Account w ps ne small,
        )
