-- ===== src/Rtp/Receiver/Solicited.antt =====
-- What a stream's jitter buffer is fed over the life of its socket.
use espmic.Common.{
  ℕ, ◌≡◌, List, [], ◌∷◌, Option, Bool, true, false, ◌==◌, if◌then◌else◌, String, arith, refl, ◌⊎◌,
  inl, inr,
}
use espmic.Rtp.Packet.{PionPacket, Packet, ParseError, ParseResult, ok, err, parse_for}
use espmic.Rtp.Jitter.{JitterBuffer, Float64, push}
use espmic.Rtp.Receiver.{Binding, read_datagram}

-- The valid packets of the payload type, with the instants of their arrival.
abbrev pub valid : (List ℕ → Option PionPacket) → ℕ → List (List ℕ × ℕ) → List (Packet × ℕ)
valid unmarshal pt [] = []
valid unmarshal pt ((raw, now) ∷ rest) = elim (parse_for unmarshal raw pt) [
  | err e ↦ valid unmarshal pt rest
  | ok p ↦ (p, now) ∷ valid unmarshal pt rest
]

abbrev pub from_source : ℕ → List (Packet × ℕ) → List (Packet × ℕ)
from_source ssrc [] = []
from_source ssrc ((p, now) ∷ rest) =
    let more = from_source ssrc rest in if p.ssrc == ssrc then (p, now) ∷ more else more

-- The packets of the source of the first of them.
abbrev pub solicited : List (Packet × ℕ) → List (Packet × ℕ)
solicited [] = []
solicited ((p, now) ∷ rest) = (p, now) ∷ from_source p.ssrc rest

parsed : (r : ParseResult) → ((e : ParseError) × (r ≡ err e)) ⊎ ((p : Packet) × (r ≡ ok p))
parsed (ok p) = inr (p, refl)
parsed (err e) = inl (e, refl)

module _ {F : Type 0} (fl : Float64 F) (unmarshal : List ℕ → Option PionPacket) where
  -- The read loop over datagrams, while the callbacks stay as they are.
  abbrev pub read_all : Bool → Option String → Binding F → List (List ℕ × ℕ) → Binding F
  read_all on_packet on_compressed b [] = b
  read_all on_packet on_compressed b ((raw, now) ∷ rest) =
      read_all on_packet on_compressed
        (read_datagram fl unmarshal on_packet on_compressed b raw now).0 rest

  abbrev pub push_all : JitterBuffer F → List (Packet × ℕ) → JitterBuffer F
  push_all jb [] = jb
  push_all jb ((p, now) ∷ rest) = push_all (push fl jb p now) rest

  rejected_step :
      (cb : Bool) (comp : Option String) (b : Binding F) (raw : List ℕ) (now : ℕ) (e : ParseError)
      → parse_for unmarshal raw b.pt ≡ err e
      → (read_datagram fl unmarshal cb comp b raw now).0 ≡ b
  unfolding read_datagram
  rejected_step cb comp b raw now e h = rw (h, read_datagram)

  -- A packet at a binding that has learned its source, or learns it now.
  accepted_step :
      (cb : Bool) (comp : Option String) (b : Binding F) (raw : List ℕ) (now : ℕ) (p : Packet)
      → parse_for unmarshal raw b.pt ≡ ok p
      → let b' = (read_datagram fl unmarshal cb comp b raw now).0 in
        let source = if b.ssrc_learned then b.ssrc else p.ssrc in
        (b'.ssrc_learned ≡ true)
        × (b'.ssrc ≡ source)
        × (b'.pt ≡ b.pt)
        × (b'.jb ≡ (if p.ssrc == source then push fl b.jb p now else b.jb))
  unfolding read_datagram
  accepted_step cb comp b raw now p h = ground arith

  read_all-learned :
      (cb : Bool) (comp : Option String) (b : Binding F) (raws : List (List ℕ × ℕ))
      → b.ssrc_learned ≡ true
      → (read_all cb comp b raws).jb
        ≡ push_all b.jb (from_source b.ssrc (valid unmarshal b.pt raws))
  read_all-learned cb comp b [] h = refl
  read_all-learned cb comp b ((raw, now) ∷ rest) h = elim (parsed (parse_for unmarshal raw b.pt)) [
    | inl (e, q) ↦
        ground (arith, rejected_step cb comp b raw now e q, read_all-learned cb comp b rest h)
    | inr (p, q) ↦
        let b' = (read_datagram fl unmarshal cb comp b raw now).0 in
        let (l, s, t, jb) = accepted_step cb comp b raw now p q in
        ground (arith, read_all-learned cb comp b' rest l)
  ]

  -- Over the life of a socket, the jitter buffer is fed, in order, the datagrams that ParseFor
  -- accepts and whose SSRC is that of the first of these, each at its arrival, and no others;
  -- whatever callbacks are set.
  pub read_all-solicited :
      (on_packet : Bool) (on_compressed : Option String) (b : Binding F) (raws : List (List ℕ × ℕ))
      → b.ssrc_learned ≡ false
      → (read_all on_packet on_compressed b raws).jb
        ≡ push_all b.jb (solicited (valid unmarshal b.pt raws))
  read_all-solicited cb comp b [] h = refl
  read_all-solicited cb comp b ((raw, now) ∷ rest) h =
      elim (parsed (parse_for unmarshal raw b.pt)) [
        | inl (e, q) ↦
            ground (arith, rejected_step cb comp b raw now e q, read_all-solicited cb comp b rest h)
        | inr (p, q) ↦
            let b' = (read_datagram fl unmarshal cb comp b raw now).0 in
            let (l, s, t, jb) = accepted_step cb comp b raw now p q in
            ground (arith, read_all-learned cb comp b' rest l)
      ]
