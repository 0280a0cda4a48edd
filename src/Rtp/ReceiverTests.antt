-- ===== src/Rtp/ReceiverTests.antt =====
-- The theorem of the receiver at a new socket.
use espmic.Common.{ℕ, ◌/◌, ◌≡◌, Option, none, some, List, [], ◌∷◌, true, false, refl}
use espmic.Common.Int.{ℤ, pos, ◌+ℤ◌, ◌-ℤ◌, ◌*ℤ◌, pos_part}
use espmic.Rtp.Jitter.{Float64, new}
use espmic.Rtp.Packet.{PionPacket}
use espmic.Rtp.Receiver.{Binding}
use espmic.Rtp.Receiver.Solicited.{read_all, push_all, solicited, valid, read_all-solicited}

-- Whole numbers in place of floats.
abbrev whole : Float64 ℤ
whole = record {
  of_int = λ n. n;
  to_int64 = λ n. n;
  add = ◌+ℤ◌;
  sub = ◌-ℤ◌;
  mul = ◌*ℤ◌;
  div = λ a b. pos (pos_part a / pos_part b);
}

-- The first byte is the SSRC, the second the sequence number.
abbrev unmarshal : List ℕ → Option PionPacket
unmarshal [] = none
unmarshal (s ∷ []) = none
unmarshal (s ∷ n ∷ rest) = some (record {
  version = 2;
  payload_type = 111;
  sequence_number = n;
  timestamp = 0;
  ssrc = s;
  payload = rest;
})

abbrev socket : Binding ℤ
socket = record {
  stream_id = "s1";
  ssrc = 0;
  ssrc_learned = false;
  first_seen = false;
  pt = 111;
  port = 40000;
  jb = new whole 60 false;
  has_worker = false;
}

-- A datagram too short, one of source 7, one of source 9, and one of source 7 again.
abbrev datagrams : List (List ℕ × ℕ)
datagrams = (7 ∷ [], 1) ∷ (7 ∷ 1 ∷ 5 ∷ [], 2) ∷ (9 ∷ 2 ∷ 5 ∷ [], 3) ∷ (7 ∷ 2 ∷ 5 ∷ [], 4) ∷ []

read_all-solicited_example :
    (read_all whole unmarshal true none socket datagrams).jb
    ≡ push_all whole unmarshal socket.jb (solicited (valid unmarshal 111 datagrams))
read_all-solicited_example = read_all-solicited whole unmarshal true none socket datagrams refl
