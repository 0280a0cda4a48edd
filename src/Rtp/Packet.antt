-- ===== src/Rtp/Packet.antt =====
-- server/internal/rtp/packet.go: validation of one datagram. The wire format is parsed by
-- pion/rtp, which is the parameter `unmarshal`.
use espmic.Common.{ℕ, List, Option, none, some, ◌==◌, not, if◌then◌else◌, length}

-- The fields that the server reads of a packet of pion/rtp.
pub record PionPacket : Type 0 where
  pub version : ℕ
  pub payload_type : ℕ
  pub sequence_number : ℕ
  pub timestamp : ℕ
  pub ssrc : ℕ
  pub payload : List ℕ

pub record Packet : Type 0 where
  pub version : ℕ
  pub payload_type : ℕ
  pub sequence_number : ℕ
  pub timestamp : ℕ
  pub ssrc : ℕ
  pub payload : List ℕ

pub data ParseError : Type 0 where
  err_malformed_packet err_wrong_version err_wrong_payload_type err_empty_payload : ParseError

pub data ParseResult : Type 0 where
  ok : Packet → ParseResult
  err : ParseError → ParseResult

abbrev pub default_payload_type : ℕ
default_payload_type = 111

abbrev pub accepted : PionPacket → Packet
accepted p = record {
  version = p.version;
  payload_type = p.payload_type;
  sequence_number = p.sequence_number;
  timestamp = p.timestamp;
  ssrc = p.ssrc;
  payload = p.payload;
}

-- The checks on an unmarshalled packet, in the order of the source.
unfoldable pub validate : PionPacket → ℕ → ParseResult
validate p expected_pt =
    if not (p.version == 2)
    then err err_wrong_version
    else if not (p.payload_type == expected_pt)
    then err err_wrong_payload_type
    else if length p.payload == 0
    then err err_empty_payload
    else ok (accepted p)

unfoldable pub parse_for : (List ℕ → Option PionPacket) → List ℕ → ℕ → ParseResult
unfolding validate
parse_for unmarshal raw expected_pt = elim (unmarshal raw) [
  | none ↦ err err_malformed_packet
  | some p ↦ validate p expected_pt
]

unfoldable pub parse : (List ℕ → Option PionPacket) → List ℕ → ParseResult
unfolding parse_for
parse unmarshal raw = parse_for unmarshal raw default_payload_type
