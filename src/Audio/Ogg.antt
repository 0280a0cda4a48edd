-- ===== src/Audio/Ogg.antt =====
-- server/internal/audio/opus_recorder.go: the bytes of an Ogg page and its checksum.
pub mod Reader
use Prim.Native.Nat.{bit_xor, bit_and}
use espmic.Common.{
  ℕ, zero, suc, ◌+◌, ◌-◌, ◌*◌, ◌/◌, ◌%◌, ◌^◌, ◌≡◌, Bool, true, false, List, [], ◌∷◌, ◌++◌, leb,
  ◌==◌, if◌then◌else◌, length,
}

-- binary.LittleEndian.
unfoldable pub put_uint16 : ℕ → List ℕ
put_uint16 n = n % 256 ∷ n / 256 % 256 ∷ []

unfoldable pub put_uint32 : ℕ → List ℕ
put_uint32 n = n % 256 ∷ n / 256 % 256 ∷ n / 65536 % 256 ∷ n / 16777216 % 256 ∷ []

unfoldable pub put_uint64 : ℕ → List ℕ
unfolding put_uint32
put_uint64 n = put_uint32 n ++ put_uint32 (n / 4294967296)

-- `if crc&0x80000000 != 0 { … }` eight times over.
unfoldable pub crc_bits : ℕ → ℕ → ℕ
crc_bits zero crc = crc
crc_bits (suc n) crc = crc_bits n (
    if bit_and crc 0x80000000 == 0 then crc * 2 % 2 ^ 32 else bit_xor (crc * 2 % 2 ^ 32) 0x04C11DB7)

unfoldable pub crc_bytes : List ℕ → ℕ → ℕ
unfolding crc_bits
crc_bytes [] crc = crc
crc_bytes (b ∷ rest) crc = crc_bytes rest (crc_bits 8 (bit_xor crc (b * 16777216 % 2 ^ 32)))

unfoldable pub ogg_crc : List ℕ → ℕ
unfolding crc_bytes
ogg_crc bytes = crc_bytes bytes 0

-- The segment table of what remains.
unfoldable pub segments : ℕ → ℕ → List ℕ
segments zero remaining = []
segments (suc n) remaining =
    if leb 255 remaining then 255 ∷ segments n (remaining - 255) else remaining ∷ segments n 0

abbrev pub segment_count : List ℕ → ℕ
segment_count payload = length payload / 255 + 1

-- The 27 bytes of the header.
unfoldable pub header : ℕ → ℕ → ℕ → ℕ → ℕ → ℕ → List ℕ
unfolding put_uint32 put_uint64
header flag granulepos serial seq crc nseg =
    79
    ∷ 103
    ∷ 103
    ∷ 83
    ∷ 0
    ∷ flag
    ∷ (put_uint64 granulepos
        ++ (put_uint32 serial ++ (put_uint32 seq ++ (put_uint32 crc ++ (nseg % 256 ∷ [])))))

-- Header, table and data, with the checksum of the page whose checksum is 0.
unfoldable pub sealed : ℕ → ℕ → ℕ → ℕ → ℕ → List ℕ → List ℕ
unfolding header
sealed flag granulepos serial seq nseg body =
    header flag granulepos serial seq (ogg_crc (header flag granulepos serial seq 0 nseg ++ body))
      nseg
    ++ body

unfoldable pub page : ℕ → ℕ → ℕ → ℕ → List ℕ → List ℕ
unfolding sealed segments
page flag granulepos serial seq payload =
    let nseg = segment_count payload in
    sealed flag granulepos serial seq nseg (segments nseg (length payload) ++ payload)

-- The last page has no segments.
unfoldable pub eos_page : ℕ → ℕ → ℕ → List ℕ
unfolding sealed
eos_page granulepos serial seq = sealed 4 granulepos serial seq 0 []
