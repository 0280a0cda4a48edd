-- ===== src/Audio/Ogg/Reader.antt =====
-- A reader of Ogg pages, after RFC 3533, gives back what was written.
use espmic.Common.{
  ℕ, zero, suc, ◌+◌, ◌-◌, ◌*◌, ◌/◌, ◌%◌, ◌≡◌, ◌∙◌, ◌<◌, Option, none, some, List, [], ◌∷◌, ◌++◌,
  ltb, ◌==◌, if◌then◌else◌, length, length-append, take, drop, arith, refl, ap, append_assoc,
  take-append_length, drop-append_length, ◌&&◌,
}
use espmic.Audio.Ogg.{
  put_uint32, put_uint64, ogg_crc, segments, segment_count, header, sealed, page,
}

pub record Page : Type 0 where
  pub flag : ℕ
  pub granulepos : ℕ
  pub serial : ℕ
  pub seq : ℕ
  pub crc : ℕ
  pub payload : List ℕ

abbrev pub get_uint32 : ℕ → ℕ → ℕ → ℕ → ℕ
get_uint32 a b c d = a + b * 256 + c * 65536 + d * 16777216

abbrev pub sum : List ℕ → ℕ
sum [] = 0
sum (x ∷ xs) = x + sum xs

-- The data behind a header and its table, and what follows the page.
abbrev pub read_body : ℕ → ℕ → ℕ → ℕ → ℕ → ℕ → List ℕ → Option (Page × List ℕ)
read_body flag gp serial seq crc nseg rest =
    let table = take nseg rest in
    let behind = drop nseg rest in
    if ltb (length rest) nseg
    then none
    else if ltb (length behind) (sum table)
    then none
    else some (
      record {
        flag = flag;
        granulepos = gp;
        serial = serial;
        seq = seq;
        crc = crc;
        payload = take (sum table) behind;
      },
      drop (sum table) behind,
    )

-- The capture pattern and the version are checked.
abbrev pub read_page : List ℕ → Option (Page × List ℕ)
read_page
      (o ∷ g ∷ g' ∷ s ∷ v ∷ flag ∷ p0 ∷ p1 ∷ p2 ∷ p3 ∷ p4 ∷ p5 ∷ p6 ∷ p7 ∷ a0 ∷ a1 ∷ a2 ∷ a3 ∷ b0
        ∷ b1 ∷ b2 ∷ b3 ∷ c0 ∷ c1 ∷ c2 ∷ c3 ∷ nseg ∷ rest) =
    if o == 79 && g == 103 && g' == 103 && s == 83 && v == 0
    then read_body flag (get_uint32 p0 p1 p2 p3 + get_uint32 p4 p5 p6 p7 * 4294967296)
        (get_uint32 a0 a1 a2 a3) (get_uint32 b0 b1 b2 b3) (get_uint32 c0 c1 c2 c3) nseg rest
    else none
read_page short = none

uint32_back :
    (n : ℕ)
    → get_uint32 (n % 256) (n / 256 % 256) (n / 65536 % 256) (n / 16777216 % 256) ≡ n % 4294967296
uint32_back n = omega arith

length-segments : (n r : ℕ) → length (segments n r) ≡ n
unfolding segments
length-segments zero r = refl
length-segments (suc n) r = ground (arith, length-segments n (r - 255), length-segments n 0)

sum-segments_zero : (n : ℕ) → sum (segments n 0) ≡ 0
unfolding segments
sum-segments_zero zero = refl
sum-segments_zero (suc n) = ground (arith, sum-segments_zero n)

sum-segments : (n r : ℕ) → r < n * 255 → sum (segments n r) ≡ r
unfolding segments
sum-segments zero r h = ground arith
sum-segments (suc n) r h = ground (arith, sum-segments n (r - 255), sum-segments_zero n)

-- A body with its table is read back whole.
read_body-append :
    (flag gp serial seq crc : ℕ) (table payload rest : List ℕ)
    → sum table ≡ length payload
    → read_body flag gp serial seq crc (length table) (table ++ (payload ++ rest))
      ≡ some (
        record {
          flag = flag;
          granulepos = gp;
          serial = serial;
          seq = seq;
          crc = crc;
          payload = payload;
        },
        rest,
      )
read_body-append flag gp serial seq crc table payload rest e = ground (
  arith,
  take-append_length table (payload ++ rest),
  drop-append_length table (payload ++ rest),
  take-append_length payload rest,
  drop-append_length payload rest,
  length-append table (payload ++ rest),
  length-append payload rest,
)

uint64_back :
    (n : ℕ) → n % 4294967296 + n / 4294967296 % 4294967296 * 4294967296 ≡ n % 18446744073709551616
uint64_back n = omega arith

read_page-header :
    (flag gp serial seq crc nseg : ℕ) (rest : List ℕ)
    → read_page (header flag gp serial seq crc nseg ++ rest)
      ≡ read_body flag
          (gp % 18446744073709551616)
          (serial % 4294967296)
          (seq % 4294967296)
          (crc % 4294967296)
          (nseg % 256)
          rest
unfolding header put_uint64 put_uint32
read_page-header flag gp serial seq crc nseg rest = rw (
  uint32_back gp,
  uint32_back (gp / 4294967296),
  uint64_back gp,
  uint32_back serial,
  uint32_back seq,
  uint32_back crc,
)

regroup : (h t p r : List ℕ) → (h ++ (t ++ p)) ++ r ≡ h ++ (t ++ (p ++ r))
regroup h t p r = simp append_assoc

length_fits :
    (payload : List ℕ)
    → length payload < 65025
    → segment_count payload % 256 ≡ length (segments (segment_count payload) (length payload))
length_fits payload h = omega (arith, length-segments (segment_count payload) (length payload))

-- A page with a payload of less than 65025 bytes, the most that one page holds, is read back: its
-- flag, its numbers modulo their widths, the checksum of the page with none, and its payload, with
-- what follows the page left over.
pub read_page-page :
    (flag granulepos serial seq : ℕ) (payload rest : List ℕ)
    → length payload < 65025
    → let n = segment_count payload in
      let body = segments n (length payload) ++ payload in
      read_page (page flag granulepos serial seq payload ++ rest)
      ≡ some (
        record {
          flag = flag;
          granulepos = granulepos % 18446744073709551616;
          serial = serial % 4294967296;
          seq = seq % 4294967296;
          crc = ogg_crc (header flag granulepos serial seq 0 n ++ body) % 4294967296;
          payload = payload;
        },
        rest,
      )
unfolding page sealed
read_page-page flag granulepos serial seq payload rest h =
    let n = segment_count payload in
    let table = segments n (length payload) in
    let body = table ++ payload in
    let crc = ogg_crc (header flag granulepos serial seq 0 n ++ body) in
    let fits : n % 256 ≡ length table = length_fits payload h in
    let total : sum table ≡ length payload = sum-segments n (length payload) (omega arith) in
    ap read_page (regroup (header flag granulepos serial seq crc n) table payload rest)
    ∙ read_page-header flag granulepos serial seq crc n (table ++ (payload ++ rest))
    ∙ ap
        (λ k.
          read_body flag (granulepos % 18446744073709551616) (serial % 4294967296)
            (seq % 4294967296) (crc % 4294967296) k (table ++ (payload ++ rest)))
        fits
    ∙ read_body-append flag (granulepos % 18446744073709551616) (serial % 4294967296)
        (seq % 4294967296) (crc % 4294967296) table payload rest total
