-- ===== src/Audio/OpusRecorder.antt =====
-- server/internal/audio/opus_recorder.go: the recorder of received Opus packets.
--
-- The file is the list of the pages written to it; the errors of its writes are dropped in the
-- source. The channel to the writer is the queue `ch`. Each of WritePacket, one packet of the
-- writer, and Finalize is one step; Finalize lets the writer drain the queue before the last page.
-- The timestamp in a queued packet, which nothing reads, is left out, and so are the instants.
-- Granule positions and the counters of type int64 stay below 2^63; `rate` is not negative.
pub mod Pages
pub mod Recording
use espmic.Common.{
  ℕ, suc, ◌+◌, ◌/◌, ◌%◌, ◌^◌, ◌≡◌, Bool, true, false, Option, none, some, List, [], ◌∷◌, ◌++◌, ltb,
  leb, ◌==◌, if◌then◌else◌, length,
}
use espmic.Audio.Ogg.{put_uint16, put_uint32, page, eos_page}

pub record OpusRecorder : Type 0 where
  pub serial : ℕ
  pub seq : ℕ
  pub preskip : ℕ
  pub channels : ℕ
  pub rate : ℕ
  pub prev_gp : ℕ
  pub seen : ℕ
  pub written : ℕ
  pub file : List (List ℕ)
  pub bytes : ℕ
  pub closed : Bool
  pub ch : List (List ℕ)

abbrev pub warmup_skip : ℕ
warmup_skip = 2

abbrev pub channel_capacity : ℕ
channel_capacity = 256

-- `f.Write(page)`, with the counts.
unfoldable pub write_bytes : OpusRecorder → List ℕ → OpusRecorder
write_bytes r bytes = record r {
  file = r.file ++ (bytes ∷ []);
  seq = (r.seq + 1) % 2 ^ 32;
  bytes = r.bytes + length bytes;
}

unfoldable pub write_page : OpusRecorder → ℕ → List ℕ → OpusRecorder
unfolding write_bytes
write_page r granulepos payload = write_bytes r (page 0 granulepos r.serial r.seq payload)

-- "OpusHead" and its fields.
unfoldable pub opus_head : OpusRecorder → List ℕ
opus_head r =
    79
    ∷ 112
    ∷ 117
    ∷ 115
    ∷ 72
    ∷ 101
    ∷ 97
    ∷ 100
    ∷ 1
    ∷ r.channels % 256
    ∷ (put_uint16 r.preskip ++ (put_uint32 r.rate ++ (put_uint16 0 ++ (0 ∷ []))))

unfoldable pub write_opus_head : OpusRecorder → OpusRecorder
unfolding write_bytes
write_opus_head r = write_bytes r (page 2 0 r.serial r.seq (opus_head r))

-- "OpusTags", the vendor "espmic", and no comments.
unfoldable pub opus_tags : List ℕ
opus_tags =
    79
    ∷ 112
    ∷ 117
    ∷ 115
    ∷ 84
    ∷ 97
    ∷ 103
    ∷ 115
    ∷ (put_uint32 6 ++ (101 ∷ 115 ∷ 112 ∷ 109 ∷ 105 ∷ 99 ∷ put_uint32 0))

unfoldable pub write_opus_tags : OpusRecorder → OpusRecorder
unfolding write_page
write_opus_tags r = write_page r 0 opus_tags

-- The recorder of a file that could be created.
unfoldable pub new_opus_recorder : ℕ → ℕ → ℕ → ℕ → OpusRecorder
unfolding write_opus_head write_opus_tags
new_opus_recorder serial rate channels preskip = write_opus_tags (
    write_opus_head (record {
      serial = serial;
      seq = 0;
      preskip = preskip;
      channels = channels;
      rate = rate;
      prev_gp = 0;
      seen = 0;
      written = 0;
      file = [];
      bytes = 0;
      closed = false;
      ch = [];
    }))

-- The granule position of the packet that is being written.
abbrev pub granule : OpusRecorder → ℕ
granule r = if r.written == 0 then r.preskip else r.prev_gp + r.rate / 50

unfoldable pub write_page_for_packet : OpusRecorder → List ℕ → OpusRecorder
unfolding write_page
write_page_for_packet r payload =
    let s = record r { seen = r.seen + 1 } in
    if leb s.seen warmup_skip
    then s
    else write_page (record s { written = r.written + 1; prev_gp = granule r }) (granule r) payload

unfoldable pub write_packet : OpusRecorder → List ℕ → OpusRecorder
write_packet r payload =
    if r.closed
    then r
    else if ltb (length r.ch) channel_capacity
    then record r { ch = r.ch ++ (payload ∷ []) }
    else r

-- The writer takes packets off the queue.
unfoldable pub write_all : OpusRecorder → List (List ℕ) → OpusRecorder
write_all r [] = r
write_all r (p ∷ ps) = write_all (write_page_for_packet r p) ps

unfoldable pub writer_step : OpusRecorder → OpusRecorder
unfolding write_page_for_packet
writer_step r = elim r.ch [ [] ↦ r | p ∷ ps ↦ write_page_for_packet (record r { ch = ps }) p ]

unfoldable pub write_eos_page : OpusRecorder → ℕ → OpusRecorder
unfolding write_bytes
write_eos_page r granulepos = write_bytes r (eos_page granulepos r.serial r.seq)

-- None is the error of a second call.
unfoldable pub finalize : OpusRecorder → Option OpusRecorder
finalize r =
    if r.closed
    then none
    else let drained = write_all (record r { closed = true; ch = [] }) r.ch in
      some (write_eos_page drained drained.prev_gp)
