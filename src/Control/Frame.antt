-- ===== src/Control/Frame.antt =====
-- server/internal/control/frame.go, and the readFrame method of session.go: frames with a length
-- prefix. Bytes are numbers; a connection is the list of what its reads return.
pub mod Stream
pub mod RoundTrip
use espmic.Common.{
  ℕ, zero, suc, ◌+◌, ◌-◌, ◌*◌, ◌/◌, ◌%◌, ◌^◌, ◌≡◌, Bool, true, false, not, Option, none, some, List,
  [], ◌∷◌, ◌++◌, ltb, leb, ◌==◌, if◌then◌else◌, length, take, drop,
}

abbrev pub max_payload_bytes : ℕ
max_payload_bytes = 16384

-- binary.BigEndian: four bytes of a uint32, and back.
unfoldable pub put_uint32 : ℕ → List ℕ
put_uint32 n = n / 16777216 % 256 ∷ n / 65536 % 256 ∷ n / 256 % 256 ∷ n % 256 ∷ []

unfoldable pub uint32 : List ℕ → ℕ
uint32 (a ∷ b ∷ c ∷ d ∷ rest) = a * 16777216 + b * 65536 + c * 256 + d
uint32 short = 0

-- A reader that returns these bytes and then the end of the stream; `io.ReadFull` on it.
pub data ReadError : Type 0 where
  eof unexpected_eof frame_too_large : ReadError

pub data ReadResult : Type 0 where
  ok : List ℕ → List ℕ → ReadResult
  err : ReadError → ReadResult

unfoldable pub read_full : ℕ → List ℕ → ReadResult
read_full n xs =
    if leb n (length xs)
    then ok (take n xs) (drop n xs)
    else if length xs == 0
    then err eof
    else err unexpected_eof

unfoldable pub read_body : List ℕ → List ℕ → ReadResult
read_body hdr rest =
    if ltb max_payload_bytes (uint32 hdr) then err frame_too_large else read_full (uint32 hdr) rest

-- `ReadFrame`: the payload, and what is left of the stream.
unfoldable pub read_frame : List ℕ → ReadResult
read_frame r = elim (read_full 4 r) [ err e ↦ err e | ok hdr rest ↦ read_body hdr rest ]

-- A writer: what `Write` does to it, and the error it returns.
pub record Writer (W E : Type 0) : Type 0 where
  pub write : W → List ℕ → W × Option E

pub data WriteError (E : Type 0) : Type 0 where
  payload_too_large : WriteError E
  write_failed : E → WriteError E

abbrev as_failed : {W E : Type 0} → W × Option E → W × Option (WriteError E)
as_failed (w, none) = (w, none)
as_failed (w, some e) = (w, some (write_failed e))

abbrev then_write : {W E : Type 0} → Writer W E → List ℕ → W × Option E → W × Option (WriteError E)
then_write io payload (w, some e) = (w, some (write_failed e))
then_write io payload (w, none) = as_failed (io.write w payload)

unfoldable pub write_frame : {W E : Type 0} → Writer W E → W → List ℕ → W × Option (WriteError E)
unfolding put_uint32
write_frame io w payload =
    if ltb max_payload_bytes (length payload)
    then (w, some payload_too_large)
    else then_write io payload (io.write w (put_uint32 (length payload % 2 ^ 32)))

pub record FrameReader : Type 0 where
  pub buf : List ℕ

-- `next` returns a payload and the buffer behind it, asks for more, or fails.
pub data Next : Type 0 where
  frame_complete : List ℕ → List ℕ → Next
  frame_need_more frame_error : Next

unfoldable pub next : List ℕ → Next
unfolding uint32
next buf =
    if ltb (length buf) 4
    then frame_need_more
    else if ltb max_payload_bytes (uint32 buf)
    then frame_error
    else if ltb (length buf) (4 + uint32 buf)
    then frame_need_more
    else frame_complete (take (uint32 buf) (drop 4 buf)) (drop (4 + uint32 buf) buf)

-- The results of `Push`: the frames, `needMore`, whether the error is ErrFrameTooLarge, and the
-- buffer it leaves.
pub record Pushed : Type 0 where
  pub frames : List (List ℕ)
  pub need_more : Bool
  pub too_large : Bool
  pub left : FrameReader

-- The loop of `Push` on fuel; `none` means that the fuel ran out.
unfoldable pub push_loop : ℕ → List ℕ → List (List ℕ) → Option Pushed
push_loop zero buf frames = none
push_loop (suc fuel) buf frames = elim (next buf) [
  | frame_error ↦
      some (record {
        frames = frames;
        need_more = false;
        too_large = true;
        left = record { buf = buf };
      })
  | frame_need_more ↦ some (record {
    frames = frames;
    need_more = ltb 0 (length buf);
    too_large = false;
    left = record { buf = buf };
  })
  | frame_complete payload rest ↦ push_loop fuel rest (frames ++ (payload ∷ []))
]

-- Each frame takes four bytes at least.
unfoldable pub push : FrameReader → List ℕ → Option Pushed
unfolding push_loop
push fr data_in = push_loop (suc (length (fr.buf ++ data_in))) (fr.buf ++ data_in) []

-- What readFrame returns: a payload, the reader and the reads that are left; an error; or none,
-- where the loop of `Push` ran out of fuel.
pub data Received : Type 0 where
  got : List ℕ → FrameReader → List (List ℕ) → Received
  read_failed too_large_frame stuck : Received

-- One turn of the loop of readFrame, with the rest of it.
abbrev received : Option Pushed → List (List ℕ) → (FrameReader → Received) → Received
received none reads again = stuck
received (some r) reads again = if r.too_large then too_large_frame else elim r.frames [
  | p ∷ ps ↦ got p r.left reads
  | [] ↦ if not r.need_more then too_large_frame else again r.left
]

-- `Session.readFrame` over the reads still to come; the connection fails after the last. A read is of
-- any length here, of 1024 bytes at most in the source.
unfoldable pub receive_frame : List (List ℕ) → FrameReader → Received
unfolding push
receive_frame [] fr = read_failed
receive_frame (chunk ∷ reads) fr = received (push fr chunk) reads (receive_frame reads)
