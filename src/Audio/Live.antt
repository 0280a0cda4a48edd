-- ===== src/Audio/Live.antt =====
-- server/internal/audio/live.go: a WebSocket client that hears the decoded sound.
--
-- The steps of the write loop are OnPCM's and its own, one at a time: `written` says whether
-- WriteMessage succeeds. The upgrade, and the socket's reads until its close, are the library's; a
-- closed socket reaches the loop as the end of its context.
pub mod Queue
use espmic.Common.{
  ℕ, ◌-◌, ◌/◌, ◌%◌, Bool, true, false, Option, none, some, String, List, [], ◌∷◌, ◌++◌,
  if◌then◌else◌, ltb, length,
}
use espmic.Audio.Bus.{PcmBus, subscribe, unsubscribe}
use espmic.Audio.Frame.{DecodedAudioFrame}
use espmic.Common.Int.{ℤ, pos, negsuc}

-- `byte(s)` and `s >> 8`.
abbrev pub byte_of : ℤ → ℕ
byte_of (pos n) = n % 256
byte_of (negsuc n) = 255 - n % 256

abbrev pub shifted : ℤ → ℤ
shifted (pos n) = pos (n / 256)
shifted (negsuc n) = negsuc (n / 256)

unfoldable pub pcm_bytes : List ℤ → List ℕ
pcm_bytes [] = []
pcm_bytes (s ∷ pcm) = byte_of s ∷ byte_of (shifted s) ∷ pcm_bytes pcm

abbrev pub capacity : ℕ
capacity = 32

pub record LiveOutput : Type 0 where
  pub send_ch : List DecodedAudioFrame
  pub running : Bool

abbrev pub new_live_output : LiveOutput
new_live_output = record { send_ch = []; running = true }

-- NewLiveOutput of an upgraded socket, under its name.
unfoldable pub join_bus : PcmBus → String → LiveOutput × PcmBus
unfolding subscribe
join_bus b name = (new_live_output, subscribe b name)

unfoldable pub on_pcm : LiveOutput → DecodedAudioFrame → LiveOutput
on_pcm l frame =
    if ltb (length l.send_ch) capacity then record l { send_ch = l.send_ch ++ (frame ∷ []) } else l

-- The loop has ended: the output leaves the bus.
unfoldable pub leave : PcmBus → String → LiveOutput → LiveOutput × PcmBus
unfolding unsubscribe
leave b name l = (record l { running = false }, unsubscribe b name)

abbrev wrote : PcmBus → String → LiveOutput → Bool → List DecodedAudioFrame → LiveOutput × PcmBus
wrote b name l written rest =
    let taken = record l { send_ch = rest } in if written then (taken, b) else leave b name taken

-- One round with a frame to send, and the message; the loop waits where there is none.
unfoldable pub write_next :
    PcmBus → String → LiveOutput → Bool → (LiveOutput × PcmBus) × Option (List ℕ)
unfolding leave pcm_bytes
write_next b name l written = elim (l.send_ch) [
  | [] ↦ ((l, b), none)
  | frame ∷ rest ↦ (wrote b name l written rest, some (pcm_bytes frame.pcm))
]
