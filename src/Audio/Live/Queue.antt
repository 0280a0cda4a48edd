-- ===== src/Audio/Live/Queue.antt =====
-- What a live client is sent.
use espmic.Common.{
  ℕ, ◌≡◌, ◌≤◌, Bool, Option, none, some, String, List, [], ◌∷◌, ◌++◌, if◌then◌else◌, ltb, length,
  map, arith, refl, ap, ap₂, sym, length-append, append_assoc, Bool-cases, inl, inr,
}
use espmic.Common.Int.{ℤ, pos, negsuc}
use espmic.Audio.Bus.{PcmBus}
use espmic.Audio.Frame.{DecodedAudioFrame}
use espmic.Audio.Live.{LiveOutput, capacity, on_pcm, write_next, leave, pcm_bytes, byte_of, shifted}
use espmic.Audio.Ogg.{put_uint16}
use espmic.Audio.Wav as Wav

sample_bytes : (s : ℤ) → put_uint16 (Wav.uint16_of s) ≡ byte_of s ∷ byte_of (shifted s) ∷ []
unfolding put_uint16
sample_bytes (pos n) = ap₂ (λ a b. a ∷ b ∷ []) (omega arith) (omega arith)
sample_bytes (negsuc n) = ap₂ (λ a b. a ∷ b ∷ []) (omega arith) (omega arith)

-- A live client is sent the bytes that the recorder writes to its file.
pub pcm_bytes-wav : (pcm : List ℤ) → pcm_bytes pcm ≡ Wav.pcm_bytes pcm
unfolding pcm_bytes Wav.pcm_bytes
pcm_bytes-wav [] = refl
pcm_bytes-wav (s ∷ pcm) = ap₂ (λ l rest. l ++ rest) (sym (sample_bytes s)) (pcm_bytes-wav pcm)

-- The bus calls OnPCM, or the loop writes, well or not.
pub data Event : Type 0 where
  heard : DecodedAudioFrame → Event
  writes : Bool → Event

pub record Client : Type 0 where
  pub output : LiveOutput
  pub bus : PcmBus
  pub queued : List DecodedAudioFrame
  pub messages : List (List ℕ)

abbrev also : {A : Type 0} → List A → Option A → List A
also l none = l
also l (some x) = l ++ (x ∷ [])

module _ (name : String) where
  abbrev step : Client → Event → Client
  step c (heard f) = record c {
    output = on_pcm c.output f;
    queued = if ltb (length c.output.send_ch) capacity then c.queued ++ (f ∷ []) else c.queued;
  }
  step c (writes well) =
      if c.output.running
      then (let r = write_next c.bus name c.output well in
          record c { output = r.0.0; bus = r.0.1; messages = also c.messages r.1 })
      else c

  abbrev pub run : Client → List Event → Client
  run c [] = c
  run c (e ∷ es) = run (step c e) es

  abbrev bytes : DecodedAudioFrame → List ℕ
  bytes f = pcm_bytes f.pcm

  -- What was queued is what was sent, then what is left.
  abbrev pub InTurn : Client → Type 0
  InTurn c =
      (map bytes c.queued ≡ c.messages ++ map bytes c.output.send_ch)
      × (length c.output.send_ch ≤ capacity)

  map-append : (a b : List DecodedAudioFrame) → map bytes (a ++ b) ≡ map bytes a ++ map bytes b
  map-append [] b = refl
  map-append (x ∷ a) b = ap (λ l. bytes x ∷ l) (map-append a b)

  InTurn-heard : (c : Client) (f : DecodedAudioFrame) → InTurn c → InTurn (step c (heard f))
  unfolding on_pcm
  InTurn-heard c f (q, small) = elim (Bool-cases (ltb (length c.output.send_ch) capacity)) [
    | inl e ↦
        let a = map-append c.queued (f ∷ []) in
        let b = map-append c.output.send_ch (f ∷ []) in
        let d = append_assoc c.messages (map bytes c.output.send_ch) (map bytes (f ∷ [])) in
        let n = length-append c.output.send_ch (f ∷ []) in
        (ground (arith, a, b, d, q), ground (arith, n))
    | inr e ↦ (ground arith, ground arith)
  ]

  -- One round of the loop, by the frames that wait.
  InTurn-next :
      (c : Client) (well : Bool) (waiting : List DecodedAudioFrame)
      → c.output.send_ch ≡ waiting
      → InTurn c
      → InTurn (step c (writes well))
  unfolding write_next leave
  InTurn-next c well [] e (q, small) = elim (Bool-cases c.output.running) [
    | inl r ↦ (ground arith, ground arith)
    | inr r ↦ (ground arith, ground arith)
  ]
  InTurn-next c well (f ∷ rest) e (q, small) =
      let d = append_assoc c.messages (bytes f ∷ []) (map bytes rest) in
      elim (Bool-cases c.output.running) [
        | inl r ↦ elim (Bool-cases well) [
          | inl w ↦ (ground (arith, d), ground arith)
          | inr w ↦ (ground (arith, d), ground arith)
        ]
        | inr r ↦ (ground arith, ground arith)
      ]

  -- In whatever order the bus calls and the loop writes: if a client has been given, as bytes, the
  -- frames that its queue had room for, in their order, but those still in the queue, which holds
  -- 32 at most, so it has afterwards.
  pub run-InTurn : (c : Client) (es : List Event) → InTurn c → InTurn (run c es)
  run-InTurn c [] v = v
  run-InTurn c (heard f ∷ es) v = run-InTurn (step c (heard f)) es (InTurn-heard c f v)
  run-InTurn c (writes well ∷ es) v =
      run-InTurn (step c (writes well)) es (InTurn-next c well c.output.send_ch refl v)
