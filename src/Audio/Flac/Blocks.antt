-- ===== src/Audio/Flac/Blocks.antt =====
-- When a FLAC recorder returns and when it panics.
use espmic.Common.{
  ℕ, zero, suc, ◌+◌, ◌*◌, ◌≡◌, ◌≢◌, ◌<◌, ◌≤◌, ◌↔◌, inl, inr, Bool, true, false, Bool-cases, Option,
  none, some, List, [], ◌∷◌, ◌++◌, leb, length, take, drop, length-drop, arith, refl, sym, subst,
  ap₂, ◌∙◌,
}
use espmic.Common.Int.{ℤ}
use espmic.Audio.Flac.{
  Frame, FlacRecorder, sample, channel_data, deinterleave, Outcome, done, encode, write_block,
  encode_blocks, on_pcm, finalize, finalize_panics,
}

sample-inside : (xs : List ℤ) (k : ℕ) → k < length xs → (x : ℤ) × (sample xs k ≡ some x)
unfolding sample
sample-inside [] k h = ground arith
sample-inside (x ∷ xs) zero h = (x, refl)
sample-inside (x ∷ xs) (suc k) h = sample-inside xs k (ground arith)

sample-outside : (xs : List ℤ) (k : ℕ) → length xs ≤ k → sample xs k ≡ none
unfolding sample
sample-outside [] k h = refl
sample-outside (x ∷ xs) zero h = ground arith
sample-outside (x ∷ xs) (suc k) h = sample-outside xs k (ground arith)

suc_mul : (n m : ℕ) → suc n * m ≡ m + n * m
suc_mul n m = omega arith

channel_data-inside :
    (pcm : List ℤ) (channels at n : ℕ)
    → at + n * channels < length pcm + channels
    → (xs : List ℤ) × (channel_data pcm channels at n ≡ some xs)
unfolding channel_data
channel_data-inside pcm channels at zero h = ([], refl)
channel_data-inside pcm channels at (suc n) h =
    let (x, p) = sample-inside pcm at (ground (arith, suc_mul n channels)) in
    let (xs, q) =
      channel_data-inside pcm channels (at + channels) n (ground (arith, suc_mul n channels)) in
    (x ∷ xs, ground arith)

channel_data-outside :
    (pcm : List ℤ) (channels at n : ℕ)
    → length pcm ≤ at + n * channels
    → channel_data pcm channels at (suc n) ≡ none
unfolding channel_data
channel_data-outside pcm channels at zero h = ground (arith, sample-outside pcm at (ground arith))
channel_data-outside pcm channels at (suc n) h = ground (
  arith,
  channel_data-outside pcm channels (at + channels) n (ground (arith, suc_mul n channels)),
)

deinterleave-inside :
    (pcm : List ℤ) (block_size channels at n : ℕ)
    → at + n ≤ channels
    → block_size * channels ≤ length pcm
    → (xs : List (List ℤ)) × (deinterleave pcm block_size channels at n ≡ some xs)
unfolding deinterleave
deinterleave-inside pcm block_size channels at zero h k = ([], refl)
deinterleave-inside pcm block_size channels at (suc n) h k =
    let (x, p) = channel_data-inside pcm channels at block_size (ground arith) in
    let (xs, q) = deinterleave-inside pcm block_size channels (suc at) n (ground arith) k in
    (x ∷ xs, ground arith)

deinterleave-outside :
    (pcm : List ℤ) (block_size channels at n : ℕ)
    → suc at + n ≡ channels
    → length pcm < suc block_size * channels
    → deinterleave pcm (suc block_size) channels at (suc n) ≡ none
unfolding deinterleave
deinterleave-outside pcm block_size channels at zero h k = ground (
  arith,
  channel_data-outside pcm channels at block_size (ground (arith, suc_mul block_size channels)),
)
deinterleave-outside pcm block_size channels at (suc n) h k =
    ground (arith, deinterleave-outside pcm block_size channels (suc at) n (ground arith) k)

length-take : (n : ℕ) (xs : List ℤ) → n ≤ length xs → length (take n xs) ≡ n
length-take zero xs h = refl
length-take (suc n) [] h = ground arith
length-take (suc n) (x ∷ xs) h = ground (arith, length-take n xs (ground arith))

module _ {E : Type 0} (write_frame : E → Frame → E × Bool) where
  write_block-returns :
      (r : FlacRecorder E) (pcm : List ℤ)
      → r.block_size * r.channels ≤ length pcm
      → (s : FlacRecorder E) × (write_block write_frame r pcm ≡ some s)
        × (s.block_size ≡ r.block_size)
        × (s.channels ≡ r.channels)
        × (s.closed ≡ r.closed)
  unfolding write_block encode
  write_block-returns r pcm h =
      let (chs, p) =
        deinterleave-inside pcm r.block_size r.channels 0 r.channels (ground arith) h in
      (encode write_frame r chs, ground arith, refl, refl, refl)

  write_block-panics :
      (r : FlacRecorder E) (pcm : List ℤ)
      → length pcm < r.block_size * r.channels
      → write_block write_frame r pcm ≡ none
  unfolding write_block
  write_block-panics r pcm h = short r.block_size r.channels h
    where
      short :
          (b c : ℕ)
          → length pcm < b * c
          → (elim (deinterleave pcm b c 0 c) as (λ x. Option (FlacRecorder E)) [
            | none ↦ none
            | some ch_data ↦ some (encode write_frame r ch_data)
          ])
            ≡ none
      short zero c k = ground arith
      short (suc b) zero k = ground arith
      short (suc b) (suc c) k =
          ground (arith, deinterleave-outside pcm b (suc c) 0 c (omega arith) k)

  -- What is left of the buffer once every whole block is encoded.
  abbrev pub Drained : FlacRecorder E → Outcome E → Type 0
  Drained r o =
      (s : FlacRecorder E) × (o ≡ done s)
      × (length s.buf < s.block_size * s.channels)
      × (s.block_size ≡ r.block_size)
      × (s.channels ≡ r.channels)
      × (s.closed ≡ r.closed)

  encode_blocks-Drained :
      (n : ℕ) (r : FlacRecorder E)
      → 0 < r.block_size * r.channels
      → length r.buf < n
      → Drained r (encode_blocks write_frame n r)
  unfolding encode_blocks
  encode_blocks-Drained zero r h k = ground arith
  encode_blocks-Drained (suc n) r h k =
      elim (Bool-cases (leb (r.block_size * r.channels) (length r.buf))) [
        | inr e ↦ (r, ground arith, ground arith, refl, refl, refl)
        | inl e ↦
            let m = r.block_size * r.channels in
            let (w, p, bs, ch, cl) =
              write_block-returns r (take m r.buf) (ground (arith, length-take m r.buf)) in
            let (s, q, short, bs', ch', cl') =
              encode_blocks-Drained n (record w { buf = drop m r.buf })
                (subst (λ z. 0 < z) (sym (ap₂ (λ x y. x * y) bs ch)) h)
                (ground (arith, length-drop m r.buf)) in
            (s, ground arith, short, bs' ∙ bs, ch' ∙ ch, cl' ∙ cl)
      ]

  -- A recorder whose blocks are not empty takes any samples without a panic and in finitely many
  -- rounds, and keeps less than a block of them, if it is not closed.
  pub on_pcm-Drained :
      (r : FlacRecorder E) (pcm : List ℤ)
      → 0 < r.block_size * r.channels
      → r.closed ≡ false
      → Drained r (on_pcm write_frame r (some pcm))
  unfolding on_pcm
  on_pcm-Drained r pcm h k =
      let (s, q, short, bs, ch, cl) =
        encode_blocks-Drained (suc (length (r.buf ++ pcm))) (record r { buf = r.buf ++ pcm }) h
          (omega arith) in
      (s, ground arith, short, bs, ch, cl)

  -- Finalizing an open recorder that holds less than a block panics exactly if it holds samples.
  pub finalize-panics :
      (r : FlacRecorder E)
      → length r.buf < r.block_size * r.channels
      → r.closed ≡ false
      → (finalize write_frame r ≡ finalize_panics) ↔ (r.buf ≢ [])
  unfolding finalize
  finalize-panics r h k = (λ e empty. ground arith, λ ne. nonempty r.buf refl ne)
    where
      nonempty : (b : List ℤ) → r.buf ≡ b → b ≢ [] → finalize write_frame r ≡ finalize_panics
      nonempty [] e ne = absurd (ne refl)
      nonempty (x ∷ xs) e ne =
          ground (arith, write_block-panics (record r { closed = true }) r.buf h)
