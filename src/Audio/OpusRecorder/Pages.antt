-- ===== src/Audio/OpusRecorder/Pages.antt =====
-- The file that a recording ends up as.
use espmic.Common.{
  ℕ, ◌+◌, ◌/◌, ◌%◌, ◌^◌, ◌≡◌, ◌∙◌, ◌≤◌, List, [], ◌∷◌, ◌++◌, drop, arith, refl, ap, sym,
  append_assoc, append-nil, ap₂, append-nil, ap₂,
}
use espmic.Audio.Ogg.{page}
use espmic.Audio.OpusRecorder.{OpusRecorder, write_page_for_packet, write_all, warmup_skip}

-- The data pages of these packets: granule positions a frame apart, page numbers one apart.
abbrev pub data_pages : ℕ → ℕ → ℕ → ℕ → List (List ℕ) → List (List ℕ)
data_pages serial step gp seq [] = []
data_pages serial step gp seq (p ∷ ps) =
    page 0 gp serial seq p ∷ data_pages serial step (gp + step) ((seq + 1) % 2 ^ 32) ps

-- The page number after so many packets, and the granule position of the last of them.
abbrev pub number_after : ℕ → List (List ℕ) → ℕ
number_after seq [] = seq
number_after seq (p ∷ ps) = number_after ((seq + 1) % 2 ^ 32) ps

abbrev pub last_granule : ℕ → ℕ → List (List ℕ) → ℕ
last_granule gp step [] = gp
last_granule gp step (p ∷ ps) = last_granule (gp + step) step ps

-- The granule position at the end, with `idle` before any packet and `first` at the first.
abbrev pub end_granule : ℕ → ℕ → ℕ → List (List ℕ) → ℕ
end_granule idle first step [] = idle
end_granule idle first step (p ∷ ps) = last_granule first step ps

-- One packet, past the warm-up, with some page written.
page-running :
    (r : OpusRecorder) (p : List ℕ)
    → 2 ≤ r.seen
    → 1 ≤ r.written
    → let t = write_page_for_packet r p in
      (t.file ≡ r.file ++ (page 0 (r.prev_gp + r.rate / 50) r.serial r.seq p ∷ []))
      × (t.seq ≡ (r.seq + 1) % 2 ^ 32)
      × (t.prev_gp ≡ r.prev_gp + r.rate / 50)
      × (t.serial ≡ r.serial)
      × (2 ≤ t.seen)
      × (1 ≤ t.written)
      × (t.rate ≡ r.rate)
unfolding write_page_for_packet
page-running r p h k = ground arith

write_all-running :
    (r : OpusRecorder) (ps : List (List ℕ))
    → 2 ≤ r.seen
    → 1 ≤ r.written
    → let t = write_all r ps in
      (t.file ≡ r.file ++ data_pages r.serial (r.rate / 50) (r.prev_gp + r.rate / 50) r.seq ps)
      × (t.seq ≡ number_after r.seq ps)
      × (t.prev_gp ≡ last_granule r.prev_gp (r.rate / 50) ps)
      × (t.serial ≡ r.serial)
unfolding write_all
write_all-running r [] h k = (sym (append-nil r.file), refl, refl, refl)
write_all-running r (p ∷ ps) h k =
    let t = write_page_for_packet r p in
    let (f, s, g, n, x, y, q) = page-running r p h k in
    let (a, b, c, d) = write_all-running t ps x y in
    let here = page 0 (r.prev_gp + r.rate / 50) r.serial r.seq p in
    (
      a
          ∙ ap₂ (λ u v. u ++ v) f (λ i. data_pages (n i) (q i / 50) (g i + q i / 50) (s i) ps)
          ∙ append_assoc r.file (here ∷ []) _,
      b ∙ ap (λ z. number_after z ps) s,
      c ∙ (λ i. last_granule (g i) (q i / 50) ps),
      d ∙ n,
    )

-- The first packet that is kept.
page-first :
    (r : OpusRecorder) (p : List ℕ)
    → r.seen ≡ 2
    → r.written ≡ 0
    → let t = write_page_for_packet r p in
      (t.file ≡ r.file ++ (page 0 r.preskip r.serial r.seq p ∷ []))
      × (t.seq ≡ (r.seq + 1) % 2 ^ 32)
      × (t.prev_gp ≡ r.preskip)
      × (t.serial ≡ r.serial)
      × (2 ≤ t.seen)
      × (1 ≤ t.written)
      × (t.rate ≡ r.rate)
unfolding write_page_for_packet
page-first r p h k = ground arith

pub write_all-first :
    (r : OpusRecorder) (ps : List (List ℕ))
    → r.seen ≡ 2
    → r.written ≡ 0
    → let t = write_all r ps in
      (t.file ≡ r.file ++ data_pages r.serial (r.rate / 50) r.preskip r.seq ps)
      × (t.seq ≡ number_after r.seq ps)
      × (t.prev_gp ≡ end_granule r.prev_gp r.preskip (r.rate / 50) ps)
      × (t.serial ≡ r.serial)
unfolding write_all
write_all-first r [] h k = (sym (append-nil r.file), refl, refl, refl)
write_all-first r (p ∷ ps) h k =
    let t = write_page_for_packet r p in
    let (f, s, g, n, x, y, q) = page-first r p h k in
    let (a, b, c, d) = write_all-running t ps x y in
    (
      a
          ∙ ap₂ (λ u v. u ++ v) f (λ i. data_pages (n i) (q i / 50) (g i + q i / 50) (s i) ps)
          ∙ append_assoc r.file (page 0 r.preskip r.serial r.seq p ∷ []) _,
      b ∙ ap (λ z. number_after z ps) s,
      c ∙ (λ i. last_granule (g i) (q i / 50) ps),
      d ∙ n,
    )

-- The first two packets only count.
pub write_all-fresh :
    (r : OpusRecorder) (ps : List (List ℕ))
    → r.seen ≡ 0
    → r.written ≡ 0
    → let t = write_all r ps in
      let kept = drop warmup_skip ps in
      (t.file ≡ r.file ++ data_pages r.serial (r.rate / 50) r.preskip r.seq kept)
      × (t.seq ≡ number_after r.seq kept)
      × (t.prev_gp ≡ end_granule r.prev_gp r.preskip (r.rate / 50) kept)
      × (t.serial ≡ r.serial)
unfolding write_all write_page_for_packet
write_all-fresh r [] h k = (sym (append-nil r.file), refl, refl, refl)
write_all-fresh r (p ∷ []) h k =
    (ground (arith, append-nil r.file), ground arith, ground arith, ground arith)
write_all-fresh r (p ∷ q ∷ ps) h k =
    let two : write_page_for_packet (write_page_for_packet r p) q ≡ record r { seen = 2 } =
      ground arith in
    let e = ap (λ z. write_all z ps) two in
    let (f, s, g, n) = write_all-first (record r { seen = 2 }) ps refl k in
    (
      ap (λ z. z.file) e ∙ f,
      ap (λ z. z.seq) e ∙ s,
      ap (λ z. z.prev_gp) e ∙ g,
      ap (λ z. z.serial) e ∙ n,
    )
