-- ===== src/Audio/OpusRecorder/Recording.antt =====
-- A whole recording, with the receive path and the writer in any order.
use espmic.Common.{
  ℕ, ◌/◌, ◌≡◌, ◌∙◌, Bool, true, false, some, List, [], ◌∷◌, ◌++◌, ltb, if◌then◌else◌, length, drop,
  arith, refl, ap, sym, Bool-cases, inl, inr,
}
use espmic.Audio.Ogg.{eos_page}
use espmic.Audio.OpusRecorder.{
  OpusRecorder, write_bytes, write_page_for_packet, write_packet, write_all, writer_step,
  write_eos_page, finalize, new_opus_recorder, write_opus_head, write_opus_tags, channel_capacity,
  warmup_skip, write_page,
}
use espmic.Audio.OpusRecorder.Pages.{data_pages, number_after, end_granule, write_all-fresh}

-- The receive path gives a packet, or the writer takes one.
pub data Event : Type 0 where
  gives : List ℕ → Event
  writes : Event

abbrev pub react : OpusRecorder → Event → OpusRecorder
react r (gives p) = write_packet r p
react r writes = writer_step r

abbrev pub run : OpusRecorder → List Event → OpusRecorder
run r [] = r
run r (e ∷ es) = run (react r e) es

-- The packets that find room in the channel.
abbrev pub taken_packets : OpusRecorder → List Event → List (List ℕ)
taken_packets r [] = []
taken_packets r (gives p ∷ es) =
    let rest = taken_packets (write_packet r p) es in
    if ltb (length r.ch) channel_capacity then p ∷ rest else rest
taken_packets r (writes ∷ es) = taken_packets (writer_step r) es

-- What the writer makes of the queue.
abbrev flushed : OpusRecorder → OpusRecorder
flushed r = write_all (record r { closed = true; ch = [] }) r.ch

write_all-append :
    (r : OpusRecorder) (ps qs : List (List ℕ))
    → write_all r (ps ++ qs) ≡ write_all (write_all r ps) qs
unfolding write_all
write_all-append r [] qs = refl
write_all-append r (p ∷ ps) qs = write_all-append (write_page_for_packet r p) ps qs

-- Writing a page looks neither at the queue nor at the flag.
write_page_for_packet-queue :
    (r : OpusRecorder) (p : List ℕ) (q : List (List ℕ))
    → (write_page_for_packet (record r { closed = true; ch = [] }) p
        ≡ record (write_page_for_packet (record r { ch = q }) p) { closed = true; ch = [] })
      × ((write_page_for_packet (record r { ch = q }) p).ch ≡ q)
      × ((write_page_for_packet (record r { ch = q }) p).closed ≡ r.closed)
unfolding write_page_for_packet
write_page_for_packet-queue r p q = (ground arith, ground arith, ground arith)

writer_step-cons :
    (r : OpusRecorder) (p : List ℕ) (ps : List (List ℕ))
    → r.ch ≡ p ∷ ps
    → writer_step r ≡ write_page_for_packet (record r { ch = ps }) p
unfolding writer_step
writer_step-cons r p ps h = ground arith

flushed-writer_step :
    (r : OpusRecorder) (q : List (List ℕ)) → r.ch ≡ q → flushed (writer_step r) ≡ flushed r
unfolding writer_step write_all
flushed-writer_step r [] h = ground arith
flushed-writer_step r (p ∷ ps) h =
    let (a, b, c) = write_page_for_packet-queue r p ps in
    ap flushed (writer_step-cons r p ps h)
    ∙ (λ i. write_all (sym a i) (b i))
    ∙ (λ i. write_all (record r { closed = true; ch = [] }) (sym h i))

closed-writer_step : (r : OpusRecorder) → (writer_step r).closed ≡ r.closed
unfolding writer_step write_page_for_packet
closed-writer_step r = ground arith

flushed-write_packet :
    (r : OpusRecorder) (p : List ℕ)
    → r.closed ≡ false
    → flushed (write_packet r p)
      ≡ (if ltb (length r.ch) channel_capacity then write_all (flushed r) (p ∷ []) else flushed r)
unfolding write_packet
flushed-write_packet r p h =
    let e = write_all-append (record r { closed = true; ch = [] }) r.ch (p ∷ []) in
    elim (Bool-cases (ltb (length r.ch) channel_capacity)) [
      | inl t ↦ ground arith
      | inr f ↦ ground arith
    ]

closed-write_packet : (r : OpusRecorder) (p : List ℕ) → (write_packet r p).closed ≡ r.closed
unfolding write_packet
closed-write_packet r p = ground arith

write_all-if :
    (room : Bool) (r : OpusRecorder) (p : List ℕ) (ps : List (List ℕ))
    → write_all (if room then write_all r (p ∷ []) else r) ps
      ≡ write_all r (if room then p ∷ ps else ps)
unfolding write_all
write_all-if true r p ps = refl
write_all-if false r p ps = refl

flushed-run :
    (r : OpusRecorder) (es : List Event)
    → r.closed ≡ false
    → (flushed (run r es) ≡ write_all (flushed r) (taken_packets r es))
      × ((run r es).closed ≡ false)
unfolding write_all
flushed-run r [] h = (refl, h)
flushed-run r (gives p ∷ es) h =
    let room = ltb (length r.ch) channel_capacity in
    let rest = taken_packets (write_packet r p) es in
    let (a, b) = flushed-run (write_packet r p) es (closed-write_packet r p ∙ h) in
    (
      a
          ∙ ap (λ z. write_all z rest) (flushed-write_packet r p h)
          ∙ write_all-if room (flushed r) p rest,
      b,
    )
flushed-run r (writes ∷ es) h =
    let (a, b) = flushed-run (writer_step r) es (closed-writer_step r ∙ h) in
    (
      a
          ∙ ap (λ z. write_all z (taken_packets (writer_step r) es))
              (flushed-writer_step r r.ch refl),
      b,
    )

finalize-open :
    (r : OpusRecorder)
    → r.closed ≡ false
    → finalize r ≡ some (write_eos_page (flushed r) (flushed r).prev_gp)
unfolding finalize
finalize-open r h = ground arith

-- However the receive path and the writer take turns, a recorder is finalized, and its file is then
-- the two header pages, one page for each packet that found room in the channel but the first two,
-- in order, their granule positions a frame apart from the preskip on and their page numbers one
-- apart, and a last page that ends the stream at the granule position of the last packet.
pub finalize-run :
    (serial rate channels preskip : ℕ) (es : List Event)
    → let r = new_opus_recorder serial rate channels preskip in
      let kept = drop warmup_skip (taken_packets r es) in
      (t : OpusRecorder) × (finalize (run r es) ≡ some t)
      × (t.file
          ≡ (r.file ++ data_pages serial (rate / 50) preskip r.seq kept)
            ++ (eos_page (end_granule 0 preskip (rate / 50) kept) serial (number_after r.seq kept)
                ∷ []))
unfolding finalize new_opus_recorder write_opus_head write_opus_tags write_page write_bytes
    write_eos_page write_all
finalize-run serial rate channels preskip es =
    let r = new_opus_recorder serial rate channels preskip in
    let d = flushed (run r es) in
    let (a, open_still) = flushed-run r es refl in
    let (f, s, g, n) =
      write_all-fresh (record r { closed = true; ch = [] }) (taken_packets r es) refl refl in
    (
      write_eos_page d d.prev_gp,
      finalize-open (run r es) open_still,
      λ i.
          (ap (λ z. z.file) a ∙ f) i
          ++ (eos_page ((ap (λ z. z.prev_gp) a ∙ g) i) ((ap (λ z. z.serial) a ∙ n) i)
                ((ap (λ z. z.seq) a ∙ s) i)
              ∷ []),
    )
