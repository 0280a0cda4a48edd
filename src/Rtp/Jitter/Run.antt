-- ===== src/Rtp/Jitter/Run.antt =====
-- `Emit` as a run of turns, and that its loop ends within the fuel that `emit` gives it.
use espmic.Common.{
  ℕ, zero, suc, ◌+◌, ◌*◌, ◌≤◌, ◌<◌, ◌≡◌, ◌∙◌, List, [], ◌∷◌, ◌++◌, none, some, inl, inr, arith, ltb,
  ltb→lt, if◌then◌else◌, length, ℕ_discrete, refl, Option-cases, Bool-cases, append-nil,
  append_assoc,
}
use espmic.Common.GoMap
use espmic.Rtp.Packet.{Packet}
use espmic.Rtp.Jitter.{
  Buffered, JitterBuffer, Round, idle, play, skip, find, next_present_due, emit_round, emit_loop,
  emit, play_slot, skip_gap, played, skipped, reported,
}
use espmic.Rtp.Jitter.Invariant.{Inv, next_present_due-found, played-Inv, skipped-Inv}

module _ {F : Type 0} where
  -- What a turn of the loop of `Emit` does at the instant `now`, with the condition it was taken
  -- under.
  pub data Turn (jb : JitterBuffer F) (now : ℕ) : Round F → Type 0 where
    waits : (b : Buffered) → find jb.expected jb.buf ≡ some b → now < b.due → Turn jb now idle
    starves : find jb.expected jb.buf ≡ none → next_present_due jb.buf now ≡ none → Turn jb now idle
    plays :
        (b : Buffered)
        → find jb.expected jb.buf ≡ some b
        → b.due ≤ now
        → Turn jb now (play b.p (played jb))
    skips :
        (b : Buffered)
        → find jb.expected jb.buf ≡ none
        → next_present_due jb.buf now ≡ some b
        → find b.p.sequence_number jb.buf ≡ some b
        → b.due ≤ now
        → Turn jb now (skip (reported jb b) (skipped jb b))

  play_slot-Turn :
      (jb : JitterBuffer F) (now : ℕ) (b : Buffered)
      → find jb.expected jb.buf ≡ some b
      → Turn jb now (play_slot jb now b)
  unfolding play_slot
  play_slot-Turn jb now b e = elim (Bool-cases (ltb now b.due)) [
    | inl t ↦ rw t (waits b e (ltb→lt now b.due t))
    | inr t ↦ rw t (plays b e (ground arith))
  ]

  pub emit_round-Turn : (jb : JitterBuffer F) (now : ℕ) → Inv jb → Turn jb now (emit_round jb now)
  unfolding emit_round skip_gap
  emit_round-Turn jb now v = elim (Option-cases (find jb.expected jb.buf)) [
    | inr (b, e) ↦ rw (e, emit_round) (play_slot-Turn jb now b e)
    | inl e ↦ elim (Option-cases (next_present_due jb.buf now)) [
      | inl e' ↦ rw (e, e', emit_round) (starves e e')
      | inr (b, e') ↦
          let (found, due) = next_present_due-found now jb.buf b v.keyed v.unique e' in
          rw (e, e', emit_round) (skips b e e' found due)
    ]
  ]

  -- A whole call of `Emit`: the packets returned, the calls of the hook, the buffer left.
  pub data Run (now : ℕ) : JitterBuffer F → List Packet → List ℕ → JitterBuffer F → Type 0 where
    ends : {jb : JitterBuffer F} → Inv jb → Turn jb now idle → Run now jb [] [] jb
    turn_play :
        {jb j jb' : JitterBuffer F} {p : Packet} {ps : List Packet} {cs : List ℕ}
        → Inv jb
        → Turn jb now (play p j)
        → Run now j ps cs jb'
        → Run now jb (p ∷ ps) cs jb'
    turn_skip :
        {jb j jb' : JitterBuffer F} {c : List ℕ} {ps : List Packet} {cs : List ℕ}
        → Inv jb
        → Turn jb now (skip c j)
        → Run now j ps cs jb'
        → Run now jb ps (c ++ cs) jb'

  abbrev After : (JitterBuffer F → Type 0) → Round F → Type 0
  After P idle = Unit {0}
  After P (play p jb) = P jb
  After P (skip cs jb) = P jb

  -- Twice the packets stored, and one more unless the next slot can be played.
  abbrev measure : JitterBuffer F → ℕ → ℕ
  measure jb now =
      2 * length jb.buf
      + (elim (find jb.expected jb.buf) [ none ↦ 1 | some b ↦ if ltb now b.due then 1 else 0 ])

  measure-played :
      (jb : JitterBuffer F) (now : ℕ) (b : Buffered)
      → Inv jb
      → find jb.expected jb.buf ≡ some b
      → b.due ≤ now
      → measure (played jb) now < measure jb now
  unfolding played
  measure-played jb now b v e due =
      ground (arith, GoMap.length-delete ℕ_discrete jb.expected jb.buf b v.unique e)

  measure-skipped :
      (jb : JitterBuffer F) (now : ℕ) (b : Buffered)
      → find jb.expected jb.buf ≡ none
      → find b.p.sequence_number jb.buf ≡ some b
      → b.due ≤ now
      → measure (skipped jb b) now < measure jb now
  unfolding skipped
  measure-skipped jb now b e found due = ground arith

  Turn-falls :
      (jb : JitterBuffer F) (now : ℕ) (r : Round F)
      → Inv jb
      → Turn jb now r
      → After (λ j. Inv j × (measure j now < measure jb now)) r
  Turn-falls jb now r v (waits b e late) = tt
  Turn-falls jb now r v (starves e e') = tt
  Turn-falls jb now r v (plays b e due) = (played-Inv jb v, measure-played jb now b v e due)
  Turn-falls jb now r v (skips b e e' found due) =
      (skipped-Inv jb b v found, measure-skipped jb now b e found due)

  abbrev Returns : ℕ → ℕ → JitterBuffer F → List Packet → List ℕ → Type 0
  Returns fuel now jb out calls =
      (ps : List Packet) × (cs : List ℕ) × (jb' : JitterBuffer F) × (emit_loop fuel jb now out calls
        ≡ some (out ++ ps, calls ++ cs, jb'))
      × Run now jb ps cs jb'

  abbrev Continues : ℕ → JitterBuffer F → ℕ → Type 0
  Continues fuel jb now =
      (j : JitterBuffer F) (out : List Packet) (calls : List ℕ)
      → Inv j × (measure j now < measure jb now)
      → Returns fuel now j out calls

  emit_loop-Turn :
      (fuel : ℕ) (jb : JitterBuffer F) (now : ℕ) (out : List Packet) (calls : List ℕ) (r : Round F)
      → Inv jb
      → emit_round jb now ≡ r
      → Turn jb now r
      → After (λ j. Inv j × (measure j now < measure jb now)) r
      → Continues fuel jb now
      → Returns (suc fuel) now jb out calls
  unfolding emit_loop
  emit_loop-Turn fuel jb now out calls idle v q t f rec =
      ([], [], jb, rw (q, emit_loop) (simp append-nil), ends v t)
  emit_loop-Turn fuel jb now out calls (play p j) v q t f rec =
      let (ps, cs, jb', e, run) = rec j (out ++ (p ∷ [])) calls f in
      (p ∷ ps, cs, jb', rw (q, emit_loop) (e ∙ simp append_assoc), turn_play v t run)
  emit_loop-Turn fuel jb now out calls (skip c j) v q t f rec =
      let (ps, cs, jb', e, run) = rec j out (calls ++ c) f in
      (ps, c ++ cs, jb', rw (q, emit_loop) (e ∙ simp append_assoc), turn_skip v t run)

  emit_loop-Returns :
      (fuel : ℕ) (jb : JitterBuffer F) (now : ℕ) (out : List Packet) (calls : List ℕ)
      → Inv jb
      → measure jb now < fuel
      → Returns fuel now jb out calls
  emit_loop-Returns zero jb now out calls v h = elim h [ ]
  emit_loop-Returns (suc fuel) jb now out calls v h =
      let t = emit_round-Turn jb now v in
      emit_loop-Turn fuel jb now out calls (emit_round jb now) v refl t (Turn-falls jb now _ v t)
        (λ j o c f. emit_loop-Returns fuel j now o c f.0 (omega arith))

  -- From a well-formed buffer `Emit` always returns, and what it returns is a run of turns that
  -- ends in a break: the loop terminates within twice the number of stored packets and two turns.
  pub emit-Run :
      (jb : JitterBuffer F) (now : ℕ)
      → Inv jb
      → (ps : List Packet) × (cs : List ℕ) × (jb' : JitterBuffer F) × (emit jb now
          ≡ some (ps, cs, jb'))
        × Run now jb ps cs jb'
  unfolding emit
  emit-Run jb now v = emit_loop-Returns (2 * length jb.buf + 2) jb now [] [] v (ground arith)
