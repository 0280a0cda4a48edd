-- ===== src/Rtp/Jitter/Account.antt =====
-- Every packet that the jitter buffer receives is accounted for, and so is every sequence number
-- that playout passes.
use mathlib.Core.List.{Perm}
use mathlib.Core.List.Perm
use espmic.Common.{
  ℕ, suc, ◌+◌, ◌<◌, ◌≡◌, ◌∙◌, ◌⊎◌, inl, inr, List, [], ◌++◌, none, some, Bool, false, arith, length,
  length-append, ℕ_discrete, refl, All, map, sym, some_inj, subst,
}
use espmic.Common.GoMap
use espmic.Rtp.Seq.{u16, IsU16, seq_distance, seq_next}
use espmic.Rtp.Packet.{Packet}
use espmic.Rtp.Jitter.{
  Buffered, JitterBuffer, Float64, u64, find, has, new, push, emit, played, skipped, missing,
  statistics, len, count_received, count_duplicate, count_late, count_reordered, start_at, store,
  update_jitter, push_received,
}
use espmic.Rtp.Jitter.Invariant.{
  Inv, IsKeyed, next_present_due-none, new-Inv, push-Inv, update_jitter-Agree, push_received_cases,
}
use espmic.Rtp.Jitter.Run.{waits, starves, plays, skips, Run, ends, turn_play, turn_skip, emit-Run}

-- The packets stored.
abbrev pub packets : List (ℕ × Buffered) → List Packet
packets = map (λ e. e.1.p)

module _ {F : Type 0} where
  -- `Emit` neither loses, copies nor makes up a packet: those returned and those still stored are
  -- those that were stored.
  pub Run-perm :
      (now : ℕ) (jb jb' : JitterBuffer F) (ps : List Packet) (cs : List ℕ)
      → Run now jb ps cs jb'
      → Perm (packets jb.buf) (ps ++ packets jb'.buf)
  unfolding played skipped
  Run-perm now jb jb' ps cs (ends v t) = Perm.refl (packets jb.buf)
  Run-perm now jb jb' ps cs (turn_play {j = j} {ps = rest} v (plays b e due) run) =
      Perm.trans (GoMap.delete-perm ℕ_discrete (λ e. e.1.p) jb.expected jb.buf b v.unique e)
        (Perm.cons b.p (Run-perm now j jb' rest cs run))
  Run-perm now jb jb' ps cs (turn_skip {j = j} {cs = more} v (skips b e e' found due) run) =
      Run-perm now j jb' ps more run

  position-played : (jb : JitterBuffer F) → (played jb).expected ≡ u16 (jb.expected + 1)
  unfolding played seq_next
  position-played jb = refl

  pub lost-played : (jb : JitterBuffer F) → (played jb).stats.lost ≡ jb.stats.lost
  unfolding played
  lost-played jb = refl

  position-skipped :
      (jb : JitterBuffer F) (b : Buffered)
      → IsU16 jb.expected
      → IsU16 b.p.sequence_number
      → u16 ((skipped jb b).expected + jb.stats.lost)
        ≡ u16 (jb.expected + (skipped jb b).stats.lost)
  unfolding skipped missing seq_distance
  position-skipped jb b he hb = omega arith

  pub found-IsU16 :
      (jb : JitterBuffer F) (k : ℕ) (b : Buffered)
      → Inv jb
      → find k jb.buf ≡ some b
      → (b.p.sequence_number ≡ k) × IsU16 k
  found-IsU16 jb k b v found = GoMap.All-lookup ℕ_discrete IsKeyed k jb.buf b v.keyed found

  -- The playout position moves by one for each packet returned and each one counted as lost, and
  -- by nothing else.
  pub Run-position :
      (now : ℕ) (jb jb' : JitterBuffer F) (ps : List Packet) (cs : List ℕ)
      → Run now jb ps cs jb'
      → u16 (jb'.expected + jb.stats.lost) ≡ u16 (jb.expected + jb'.stats.lost + length ps)
  Run-position now jb jb' ps cs (ends v t) = omega arith
  Run-position now jb jb' ps cs (turn_play {j = j} {ps = rest} v (plays b e due) run) =
      omega (arith, Run-position now j jb' rest cs run, position-played jb, lost-played jb)
  Run-position now jb jb' ps cs (turn_skip {j = j} {cs = more} v (skips b e e' found due) run) =
      omega (
        arith,
        Run-position now j jb' ps more run,
        position-skipped jb b v.expected_u16 (found-IsU16 jb _ b v found).1,
      )

  -- What `Emit` may leave: the next slot holds a packet that is not due, or nothing stored is due.
  abbrev pub Settled : JitterBuffer F → ℕ → Type 0
  Settled jb now =
      ((b : Buffered) × (find jb.expected jb.buf ≡ some b) × (now < b.due))
      ⊎ ((find jb.expected jb.buf ≡ none) × All (λ (e : ℕ × Buffered). now < e.1.due) jb.buf)

  pub Run-Settled :
      (now : ℕ) (jb jb' : JitterBuffer F) (ps : List Packet) (cs : List ℕ)
      → Run now jb ps cs jb'
      → Inv jb' × Settled jb' now
  Run-Settled now jb jb' ps cs (ends v (waits b e late)) = (v, inl (b, e, late))
  Run-Settled now jb jb' ps cs (ends v (starves e e')) =
      (v, inr (e, next_present_due-none now jb.buf e'))
  Run-Settled now jb jb' ps cs (turn_play {j = j} {ps = rest} v t run) =
      Run-Settled now j jb' rest cs run
  Run-Settled now jb jb' ps cs (turn_skip {j = j} {cs = more} v t run) =
      Run-Settled now j jb' ps more run

  -- The counters that `Emit` does not touch.
  Run-counters :
      (now : ℕ) (jb jb' : JitterBuffer F) (ps : List Packet) (cs : List ℕ)
      → Run now jb ps cs jb'
      → (jb'.stats.received ≡ jb.stats.received)
        × (jb'.stats.duplicate ≡ jb.stats.duplicate)
        × (jb'.stats.late ≡ jb.stats.late)
        × (length jb.buf ≡ length ps + length jb'.buf)
  unfolding played skipped
  Run-counters now jb jb' ps cs (ends v t) = (refl, refl, refl, omega arith)
  Run-counters now jb jb' ps cs (turn_play {j = j} {ps = rest} v (plays b e due) run) = ground (
    arith,
    Run-counters now j jb' rest cs run,
    GoMap.length-delete ℕ_discrete jb.expected jb.buf b v.unique e,
  )
  Run-counters now jb jb' ps cs (turn_skip {j = j} {cs = more} v (skips b e e' found due) run) =
      Run-counters now j jb' ps more run

module _ {F : Type 0} (fl : Float64 F) where
  -- All that can happen to a buffer from `New` on: packets are pushed, with sequence numbers of 16
  -- bits, and playout advances. The list holds the packets returned so far, oldest first.
  pub data Reach (target : ℕ) (on_loss : Bool) : List Packet → JitterBuffer F → Type 0 where
    start : Reach target on_loss [] (new fl target on_loss)
    pushes :
        {out : List Packet} {jb : JitterBuffer F} (p : Packet) (recv : ℕ)
        → IsU16 p.sequence_number
        → Reach target on_loss out jb
        → Reach target on_loss out (push fl jb p recv)
    emits :
        {out : List Packet} {jb jb' : JitterBuffer F} (now : ℕ) (ps : List Packet) (cs : List ℕ)
        → emit jb now ≡ some (ps, cs, jb')
        → Reach target on_loss out jb
        → Reach target on_loss (out ++ ps) jb'

  -- What `emit` returned is a run.
  pub emit-Run_of :
      (jb jb' : JitterBuffer F) (now : ℕ) (ps : List Packet) (cs : List ℕ)
      → Inv jb
      → emit jb now ≡ some (ps, cs, jb')
      → Run now jb ps cs jb'
  emit-Run_of jb jb' now ps cs v e =
      let (ps1, cs1, jb1, e1, run) = emit-Run jb now v in same (some_inj (sym e1 ∙ e)) run
    where
      same :
          {x y : List Packet × List ℕ × JitterBuffer F}
          → x ≡ y
          → Run now jb x.0 x.1 x.2
          → Run now jb y.0 y.1 y.2
      same p r = subst (λ z. Run now jb z.0 z.1 z.2) p r

  -- Every buffer that can be reached is well formed.
  pub Reach-Inv :
      (target : ℕ) (on_loss : Bool) {out : List Packet} {jb : JitterBuffer F}
      → Reach target on_loss out jb
      → Inv jb
  Reach-Inv target on_loss start = new-Inv fl target on_loss
  Reach-Inv target on_loss (pushes {jb = jb} p recv h r) =
      push-Inv fl jb p recv h (Reach-Inv target on_loss r)
  Reach-Inv target on_loss (emits {jb = jb} {jb' = jb'} now ps cs e r) =
      (Run-Settled now jb jb' ps cs (emit-Run_of jb jb' now ps cs (Reach-Inv target on_loss r) e)).0

  -- Received packets are duplicates, late, stored or returned (`n` of these), and nothing else; the
  -- counter is a uint64.
  abbrev Balanced : ℕ → JitterBuffer F → Type 0
  Balanced n jb = jb.stats.received ≡ u64 (jb.stats.duplicate + jb.stats.late + length jb.buf + n)

  stored_counts :
      (jb : JitterBuffer F) (p : Packet) (recv : ℕ)
      → find p.sequence_number jb.buf ≡ none
      → let s = store (update_jitter fl jb p recv) p recv in
        (s.stats.received ≡ jb.stats.received)
        × (s.stats.duplicate ≡ jb.stats.duplicate)
        × (s.stats.late ≡ jb.stats.late)
        × (length s.buf ≡ suc (length jb.buf))
  unfolding store
  stored_counts jb p recv h =
      let a = update_jitter-Agree fl jb p recv in
      (
        a.received_eq,
        a.duplicate_eq,
        a.late_eq,
        rw a.buf_eq (GoMap.length-insert_absent ℕ_discrete p.sequence_number _ jb.buf h),
      )

  stored-Balanced :
      (n : ℕ) (jb : JitterBuffer F) (p : Packet) (recv : ℕ)
      → find p.sequence_number jb.buf ≡ none
      → jb.stats.received ≡ u64 (jb.stats.duplicate + jb.stats.late + length jb.buf + n + 1)
      → Balanced n (store (update_jitter fl jb p recv) p recv)
  stored-Balanced n jb p recv h b = omega (arith, stored_counts jb p recv h)

  has-none : (k : ℕ) (m : List (ℕ × Buffered)) → has k m ≡ false → find k m ≡ none
  has-none k m h = ground arith

  push_received-Balanced :
      (n : ℕ) (jb : JitterBuffer F) (p : Packet) (recv : ℕ)
      → Inv jb
      → jb.stats.received ≡ u64 (jb.stats.duplicate + jb.stats.late + length jb.buf + n + 1)
      → Balanced n (push_received fl jb p recv)
  unfolding start_at count_duplicate count_late count_reordered
  push_received-Balanced n jb p recv v b =
      push_received_cases fl (Balanced n) jb p recv
        (λ e. stored-Balanced n _ p recv (rw (v.empty_before e) (unfold GoMap.lookup in refl)) b)
        (λ _ _. ground arith) (λ _ _ _. ground arith)
        (λ _ e _. stored-Balanced n _ p recv (has-none p.sequence_number jb.buf e) b)
        (λ _ e _. stored-Balanced n _ p recv (has-none p.sequence_number jb.buf e) b)

  push-Balanced :
      (n : ℕ) (jb : JitterBuffer F) (p : Packet) (recv : ℕ)
      → Inv jb
      → Balanced n jb
      → Balanced n (push fl jb p recv)
  unfolding push count_received
  push-Balanced n jb p recv v b =
      push_received-Balanced n (count_received jb) p recv (ground arith) (omega arith)

  -- After any history of pushes and emits, each packet counted as received is counted as a
  -- duplicate, counted as late, still stored, or among those returned.
  pub Reach-balance :
      (target : ℕ) (on_loss : Bool) {out : List Packet} {jb : JitterBuffer F}
      → Reach target on_loss out jb
      → (statistics jb).received
        ≡ u64 ((statistics jb).duplicate + (statistics jb).late + len jb + length out)
  unfolding statistics len
  Reach-balance target on_loss start = unfold new in refl
  Reach-balance target on_loss (pushes {out = out} {jb = jb} p recv h r) =
      push-Balanced (length out) jb p recv (Reach-Inv target on_loss r)
        (Reach-balance target on_loss r)
  Reach-balance target on_loss (emits {out = out} {jb = jb} {jb' = jb'} now ps cs e r) = omega (
    arith,
    Reach-balance target on_loss r,
    length-append out ps,
    Run-counters now jb jb' ps cs (emit-Run_of jb jb' now ps cs (Reach-Inv target on_loss r) e),
  )

  -- What `Emit` returns at the instant `now`: packets, calls of the hook and a buffer such that the
  -- packets returned and those left are those that were stored, playout has moved by as many numbers
  -- as were returned or counted as lost, and playout is settled.
  abbrev pub Answers : JitterBuffer F → ℕ → Type 0
  Answers jb now =
      (ps : List Packet) × (cs : List ℕ) × (jb' : JitterBuffer F) × (emit jb now
        ≡ some (ps, cs, jb'))
      × Perm (packets jb.buf) (ps ++ packets jb'.buf)
      × (u16 (jb'.expected + jb.stats.lost) ≡ u16 (jb.expected + jb'.stats.lost + length ps))
      × Settled jb' now

  -- At every buffer reached from `New` by pushes and emits, `Emit` returns: the packets returned and
  -- those left are those that were stored, playout moves by as many numbers (modulo 2^16) as are
  -- returned or counted as lost, and then either the next slot is filled and not yet due or nothing
  -- stored is due.
  pub Reach-emit :
      (target : ℕ) (on_loss : Bool) {out : List Packet} {jb : JitterBuffer F} (now : ℕ)
      → Reach target on_loss out jb
      → Answers jb now
  Reach-emit target on_loss {jb = jb} now r =
      let (ps, cs, jb', e, run) = emit-Run jb now (Reach-Inv target on_loss r) in
      (
        ps,
        cs,
        jb',
        e,
        Run-perm now jb jb' ps cs run,
        Run-position now jb jb' ps cs run,
        (Run-Settled now jb jb' ps cs run).1,
      )
