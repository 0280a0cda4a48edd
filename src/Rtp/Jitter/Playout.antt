-- ===== src/Rtp/Jitter/Playout.antt =====
-- The order in which the jitter buffer plays packets: when it is the order of sequence numbers, and
-- what happens when a packet is overtaken by the deadline of a later one.
use espmic.Common.{ℕ, ◌+◌, ◌<◌, ◌≡◌, List, none, some, true, arith, length, ℕ_discrete, refl}
use espmic.Common.GoMap
use espmic.Rtp.Seq.{IsU16, seq_before, seq_distance, seq_before_iff, not-seq_before_iff}
use espmic.Rtp.Packet.{Packet}
use espmic.Rtp.Jitter.{
  Buffered, JitterBuffer, Float64, u64, find, push, skipped, missing, reported, count_received,
  count_duplicate, count_late, count_reordered, start_at, store, update_jitter, skip,
  next_present_due, skip_gap, emit_round, emit,
}
use espmic.Rtp.Jitter.Invariant.{
  Inv, update_jitter-Agree, push_received_cases, next_present_due-found,
}
use espmic.Rtp.Jitter.Account.{found-IsU16, Run-Settled, emit-Run_of}
use espmic.Rtp.Jitter.Nearest.{Ahead, Timely}
use espmic.Rtp.Jitter.Order.{Ascends, Ordered, Run-Ascends, Ahead-moved, seq_distance_self}

-- A call of `Emit` at a well-formed buffer whose packets all lie within half the range ahead of the
-- playout position, and none of which is due before one that precedes it, returns packets in rising
-- order of sequence numbers; it counts as lost exactly the numbers passed that it did not return;
-- and the packets left lie within half the range ahead of the new position.
module _ {F : Type 0} (fl : Float64 F) where
  pub emit-Ascends :
      (jb jb' : JitterBuffer F) (now : ℕ) (ps : List Packet) (cs : List ℕ)
      → Inv jb
      → Ahead jb.expected 0 jb.buf
      → Timely jb.expected now jb.buf
      → emit jb now ≡ some (ps, cs, jb')
      → Ascends jb.expected 0 ps
        × (u64 (jb'.stats.lost + length ps)
            ≡ u64 (jb.stats.lost + seq_distance jb.expected jb'.expected))
        × Ahead jb'.expected 0 jb'.buf
  emit-Ascends jb jb' now ps cs v ahead timely e =
      let run = emit-Run_of fl jb jb' now ps cs v e in
      let here : seq_distance jb.expected jb.expected ≡ 0 =
        seq_distance_self jb.expected v.expected_u16 in
      let o : Ordered jb.expected now v.expected_u16 jb = record {
        ahead = rw here ahead;
        timely = timely;
        near = omega (arith, here);
      } in
      let (up, o', exact) = Run-Ascends jb.expected now v.expected_u16 jb jb' ps cs o run in
      let v' = (Run-Settled now jb jb' ps cs run).0 in
      (
        rw here at up,
        omega (arith, exact, here),
        Ahead-moved jb.expected jb'.expected jb'.buf v.expected_u16 v'.expected_u16 v'.keyed
            o'.ahead,
      )

  stored-Ahead :
      (jb : JitterBuffer F) (p : Packet) (recv : ℕ)
      → seq_distance jb.expected p.sequence_number < 32768
      → Ahead jb.expected 0 jb.buf
      → let s = store (update_jitter fl jb p recv) p recv in Ahead s.expected 0 s.buf
  unfolding store
  stored-Ahead jb p recv h ahead =
      let a = update_jitter-Agree fl jb p recv in
      rw (a.expected_eq, a.buf_eq)
        (GoMap.All-insert ℕ_discrete _ p.sequence_number _ jb.buf (omega arith, h) ahead)

  -- `Push` keeps the packets stored within half the range ahead of the playout position.
  pub push-Ahead :
      (jb : JitterBuffer F) (p : Packet) (recv : ℕ)
      → IsU16 p.sequence_number
      → Inv jb
      → Ahead jb.expected 0 jb.buf
      → let jb' = push fl jb p recv in Ahead jb'.expected 0 jb'.buf
  unfolding push count_received start_at count_duplicate count_late count_reordered
  push-Ahead jb p recv hp v ahead =
      push_received_cases fl (λ j. Ahead j.expected 0 j.buf) (count_received jb) p recv
        (λ e.
          stored-Ahead _ p recv (rw (seq_distance_self _ hp) (omega arith))
            (rw (v.empty_before e) tt))
        (λ _ _. ahead) (λ _ _ _. ahead)
        (λ _ _ n. stored-Ahead _ p recv ((not-seq_before_iff _ _ hp v.expected_u16).0 n) ahead)
        (λ _ _ n. stored-Ahead _ p recv ((not-seq_before_iff _ _ hp v.expected_u16).0 n) ahead)

module _ {F : Type 0} where
  -- When a missing slot is passed because a later packet is due, a packet in between that is stored
  -- but not due yet is passed too: the turn counts its number as lost, and leaves the packet stored
  -- behind the new playout position.
  pub skip-overtakes :
      (jb : JitterBuffer F) (now : ℕ) (a b : Buffered)
      → Inv jb
      → find jb.expected jb.buf ≡ none
      → next_present_due jb.buf now ≡ some b
      → find a.p.sequence_number jb.buf ≡ some a
      → seq_distance jb.expected a.p.sequence_number < seq_distance jb.expected b.p.sequence_number
      → seq_distance jb.expected b.p.sequence_number < 32768
      → (cs : List ℕ) × (j : JitterBuffer F) × (emit_round jb now ≡ skip cs j)
        × (find a.p.sequence_number j.buf ≡ some a)
        × (seq_before a.p.sequence_number j.expected ≡ true)
        × (j.stats.lost ≡ u64 (jb.stats.lost + seq_distance jb.expected b.p.sequence_number))
  skip-overtakes jb now a b v miss next stored near half =
      let hit = next_present_due-found now jb.buf b v.keyed v.unique next in
      (
        reported jb b,
        skipped jb b,
        unfold emit_round skip_gap in rw (miss, next, emit_round) refl,
        unfold skipped in stored,
        unfold skipped in
            behind v.expected_u16 (found-IsU16 jb _ a v stored).1 (found-IsU16 jb _ b v hit.0).1,
        unfold skipped missing in refl,
      )
    where
      behind :
          IsU16 jb.expected
          → IsU16 a.p.sequence_number
          → IsU16 b.p.sequence_number
          → seq_before a.p.sequence_number b.p.sequence_number ≡ true
      behind he ha hb =
          (seq_before_iff jb.expected a.p.sequence_number b.p.sequence_number he ha hb (omega arith)
              half).1
            near
