-- ===== src/Rtp/Jitter/Order.antt =====
-- Runs of `Emit` seen from a fixed position of the sequence.
use espmic.Common.{
  ℕ, ◌+◌, ◌≤◌, ◌<◌, ◌≡◌, List, [], ◌∷◌, some, arith, length, ℕ_discrete, All, dec_le,
}
use espmic.Common.GoMap
use espmic.Rtp.Seq.{IsU16, seq_distance, seq_next}
use espmic.Rtp.Packet.{Packet}
use espmic.Rtp.Jitter.{
  Buffered, JitterBuffer, u64, find, played, skipped, missing, next_present_due,
}
use espmic.Rtp.Jitter.Invariant.{Inv, IsKeyed, next_present_due-found}
use espmic.Rtp.Jitter.Run.{plays, skips, Run, ends, turn_play, turn_skip}
use espmic.Rtp.Jitter.Account.{found-IsU16, lost-played}
use espmic.Rtp.Jitter.Nearest.{Ahead, Timely, Least, best_due-Least}

-- The sequence numbers of a list of packets rise, seen from `e`, from `lo` on.
abbrev pub Ascends : ℕ → ℕ → List Packet → Type 0
Ascends e lo [] = Unit {0}
Ascends e lo (p ∷ ps) =
    (lo ≤ seq_distance e p.sequence_number) × Ascends e (seq_distance e p.sequence_number + 1) ps

seq_distance-injective :
    (e j k : ℕ) → IsU16 e → IsU16 j → IsU16 k → seq_distance e j ≡ seq_distance e k → j ≡ k
unfolding seq_distance
seq_distance-injective e j k he hj hk h = omega arith

seq_distance-seq_next :
    (e k : ℕ)
    → IsU16 e
    → IsU16 k
    → seq_distance e k < 32768
    → seq_distance e (seq_next k) ≡ seq_distance e k + 1
unfolding seq_distance seq_next
seq_distance-seq_next e k he hk h = omega arith

Ahead-from_zero : (e lo : ℕ) (m : List (ℕ × Buffered)) → Ahead e lo m → Ahead e 0 m
Ahead-from_zero e lo [] h = tt
Ahead-from_zero e lo (x ∷ m) h = ((omega arith, h.0.1), Ahead-from_zero e lo m h.1)

Ascends-from : (e : ℕ) (ps : List Packet) (lo hi : ℕ) → lo ≤ hi → Ascends e hi ps → Ascends e lo ps
Ascends-from e [] lo hi h a = tt
Ascends-from e (p ∷ ps) lo hi h a = (omega arith, a.1)

pub seq_distance_self : (e : ℕ) → IsU16 e → seq_distance e e ≡ 0
unfolding seq_distance
seq_distance_self e h = omega arith

seq_distance-sub :
    (e x k : ℕ)
    → IsU16 e
    → IsU16 x
    → IsU16 k
    → seq_distance e x ≤ seq_distance e k
    → seq_distance x k + seq_distance e x ≡ seq_distance e k
unfolding seq_distance
seq_distance-sub e x k he hx hk h = omega arith

-- The position moves forward, up to the nearest packet at most.
pub Ahead-moved :
    (e x : ℕ) (m : List (ℕ × Buffered))
    → IsU16 e
    → IsU16 x
    → All IsKeyed m
    → Ahead e (seq_distance e x) m
    → Ahead x 0 m
Ahead-moved e x [] he hx ks h = tt
Ahead-moved e x (y ∷ m) he hx ks h =
    (omega (arith, seq_distance-sub e x y.0 he hx ks.0.1 h.0.0), Ahead-moved e x m he hx ks.1 h.1)

module _ {F : Type 0} (e now : ℕ) (he : IsU16 e) where
  -- What orders a run, seen from the fixed position `e`.
  pub record Ordered (jb : JitterBuffer F) : Type 0 where
    pub ahead : Ahead e (seq_distance e jb.expected) jb.buf
    pub timely : Timely e now jb.buf
    pub near : seq_distance e jb.expected ≤ 32768

  played-Ordered :
      (jb : JitterBuffer F) (b : Buffered)
      → Inv jb
      → find jb.expected jb.buf ≡ some b
      → Ordered jb
      → Ordered (played jb) × (seq_distance e (played jb).expected ≡ seq_distance e jb.expected + 1)
  unfolding played
  played-Ordered jb b v found o = (
    record {
      ahead = rw step (
          GoMap.All-of_lookup ℕ_discrete _ _
            (GoMap.delete-Unique ℕ_discrete jb.expected jb.buf v.unique) farther);
      timely = λ j k a c fj fk. o.timely j k a c (before j a fj).0 (before k c fk).0;
      near = omega (arith, step, here);
    },
    step,
  )
    where
      here : seq_distance e jb.expected < 32768
      here = (GoMap.All-lookup ℕ_discrete _ jb.expected jb.buf b o.ahead found).1

      step : seq_distance e (seq_next jb.expected) ≡ seq_distance e jb.expected + 1
      step = seq_distance-seq_next e jb.expected he v.expected_u16 here

      before :
          (j : ℕ) (a : Buffered)
          → find j (GoMap.delete ℕ_discrete jb.expected jb.buf) ≡ some a
          → (find j jb.buf ≡ some a) × ¬ (jb.expected ≡ j)
      before j a f = GoMap.lookup-delete-some ℕ_discrete jb.expected j jb.buf a f

      farther :
          (j : ℕ) (a : Buffered)
          → find j (GoMap.delete ℕ_discrete jb.expected jb.buf) ≡ some a
          → (seq_distance e jb.expected + 1 ≤ seq_distance e j) × (seq_distance e j < 32768)
      farther j a f =
          let (f', ne) = before j a f in
          let (lo, hi) = GoMap.All-lookup ℕ_discrete _ j jb.buf a o.ahead f' in
          let ju = (found-IsU16 jb j a v f').1 in
          let apart : ¬ (seq_distance e jb.expected ≡ seq_distance e j) =
            λ q. ne (seq_distance-injective e jb.expected j he v.expected_u16 ju q) in
          (omega arith, hi)

  skipped-Ordered :
      (jb : JitterBuffer F) (b : Buffered)
      → Inv jb
      → next_present_due jb.buf now ≡ some b
      → Ordered jb
      → Ordered (skipped jb b)
        × (seq_distance e jb.expected ≤ seq_distance e (skipped jb b).expected)
  unfolding skipped next_present_due
  skipped-Ordered jb b v next o = (
    record {
      ahead = GoMap.All-of_lookup ℕ_discrete _ jb.buf v.unique farther;
      timely = o.timely;
      near = omega (arith, within.1);
    },
    within.0,
  )
    where
      hit : (find b.p.sequence_number jb.buf ≡ some b) × (b.due ≤ now)
      hit = next_present_due-found now jb.buf b v.keyed v.unique next

      within :
          (seq_distance e jb.expected ≤ seq_distance e b.p.sequence_number)
          × (seq_distance e b.p.sequence_number < 32768)
      within = GoMap.All-lookup ℕ_discrete _ b.p.sequence_number jb.buf b o.ahead hit.0

      least : Least e now b jb.buf
      least = best_due-Least e now b jb.buf he v.keyed (Ahead-from_zero e _ jb.buf o.ahead) next

      farther :
          (j : ℕ) (a : Buffered)
          → find j jb.buf ≡ some a
          → (seq_distance e b.p.sequence_number ≤ seq_distance e j) × (seq_distance e j < 32768)
      farther j a f =
          let (lo, hi) = GoMap.All-lookup ℕ_discrete _ j jb.buf a o.ahead f in
          let nearest = GoMap.All-lookup ℕ_discrete _ j jb.buf a least f in
          (
            elim (dec_le (seq_distance e b.p.sequence_number) (seq_distance e j)) [
              | yes h ↦ h
              | no n ↦ nearest (o.timely j _ a b f hit.0 (omega arith) hit.1)
            ],
            hi,
          )

  -- What a run does to the packets counted as lost, in distances from `e`.
  abbrev pub Exact : JitterBuffer F → JitterBuffer F → List Packet → Type 0
  Exact jb jb' ps =
      u64 (jb'.stats.lost + length ps + seq_distance e jb.expected)
      ≡ u64 (jb.stats.lost + seq_distance e jb'.expected)

  skipped-Exact :
      (jb : JitterBuffer F) (b : Buffered)
      → IsU16 jb.expected
      → IsU16 b.p.sequence_number
      → seq_distance e jb.expected ≤ seq_distance e (skipped jb b).expected
      → Exact jb (skipped jb b) []
  unfolding skipped missing seq_distance
  skipped-Exact jb b hx hb le = omega (arith, he)

  pub Run-Ascends :
      (jb jb' : JitterBuffer F) (ps : List Packet) (cs : List ℕ)
      → Ordered jb
      → Run now jb ps cs jb'
      → Ascends e (seq_distance e jb.expected) ps × Ordered jb' × Exact jb jb' ps
  Run-Ascends jb jb' ps cs o (ends v t) = (tt, o, omega arith)
  Run-Ascends jb jb' ps cs o (turn_play {j = j} {ps = rest} v (plays b found due) run) =
      let (o', step) = played-Ordered jb b v found o in
      let (up, o2, exact) = Run-Ascends j jb' rest cs o' run in
      let key : b.p.sequence_number ≡ jb.expected = (found-IsU16 jb jb.expected b v found).0 in
      (rw key (omega arith, rw (← step) up), o2, omega (arith, step, lost-played jb))
  Run-Ascends jb jb' ps cs o (turn_skip {j = j} {cs = more} v (skips b miss next found due) run) =
      let (o', le) = skipped-Ordered jb b v next o in
      let (up, o2, exact) = Run-Ascends j jb' ps more o' run in
      (
        Ascends-from e ps _ _ le up,
        o2,
        omega (arith, exact, skipped-Exact jb b v.expected_u16 (found-IsU16 jb _ b v found).1 le),
      )
