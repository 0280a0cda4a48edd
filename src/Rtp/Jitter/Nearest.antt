-- ===== src/Rtp/Jitter/Nearest.antt =====
-- What the search of nextPresentDue finds: the nearest due packet, in any order of the map.
use espmic.Common.{
  ℕ, ◌≤◌, ◌<◌, ◌≡◌, inl, inr, List, [], ◌∷◌, none, some, false, arith, ltb, ℕ_discrete, All,
  Bool-cases, some_inj, ap,
}
use espmic.Common.GoMap
use espmic.Rtp.Seq.{IsU16, seq_before, seq_distance, seq_before_iff}
use espmic.Rtp.Jitter.{Buffered, find, better, best_due}
use espmic.Rtp.Jitter.Invariant.{IsKeyed}

-- Seen from the position `e`, the numbers stored are at least `lo` steps ahead, and less than half
-- the range.
abbrev pub Ahead : ℕ → ℕ → List (ℕ × Buffered) → Type 0
Ahead e lo = All (λ (x : ℕ × Buffered). (lo ≤ seq_distance e x.0) × (seq_distance e x.0 < 32768))

-- No stored packet is due later than one that follows it in the sequence, as far as `now` tells.
abbrev pub Timely : ℕ → ℕ → List (ℕ × Buffered) → Type 0
Timely e now m =
    (j k : ℕ) (a b : Buffered)
    → find j m ≡ some a
    → find k m ≡ some b
    → seq_distance e j ≤ seq_distance e k
    → b.due ≤ now
    → a.due ≤ now

-- The due packet found is the nearest of those due.
abbrev pub Least : ℕ → ℕ → Buffered → List (ℕ × Buffered) → Type 0
Least e now b =
    All (λ (x : ℕ × Buffered).
      x.1.due ≤ now → seq_distance e b.p.sequence_number ≤ seq_distance e x.0)

abbrev InHalf : ℕ → Buffered → Type 0
InHalf e c = IsU16 c.p.sequence_number × (seq_distance e c.p.sequence_number < 32768)

-- The nearer of the packet held and one that is due.
better_least :
    (e now : ℕ) (c b : Buffered)
    → IsU16 e
    → InHalf e c
    → InHalf e b
    → (d : Buffered) × (better now (some c) b ≡ some d)
      × InHalf e d
      × (seq_distance e d.p.sequence_number ≤ seq_distance e c.p.sequence_number)
      × (b.due ≤ now → seq_distance e d.p.sequence_number ≤ seq_distance e b.p.sequence_number)
better_least e now c b he hc hb = elim (Bool-cases (ltb now b.due)) [
  | inl late ↦ (c, rw late, hc, omega arith, λ h. absurd (ground arith))
  | inr due ↦ elim (Bool-cases (seq_before b.p.sequence_number c.p.sequence_number)) [
    | inl t ↦ (
      b,
      rw (due, t),
      hb,
      omega (arith, (seq_before_iff e _ _ he hb.0 hc.0 hb.1 hc.1).0 t),
      λ _. omega arith,
    )
    | inr f ↦ (c, rw (due, f), hc, omega arith, λ _. nearer f)
  ]
]
  where
    nearer :
        seq_before b.p.sequence_number c.p.sequence_number ≡ false
        → seq_distance e c.p.sequence_number ≤ seq_distance e b.p.sequence_number
    nearer f =
        ground (
          arith,
          (seq_before_iff e b.p.sequence_number c.p.sequence_number he hb.0 hc.0 hb.1 hc.1).1,
        )

best_due-Least_held :
    (e now : ℕ) (c b : Buffered) (m : List (ℕ × Buffered))
    → IsU16 e
    → InHalf e c
    → All IsKeyed m
    → Ahead e 0 m
    → best_due now (some c) m ≡ some b
    → (seq_distance e b.p.sequence_number ≤ seq_distance e c.p.sequence_number) × Least e now b m
unfolding best_due
best_due-Least_held e now c b [] he hc ks w h = (omega (arith, ap_seq (some_inj h)), tt)
  where
    ap_seq : c ≡ b → seq_distance e c.p.sequence_number ≡ seq_distance e b.p.sequence_number
    ap_seq p = ap (λ (x : Buffered). seq_distance e x.p.sequence_number) p
best_due-Least_held e now c b ((k, x) ∷ m) he hc ks w h =
    let key : x.p.sequence_number ≡ k = ks.0.0 in
    let (d, eq, hd, near_c, near_x) = better_least e now c x he hc (rw key (ks.0.1, w.0.1)) in
    let (near, least) = best_due-Least_held e now d b m he hd ks.1 w.1 (rw eq at h) in
    (omega arith, (λ due. rw (← key) (omega (arith, near_x due)), least))

pub best_due-Least :
    (e now : ℕ) (b : Buffered) (m : List (ℕ × Buffered))
    → IsU16 e
    → All IsKeyed m
    → Ahead e 0 m
    → best_due now none m ≡ some b
    → Least e now b m
unfolding best_due
best_due-Least e now b [] he ks w h = tt
best_due-Least e now b ((k, x) ∷ m) he ks w h = elim (Bool-cases (ltb now x.due)) [
  | inl late ↦ ((λ due. absurd (ground arith)), best_due-Least e now b m he ks.1 w.1 (rw late at h))
  | inr due ↦
      let held =
        best_due-Least_held e now x b m he (rw ks.0.0 (ks.0.1, w.0.1)) ks.1 w.1 (rw due at h) in
      ((λ _. rw (← ks.0.0) held.0), held.1)
]

-- Once everything stored is due, no deadline stands in the way of the order.
pub Timely-of_All_due :
    (e now : ℕ) (m : List (ℕ × Buffered))
    → All (λ (x : ℕ × Buffered). x.1.due ≤ now) m
    → Timely e now m
Timely-of_All_due e now m h j k a b fj fk le due = GoMap.All-lookup ℕ_discrete _ j m a h fj
