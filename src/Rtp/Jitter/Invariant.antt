-- ===== src/Rtp/Jitter/Invariant.antt =====
-- What holds of a jitter buffer between two calls, and that every method keeps it.
use espmic.Common.{
  ℕ, ◌≤◌, ◌<◌, ◌≡◌, ◌⊎◌, inl, inr, List, [], ◌∷◌, Option, none, some, Bool, true, false, arith,
  if◌then◌else◌, ℕ_discrete, refl, All, not, ◌≢◌, ◌∙◌,
}
use espmic.Common.GoMap
use espmic.Rtp.Seq.{IsU16, seq_before, seq_next}
use espmic.Rtp.Packet.{Packet}
use espmic.Rtp.Jitter.{
  Buffered, JitterBuffer, Float64, find, has, new, push, store, update_jitter, better, best_due,
  next_present_due, played, skipped, push_received, start_at, count_received, count_late,
  count_duplicate, count_reordered,
}

-- A packet is stored under its own sequence number.
abbrev pub IsKeyed : ℕ × Buffered → Type 0
IsKeyed e = (e.1.p.sequence_number ≡ e.0) × IsU16 e.0

pub record Inv {F : Type 0} (jb : JitterBuffer F) : Type 0 where
  pub keyed : All IsKeyed jb.buf
  pub unique : GoMap.Unique ℕ_discrete jb.buf
  pub expected_u16 : IsU16 jb.expected
  pub max_u16 : IsU16 jb.max_seen
  pub empty_before : jb.have_seq ≡ false → jb.buf ≡ []

better-cases :
    (now : ℕ) (best : Option Buffered) (b : Buffered)
    → (better now best b ≡ best) ⊎ ((better now best b ≡ some b) × (b.due ≤ now))
better-cases now best b = ground arith

find-cons :
    (k : ℕ) (b x : Buffered) (m : List (ℕ × Buffered))
    → find k m ≡ none
    → find x.p.sequence_number m ≡ some x
    → find x.p.sequence_number ((k, b) ∷ m) ≡ some x
unfolding GoMap.lookup
find-cons k b x m absent found = ground arith

-- The search returns the packet held from before, or one that is stored and due.
pub best_due-cases :
    (now : ℕ) (best : Option Buffered) (m : List (ℕ × Buffered))
    → All IsKeyed m
    → GoMap.Unique ℕ_discrete m
    → (best_due now best m ≡ best)
      ⊎ ((b : Buffered) × (best_due now best m ≡ some b)
          × (find b.p.sequence_number m ≡ some b)
          × (b.due ≤ now))
unfolding best_due
best_due-cases now best [] ks u = inl refl
best_due-cases now best ((k, b) ∷ m) ks u =
    elim (best_due-cases now (better now best b) m ks.1 u.1) [
      | inr (x, e, found, due) ↦ inr (x, e, find-cons k b x m u.0 found, due)
      | inl e ↦ elim (better-cases now best b) [
        | inl old ↦ inl (e ∙ old)
        | inr new_best ↦
            inr (b, e ∙ new_best.0, rw ks.0.0 (unfold GoMap.lookup in ground arith), new_best.1)
      ]
    ]

pub next_present_due-found :
    (now : ℕ) (m : List (ℕ × Buffered)) (b : Buffered)
    → All IsKeyed m
    → GoMap.Unique ℕ_discrete m
    → next_present_due m now ≡ some b
    → (find b.p.sequence_number m ≡ some b) × (b.due ≤ now)
unfolding next_present_due
next_present_due-found now m b ks u h = elim (best_due-cases now none m ks u) [
  | inl e ↦ absurd (ground (arith, e))
  | inr (x, e, found, due) ↦ ground (arith, e, found, due)
]

-- When the search finds nothing, nothing stored is due.
best_due-some : (now : ℕ) (c : Buffered) (m : List (ℕ × Buffered)) → best_due now (some c) m ≢ none
unfolding best_due
best_due-some now c [] = ground arith
best_due-some now c ((k, b) ∷ m) = ground (arith, best_due-some now c m, best_due-some now b m)

pub next_present_due-none :
    (now : ℕ) (m : List (ℕ × Buffered))
    → next_present_due m now ≡ none
    → All (λ (e : ℕ × Buffered). now < e.1.due) m
unfolding next_present_due
next_present_due-none now [] h = tt
next_present_due-none now ((k, b) ∷ m) h =
    ground (arith, best_due-some now b m, next_present_due-none now m)

-- A ladder of four tests, by cases.
ifs_cases {ℓ} :
    {A : Type ℓ} (P : A → Type 0) (h d l r : Bool) (first dup late reordered newest : A)
    → (h ≡ false → P first)
    → (h ≡ true → d ≡ true → P dup)
    → (h ≡ true → d ≡ false → l ≡ true → P late)
    → (h ≡ true → d ≡ false → l ≡ false → P reordered)
    → (h ≡ true → d ≡ false → l ≡ false → P newest)
    → P (
        if not h
        then first
        else if d
        then dup
        else if l
        then late
        else if r
        then reordered
        else newest)
ifs_cases P false d l r x1 x2 x3 x4 x5 f1 f2 f3 f4 f5 = f1 refl
ifs_cases P true true l r x1 x2 x3 x4 x5 f1 f2 f3 f4 f5 = f2 refl refl
ifs_cases P true false true r x1 x2 x3 x4 x5 f1 f2 f3 f4 f5 = f3 refl refl refl
ifs_cases P true false false true x1 x2 x3 x4 x5 f1 f2 f3 f4 f5 = f4 refl refl refl
ifs_cases P true false false false x1 x2 x3 x4 x5 f1 f2 f3 f4 f5 = f5 refl refl refl

module _ {F : Type 0} where
  pub store-Inv :
      (jb : JitterBuffer F) (p : Packet) (recv : ℕ)
      → IsU16 p.sequence_number
      → IsU16 jb.expected
      → IsU16 jb.max_seen
      → jb.have_seq ≡ true
      → All IsKeyed jb.buf
      → GoMap.Unique ℕ_discrete jb.buf
      → Inv (store jb p recv)
  unfolding store
  store-Inv jb p recv hp he hm hh ks u = record {
    keyed = GoMap.All-insert ℕ_discrete IsKeyed p.sequence_number _ jb.buf (refl, hp) ks;
    unique = GoMap.insert-Unique ℕ_discrete p.sequence_number _ jb.buf u;
    expected_u16 = he;
    max_u16 = hm;
    empty_before = λ e. absurd (cc);
  }

  pub played-Inv : (jb : JitterBuffer F) → Inv jb → Inv (played jb)
  unfolding played
  played-Inv jb v = record {
    keyed = GoMap.All-delete ℕ_discrete IsKeyed jb.expected jb.buf v.keyed;
    unique = GoMap.delete-Unique ℕ_discrete jb.expected jb.buf v.unique;
    expected_u16 = unfold seq_next in omega arith;
    max_u16 = v.max_u16;
    empty_before = λ h. rw (v.empty_before h) (unfold GoMap.delete in refl);
  }

  pub skipped-Inv :
      (jb : JitterBuffer F) (b : Buffered)
      → Inv jb
      → find b.p.sequence_number jb.buf ≡ some b
      → Inv (skipped jb b)
  unfolding skipped
  skipped-Inv jb b v found = record {
    keyed = v.keyed;
    unique = v.unique;
    expected_u16 =
        (GoMap.All-lookup ℕ_discrete IsKeyed b.p.sequence_number jb.buf b v.keyed found).1;
    max_u16 = v.max_u16;
    empty_before = v.empty_before;
  }

module _ {F : Type 0} (fl : Float64 F) where
  pub new-Inv : (target : ℕ) (on_loss : Bool) → Inv (new fl target on_loss)
  unfolding new
  new-Inv target on_loss = record {
    keyed = tt;
    unique = tt;
    expected_u16 = omega arith;
    max_u16 = omega arith;
    empty_before = λ _. refl;
  }

  -- The jitter estimate touches nothing that orders packets, and no counter.
  pub record Agree (a b : JitterBuffer F) : Type 0 where
    pub buf_eq : a.buf ≡ b.buf
    pub expected_eq : a.expected ≡ b.expected
    pub max_eq : a.max_seen ≡ b.max_seen
    pub have_eq : a.have_seq ≡ b.have_seq
    pub target_eq : a.target ≡ b.target
    pub received_eq : a.stats.received ≡ b.stats.received
    pub lost_eq : a.stats.lost ≡ b.stats.lost
    pub duplicate_eq : a.stats.duplicate ≡ b.stats.duplicate
    pub reordered_eq : a.stats.reordered ≡ b.stats.reordered
    pub late_eq : a.stats.late ≡ b.stats.late

  pub update_jitter-Agree :
      (jb : JitterBuffer F) (p : Packet) (recv : ℕ) → Agree (update_jitter fl jb p recv) jb
  unfolding update_jitter
  update_jitter-Agree jb p recv = ground arith

  -- Storing what was pushed, after the estimate.
  pub stored-Inv :
      (jb : JitterBuffer F) (p : Packet) (recv : ℕ)
      → IsU16 p.sequence_number
      → IsU16 jb.expected
      → IsU16 jb.max_seen
      → jb.have_seq ≡ true
      → All IsKeyed jb.buf
      → GoMap.Unique ℕ_discrete jb.buf
      → Inv (store (update_jitter fl jb p recv) p recv)
  stored-Inv jb p recv hp he hm hh ks u =
      let a = update_jitter-Agree jb p recv in
      store-Inv (update_jitter fl jb p recv) p recv hp (rw a.expected_eq he) (rw a.max_eq hm)
        (a.have_eq ∙ hh) (rw a.buf_eq ks) (rw a.buf_eq u)

  -- The five branches of `Push`.
  pub push_received_cases :
      (P : JitterBuffer F → Type 0) (jb : JitterBuffer F) (p : Packet) (recv : ℕ)
      → (jb.have_seq ≡ false
          → P (store (update_jitter fl (start_at jb p.sequence_number) p recv) p recv))
      → (jb.have_seq ≡ true → has p.sequence_number jb.buf ≡ true → P (count_duplicate jb))
      → (jb.have_seq ≡ true
          → has p.sequence_number jb.buf ≡ false
          → seq_before p.sequence_number jb.expected ≡ true
          → P (count_late jb))
      → (jb.have_seq ≡ true
          → has p.sequence_number jb.buf ≡ false
          → seq_before p.sequence_number jb.expected ≡ false
          → P (store (update_jitter fl (count_reordered jb) p recv) p recv))
      → (jb.have_seq ≡ true
          → has p.sequence_number jb.buf ≡ false
          → seq_before p.sequence_number jb.expected ≡ false
          → P (store (update_jitter fl (record jb { max_seen = p.sequence_number }) p recv) p recv))
      → P (push_received fl jb p recv)
  unfolding push_received
  push_received_cases P jb p recv f d l r n =
      ifs_cases P jb.have_seq (has p.sequence_number jb.buf)
        (seq_before p.sequence_number jb.expected) (seq_before p.sequence_number jb.max_seen) _ _ _
        _ _ f d l r n

  push_received-Inv :
      (jb : JitterBuffer F) (p : Packet) (recv : ℕ)
      → IsU16 p.sequence_number
      → Inv jb
      → Inv (push_received fl jb p recv)
  unfolding start_at count_duplicate count_late count_reordered
  push_received-Inv jb p recv hp v =
      push_received_cases Inv jb p recv (λ e. stored-Inv _ p recv hp hp hp refl v.keyed v.unique)
        (λ _ _. ground arith) (λ _ _ _. ground arith)
        (λ e _ _. stored-Inv _ p recv hp v.expected_u16 v.max_u16 e v.keyed v.unique)
        (λ e _ _. stored-Inv _ p recv hp v.expected_u16 hp e v.keyed v.unique)

  pub push-Inv :
      (jb : JitterBuffer F) (p : Packet) (recv : ℕ)
      → IsU16 p.sequence_number
      → Inv jb
      → Inv (push fl jb p recv)
  unfolding push count_received
  push-Inv jb p recv hp v = push_received-Inv (count_received jb) p recv hp (ground arith)
