-- ===== src/Control/Frame/Stream.antt =====
-- What the loop of `Push` does to a buffer, and that it does not matter how the bytes are cut into
-- pushes.
use espmic.Common.{
  ℕ, zero, suc, ◌+◌, ◌≤◌, ◌<◌, ◌≡◌, ◌∙◌, true, false, some, List, [], ◌∷◌, ◌++◌, ltb, if◌then◌else◌,
  length, take, drop, arith, refl, length-append, length-drop, take-append, drop-append, append-nil,
  append_assoc, ap,
}
use espmic.Control.Frame.{
  max_payload_bytes, uint32, FrameReader, Next, frame_complete, frame_need_more, frame_error, next,
  Pushed, push_loop, push,
}

pub data Status : Type 0 where
  waiting broken : Status

-- A buffer cut into frames: those complete, how it ends, and what is left.
pub data Cut : List ℕ → List (List ℕ) → Status → List ℕ → Type 0 where
  ends_waiting : (buf : List ℕ) → next buf ≡ frame_need_more → Cut buf [] waiting buf
  ends_broken : (buf : List ℕ) → next buf ≡ frame_error → Cut buf [] broken buf
  takes :
      (buf p rest : List ℕ) {ps : List (List ℕ)} {st : Status} {left : List ℕ}
      → next buf ≡ frame_complete p rest
      → Cut rest ps st left
      → Cut buf (p ∷ ps) st left

abbrev pub result : List (List ℕ) → Status → List ℕ → Pushed
result ps waiting left = record {
  frames = ps;
  need_more = ltb 0 (length left);
  too_large = false;
  left = record { buf = left };
}
result ps broken left = record {
  frames = ps;
  need_more = false;
  too_large = true;
  left = record { buf = left };
}

-- When the front of the buffer is a frame.
pub record IsFrame (buf p rest : List ℕ) : Type 0 where
  pub header : 4 ≤ length buf
  pub small : uint32 buf ≤ max_payload_bytes
  pub whole : 4 + uint32 buf ≤ length buf
  pub payload : take (uint32 buf) (drop 4 buf) ≡ p
  pub behind : drop (4 + uint32 buf) buf ≡ rest

next-IsFrame : (buf p rest : List ℕ) → next buf ≡ frame_complete p rest → IsFrame buf p rest
unfolding next
next-IsFrame buf p rest h = record {
  header = ground arith;
  small = ground arith;
  whole = ground arith;
  payload = ground arith;
  behind = ground arith;
}

pub IsFrame-next : (buf p rest : List ℕ) → IsFrame buf p rest → next buf ≡ frame_complete p rest
unfolding next
IsFrame-next buf p rest f = ground (arith, f.header, f.small, f.whole, f.payload, f.behind)

next_shorter : (buf p rest : List ℕ) → next buf ≡ frame_complete p rest → length rest < length buf
next_shorter buf p rest h =
    let f = next-IsFrame buf p rest h in
    omega (arith, ap length f.behind, length-drop (4 + uint32 buf) buf)

-- The header is read from the first four bytes.
uint32-append : (buf x : List ℕ) → 4 ≤ length buf → uint32 (buf ++ x) ≡ uint32 buf
unfolding uint32
uint32-append (a ∷ b ∷ c ∷ d ∷ rest) x h = refl
uint32-append _ x h = absurd (omega arith)

next-append_complete :
    (buf x p rest : List ℕ)
    → next buf ≡ frame_complete p rest
    → next (buf ++ x) ≡ frame_complete p (rest ++ x)
next-append_complete buf x p rest h = IsFrame-next (buf ++ x) p (rest ++ x) (record {
  header = omega (arith, f.header, length-append buf x);
  small = rw (uint32-append buf x f.header) f.small;
  whole = rw (uint32-append buf x f.header) (omega (arith, f.whole, length-append buf x));
  payload = rw (uint32-append buf x f.header) (
      ap (take (uint32 buf)) (drop-append 4 buf x f.header)
      ∙ take-append (uint32 buf) (drop 4 buf) x (omega (arith, f.whole, length-drop 4 buf))
      ∙ f.payload);
  behind =
      rw (uint32-append buf x f.header)
        (drop-append (4 + uint32 buf) buf x f.whole ∙ ap (λ r. r ++ x) f.behind);
})
  where
    f : IsFrame buf p rest
    f = next-IsFrame buf p rest h

next-append_error : (buf x : List ℕ) → next buf ≡ frame_error → next (buf ++ x) ≡ frame_error
unfolding next
next-append_error buf x h = ground (arith, uint32-append buf x, length-append buf x)

push_loop-Cut :
    (fuel : ℕ) (buf : List ℕ) (ps : List (List ℕ))
    → length buf < fuel
    → (qs : List (List ℕ)) × (st : Status) × (left : List ℕ) × (push_loop fuel buf ps
        ≡ some (result (ps ++ qs) st left))
      × Cut buf qs st left
unfolding push_loop
push_loop-Cut zero buf ps h = elim h [ ]
push_loop-Cut (suc fuel) buf ps h =
    turn (next buf) refl (λ p rest lt. push_loop-Cut fuel rest (ps ++ (p ∷ [])) lt)
  where
    Loops : ℕ → List ℕ → List (List ℕ) → Type 0
    Loops f b acc =
        (qs : List (List ℕ)) × (st : Status) × (left : List ℕ) × (push_loop f b acc
          ≡ some (result (acc ++ qs) st left))
        × Cut b qs st left

    turn :
        (n : Next)
        → next buf ≡ n
        → ((p rest : List ℕ) → length rest < fuel → Loops fuel rest (ps ++ (p ∷ [])))
        → Loops (suc fuel) buf ps
    turn frame_error e rec =
        ([], broken, buf, rw (e, push_loop) (simp append-nil), ends_broken buf e)
    turn frame_need_more e rec =
        ([], waiting, buf, rw (e, push_loop) (simp append-nil), ends_waiting buf e)
    turn (frame_complete p rest) e rec =
        let (qs, st, left, eq, cut) = rec p rest (omega (arith, next_shorter buf p rest e)) in
        (p ∷ qs, st, left, rw (e, push_loop) (eq ∙ simp append_assoc), takes buf p rest e cut)

-- `Push` always returns, and its frames are those that the buffer is cut into.
pub push-Cut :
    (fr : FrameReader) (bytes : List ℕ)
    → (qs : List (List ℕ)) × (st : Status) × (left : List ℕ) × (push fr bytes
        ≡ some (result qs st left))
      × Cut (fr.buf ++ bytes) qs st left
unfolding push
push-Cut fr bytes =
    push_loop-Cut (suc (length (fr.buf ++ bytes))) (fr.buf ++ bytes) [] (omega arith)

-- Conversely a cut of the buffer is what `Push` returns.
Cut-push_loop :
    (fuel : ℕ) (buf : List ℕ) {ps : List (List ℕ)} {st : Status} {left : List ℕ}
    (acc : List (List ℕ))
    → length buf < fuel
    → Cut buf ps st left
    → push_loop fuel buf acc ≡ some (result (acc ++ ps) st left)
unfolding push_loop
Cut-push_loop zero buf acc h c = elim h [ ]
Cut-push_loop (suc fuel) buf acc h (ends_waiting _ e) = rw (e, push_loop) (simp append-nil)
Cut-push_loop (suc fuel) buf acc h (ends_broken _ e) = rw (e, push_loop) (simp append-nil)
Cut-push_loop (suc fuel) buf acc h (takes _ p rest e c) =
    rw (e, push_loop)
      (Cut-push_loop fuel rest (acc ++ (p ∷ [])) (omega (arith, next_shorter buf p rest e)) c
        ∙ simp append_assoc)

pub Cut-push :
    (fr : FrameReader) (bytes : List ℕ) {ps : List (List ℕ)} {st : Status} {left : List ℕ}
    → Cut (fr.buf ++ bytes) ps st left
    → push fr bytes ≡ some (result ps st left)
unfolding push
Cut-push fr bytes c =
    Cut-push_loop (suc (length (fr.buf ++ bytes))) (fr.buf ++ bytes) [] (omega arith) c

-- More bytes behind a buffer that was cut to its end, or behind one that is broken.
Cut-append :
    (buf x : List ℕ) {ps qs : List (List ℕ)} {st st' : Status} {r left : List ℕ}
    → Cut buf ps st r
    → st ≡ waiting
    → Cut (r ++ x) qs st' left
    → Cut (buf ++ x) (ps ++ qs) st' left
Cut-append buf x (ends_waiting _ e) w d = d
Cut-append buf x (ends_broken _ e) w d = absurd (cc)
Cut-append buf x (takes _ p rest e c) w d =
    takes (buf ++ x) p (rest ++ x) (next-append_complete buf x p rest e) (Cut-append rest x c w d)

Cut-append_broken :
    (buf x : List ℕ) {ps : List (List ℕ)} {st : Status} {r : List ℕ}
    → Cut buf ps st r
    → st ≡ broken
    → Cut (buf ++ x) ps broken (r ++ x)
Cut-append_broken buf x (ends_waiting _ e) w = absurd (cc)
Cut-append_broken buf x (ends_broken _ e) w = ends_broken (buf ++ x) (next-append_error buf x e)
Cut-append_broken buf x (takes _ p rest e c) w =
    takes (buf ++ x) p (rest ++ x) (next-append_complete buf x p rest e)
      (Cut-append_broken rest x c w)

-- What two pushes return together is what one push of all their bytes returns.
abbrev pub Together : FrameReader → List ℕ → List ℕ → Type 0
Together fr a b =
    (r s : Pushed) × (push fr a ≡ some r)
    × (push r.left b ≡ some s)
    × (push fr (a ++ b)
        ≡ some (
            if r.too_large
            then record r { left = record { buf = r.left.buf ++ b } }
            else record s { frames = r.frames ++ s.frames }))

-- How the bytes are cut into two pushes does not matter: if the first push fails, so does one push
-- of all bytes, with the same frames; otherwise the frames of both pushes, in order, are those of
-- one push of all bytes, which ends as the second push does.
pub push-append : (fr : FrameReader) (a b : List ℕ) → Together fr a b
push-append fr a b =
    let (ps, st, left, e, c) = push-Cut fr a in
    let (qs, st', left', e', c') = push-Cut (record { buf = left }) b in
    joined ps qs st st' left left' e e' c c'
  where
    regroup :
        {ps : List (List ℕ)} {st : Status} {left : List ℕ}
        → Cut ((fr.buf ++ a) ++ b) ps st left
        → Cut (fr.buf ++ (a ++ b)) ps st left
    regroup c = rw append_assoc at c

    joined :
        (ps qs : List (List ℕ)) (st st' : Status) (left left' : List ℕ)
        → push fr a ≡ some (result ps st left)
        → push (record { buf = left }) b ≡ some (result qs st' left')
        → Cut (fr.buf ++ a) ps st left
        → Cut (left ++ b) qs st' left'
        → Together fr a b
    joined ps qs waiting waiting left left' e e' c c' = (
      result ps waiting left,
      result qs waiting left',
      e,
      e',
      Cut-push fr (a ++ b) (regroup (Cut-append (fr.buf ++ a) b c refl c')),
    )
    joined ps qs waiting broken left left' e e' c c' = (
      result ps waiting left,
      result qs broken left',
      e,
      e',
      Cut-push fr (a ++ b) (regroup (Cut-append (fr.buf ++ a) b c refl c')),
    )
    joined ps qs broken waiting left left' e e' c c' = (
      result ps broken left,
      result qs waiting left',
      e,
      e',
      Cut-push fr (a ++ b) (regroup (Cut-append_broken (fr.buf ++ a) b c refl)),
    )
    joined ps qs broken broken left left' e e' c c' = (
      result ps broken left,
      result qs broken left',
      e,
      e',
      Cut-push fr (a ++ b) (regroup (Cut-append_broken (fr.buf ++ a) b c refl)),
    )
