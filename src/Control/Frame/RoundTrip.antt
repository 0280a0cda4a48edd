-- ===== src/Control/Frame/RoundTrip.antt =====
-- What is written as frames is read back, by ReadFrame, by the FrameReader, and by the readFrame
-- method of a session as far as it goes.
use espmic.Common.{
  ℕ, suc, ◌+◌, ◌%◌, ◌^◌, ◌≤◌, ◌≡◌, ◌∙◌, inl, inr, false, none, some, List, [], ◌∷◌, ◌++◌, ltb,
  if◌then◌else◌, length, take, drop, arith, refl, length-append, take-append_length,
  drop-append_length, append-nil, append_assoc, ap, ap₂, All, le→leb, sym, Bool-cases,
}
use espmic.Control.Frame.{
  max_payload_bytes, put_uint32, uint32, ok, read_full, read_body, read_frame, Writer, write_frame,
  payload_too_large, next, push, got, receive_frame,
}
use espmic.Control.Frame.Stream.{
  Cut, takes, ends_waiting, IsFrame, IsFrame-next, waiting, Cut-push, result,
}

-- The bytes that `WriteFrame` writes for a payload that is not too large.
abbrev pub encoded : List ℕ → List ℕ
encoded payload = put_uint32 (length payload % 2 ^ 32) ++ payload

abbrev pub IsSmall : List ℕ → Type 0
IsSmall payload = length payload ≤ max_payload_bytes

not_ltb : (a b : ℕ) → b ≤ a → ltb a b ≡ false
not_ltb a b le = ground arith

uint32-encoded :
    (payload rest : List ℕ) → IsSmall payload → uint32 (encoded payload ++ rest) ≡ length payload
unfolding uint32 put_uint32
uint32-encoded payload rest h = omega arith

four : (n : ℕ) → 4 + n ≡ suc (suc (suc (suc n)))
four n = omega arith

IsFrame-encoded :
    (payload rest : List ℕ) → IsSmall payload → IsFrame (encoded payload ++ rest) payload rest
unfolding put_uint32
IsFrame-encoded payload rest h =
    let n = uint32-encoded payload rest h in
    record {
      header = omega arith;
      small = rw n h;
      whole = rw n (omega (arith, length-append payload rest));
      payload = rw n (take-append_length payload rest);
      behind = rw (n, four (length payload)) (drop-append_length payload rest);
    }

abbrev pub encoded_all : List (List ℕ) → List ℕ
encoded_all [] = []
encoded_all (p ∷ ps) = encoded p ++ encoded_all ps

Cut-encoded_all : (ps : List (List ℕ)) → All IsSmall ps → Cut (encoded_all ps) ps waiting []
Cut-encoded_all [] h = ends_waiting [] (unfold next in refl)
Cut-encoded_all (p ∷ ps) h =
    takes _ p (encoded_all ps) (IsFrame-next _ p _ (IsFrame-encoded p (encoded_all ps) h.0))
      (Cut-encoded_all ps h.1)

-- A writer that collects what is written and never fails, as a bytes.Buffer.
abbrev pub collector : Writer (List ℕ) ⊥
collector = record { write = λ w bytes. (w ++ bytes, none) }

-- WriteFrame writes the length and then the payload, or, for a payload of more than 16 KiB, nothing
-- and an error.
pub write_frame-collector :
    (w payload : List ℕ)
    → write_frame collector w payload ≡ (
        if ltb max_payload_bytes (length payload)
        then (w, some payload_too_large)
        else (w ++ encoded payload, none))
unfolding write_frame
write_frame-collector w payload = elim (Bool-cases (ltb max_payload_bytes (length payload))) [
  | inl large ↦ rw large refl
  | inr small ↦ rw small (rw append_assoc)
]

write_frame-small :
    (w payload : List ℕ)
    → IsSmall payload
    → write_frame collector w payload ≡ (w ++ encoded payload, none)
write_frame-small w payload h =
    write_frame-collector w payload ∙ rw (not_ltb max_payload_bytes (length payload) h) refl

-- What WriteFrame leaves in the collector, payload after payload.
abbrev pub written : List ℕ → List (List ℕ) → List ℕ
written w [] = w
written w (p ∷ ps) = written (write_frame collector w p).0 ps

written-encoded_all :
    (w : List ℕ) (ps : List (List ℕ)) → All IsSmall ps → written w ps ≡ w ++ encoded_all ps
written-encoded_all w [] h = rw append-nil
written-encoded_all w (p ∷ ps) h =
    rw (write_frame-small w p h.0)
      (written-encoded_all (w ++ encoded p) ps h.1 ∙ append_assoc w (encoded p) (encoded_all ps))

push-encoded_all :
    (ps : List (List ℕ))
    → All IsSmall ps
    → push (record { buf = [] }) (encoded_all ps) ≡ some (result ps waiting [])
push-encoded_all ps h = Cut-push (record { buf = [] }) (encoded_all ps) (Cut-encoded_all ps h)

-- A fresh FrameReader that is pushed, at once, what WriteFrame wrote for any payloads of at most
-- 16 KiB each returns exactly these payloads, asks for no more and keeps nothing.
pub push-written :
    (ps : List (List ℕ))
    → All IsSmall ps
    → push (record { buf = [] }) (written [] ps)
      ≡ some
          (record { frames = ps; need_more = false; too_large = false; left = record { buf = [] } })
push-written ps h = rw (written-encoded_all [] ps h) (push-encoded_all ps h)

read_full_enough :
    (n : ℕ) (xs : List ℕ) → n ≤ length xs → read_full n xs ≡ ok (take n xs) (drop n xs)
unfolding read_full
read_full_enough n xs h = rw (le→leb n (length xs) h)

read_body-encoded :
    (payload rest : List ℕ)
    → IsSmall payload
    → read_body (put_uint32 (length payload % 2 ^ 32)) (payload ++ rest) ≡ ok payload rest
unfolding read_body
read_body-encoded payload rest h =
    let n : uint32 (put_uint32 (length payload % 2 ^ 32)) ≡ length payload =
      unfold uint32 put_uint32 in omega arith in
    rw (n, not_ltb max_payload_bytes (length payload) h)
      (read_full_enough (length payload) (payload ++ rest)
          (omega (arith, length-append payload rest))
        ∙ ap₂ ok (take-append_length payload rest) (drop-append_length payload rest))

read_frame-encoded :
    (payload rest : List ℕ)
    → IsSmall payload
    → read_frame (encoded payload ++ rest) ≡ ok payload rest
unfolding read_frame put_uint32
read_frame-encoded payload rest h =
    rw (read_full_enough 4 (encoded payload ++ rest) (omega arith), read_frame)
      (read_body-encoded payload rest h)

-- ReadFrame returns the first payload of at most 16 KiB that WriteFrame wrote, and leaves what was
-- written for the others.
pub read_frame-written :
    (p : List ℕ) (ps : List (List ℕ))
    → All IsSmall (p ∷ ps)
    → read_frame (written [] (p ∷ ps)) ≡ ok p (written [] ps)
read_frame-written p ps h =
    ap read_frame (written-encoded_all [] (p ∷ ps) h)
    ∙ read_frame-encoded p (encoded_all ps) h.0
    ∙ ap (ok p) (sym (written-encoded_all [] ps h.1))

-- Where several frames arrive in one read, readFrame returns the payload of the first, and the
-- payloads of all others are gone: the session's reader keeps none of their bytes, and the reads
-- that follow are those that followed.
pub receive_frame-drops :
    (p : List ℕ) (ps reads : List (List ℕ))
    → All IsSmall (p ∷ ps)
    → receive_frame (written [] (p ∷ ps) ∷ reads) (record { buf = [] })
      ≡ got p (record { buf = [] }) reads
unfolding receive_frame
receive_frame-drops p ps reads h = simp (push-written (p ∷ ps) h)
