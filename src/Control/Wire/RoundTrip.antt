-- ===== src/Control/Wire/RoundTrip.antt =====
-- Messages that are written and read again.
use espmic.Common.{
  ℕ, ◌≡◌, ◌∙◌, false, Option, none, some, String_discrete, List, [], ◌∷◌, map, refl, arith, ap, ap₂,
  All,
}
use espmic.Control.Frame.{push, write_frame, WriteError}
use espmic.Control.Frame.RoundTrip.{IsSmall, collector, written, push-written}
use espmic.Control.Messages.{
  Message, Kind, kind, hello, hello_ack, ping, pong, start_stream, stream_started, stop_stream,
  stream_stopped, get_status, status, error, set_config,
}
use espmic.Control.Wire.{
  Json, IsJson, kind_text, kind_named, message, encode, decode_as, decode_payload, write_message,
  written_as,
}

kind_named-text : (k : Kind) → kind_named (kind_text k) ≡ some k
unfolding kind_named kind_text String_discrete
kind_named-text hello = refl
kind_named-text hello_ack = refl
kind_named-text ping = refl
kind_named-text pong = refl
kind_named-text start_stream = refl
kind_named-text stream_started = refl
kind_named-text stop_stream = refl
kind_named-text stream_stopped = refl
kind_named-text get_status = refl
kind_named-text status = refl
kind_named-text error = refl
kind_named-text set_config = refl

module _ (json : Json) where
  -- What is left in a collector that messages are written to.
  abbrev pub sent : List ℕ → List Message → List ℕ
  sent w [] = w
  sent w (m ∷ ms) = sent (write_message json collector w m).0 ms

  -- The payloads of the messages, of at most 16 KiB each.
  abbrev pub Payloads : List Message → List (List ℕ) → Type 0
  Payloads [] [] = Unit {0}
  Payloads [] (p ∷ ps) = ⊥
  Payloads (m ∷ ms) [] = ⊥
  Payloads (m ∷ ms) (p ∷ ps) = (encode json m ≡ some p) × IsSmall p × Payloads ms ps

  written_as-left : {W E : Type 0} (r : W × Option (WriteError E)) → (written_as json r).0 ≡ r.0
  written_as-left (w, none) = refl
  written_as-left (w, some e) = refl

  write_message-frame :
      (w p : List ℕ) (m : Message)
      → encode json m ≡ some p
      → (write_message json collector w m).0 ≡ (write_frame collector w p).0
  unfolding write_message
  write_message-frame w p m e =
      let q : write_message json collector w m ≡ written_as json (write_frame collector w p) =
        ground arith in
      ap (λ z. z.0) q ∙ written_as-left (write_frame collector w p)

  sent-written :
      (w : List ℕ) (ms : List Message) (ps : List (List ℕ))
      → Payloads ms ps
      → sent w ms ≡ written w ps
  sent-written w [] [] h = refl
  sent-written w [] (p ∷ ps) h = absurd h
  sent-written w (m ∷ ms) [] h = absurd h
  sent-written w (m ∷ ms) (p ∷ ps) (e, small, h) =
      ap (λ z. sent z ms) (write_message-frame w p m e)
      ∙ sent-written (write_frame collector w p).0 ms ps h

  small : (ms : List Message) (ps : List (List ℕ)) → Payloads ms ps → All IsSmall ps
  small [] [] h = tt
  small [] (p ∷ ps) h = absurd h
  small (m ∷ ms) [] h = absurd h
  small (m ∷ ms) (p ∷ ps) (e, s, h) = (s, small ms ps h)

  module _ (law : IsJson json) where
    decode-encode :
        (m : Message) (p : List ℕ) → encode json m ≡ some p → decode_payload json p ≡ message m
    unfolding encode decode_payload decode_as
    decode-encode m p e =
        ground
          (arith, law.type_of-marshal m p e, kind_named-text (kind m), law.unmarshal-marshal m p e)

    decode-encode_all :
        (ms : List Message) (ps : List (List ℕ))
        → Payloads ms ps
        → map (decode_payload json) ps ≡ map message ms
    decode-encode_all [] [] h = refl
    decode-encode_all [] (p ∷ ps) h = absurd h
    decode-encode_all (m ∷ ms) [] h = absurd h
    decode-encode_all (m ∷ ms) (p ∷ ps) (e, s, h) =
        ap₂ (λ x xs. x ∷ xs) (decode-encode m p e) (decode-encode_all ms ps h)

    -- If encoding/json reads back what it marshals, messages of any kinds that are written one
    -- after another, each in at most 16 KiB, are taken apart by a fresh FrameReader into as many
    -- payloads, with nothing left over, and DecodePayload makes of these the same messages again.
    pub decode-sent :
        (ms : List Message) (ps : List (List ℕ))
        → Payloads ms ps
        → (push (record { buf = [] }) (sent [] ms)
            ≡ some (record {
              frames = ps;
              need_more = false;
              too_large = false;
              left = record { buf = [] };
            }))
          × (map (decode_payload json) ps ≡ map message ms)
    decode-sent ms ps h = (
      ap (push (record { buf = [] })) (sent-written [] ms ps h) ∙ push-written ps (small ms ps h),
      decode-encode_all ms ps h,
    )
