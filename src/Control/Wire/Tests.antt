-- ===== src/Control/Wire/Tests.antt =====
-- Pings and pongs on the wire, in a notation of one number or two.
use espmic.Common.{
  ℕ, ◌≡◌, false, Option, none, some, String, List, [], ◌∷◌, map, refl, arith, subst, some_inj,
}
use espmic.Control.Frame.{push}
use espmic.Control.Messages.{
  Message, Kind, kind, ping, pong, m_hello, m_hello_ack, m_ping, m_pong, m_start_stream,
  m_stream_started, m_stop_stream, m_stream_stopped, m_get_status, m_status, m_error, m_set_config,
}
use espmic.Control.Wire.{Json, IsJson, kind_text, message, encode, decode_payload}
use espmic.Control.Wire.RoundTrip.{sent, Payloads, decode-sent}

abbrev beats : Message → Option (List ℕ)
beats (m_ping seq) = some (seq ∷ [])
beats (m_pong seq) = some (0 ∷ seq ∷ [])
beats _ = none

abbrev named : List ℕ → Option String
named [] = none
named (seq ∷ []) = some "ping"
named (a ∷ seq ∷ rest) = some "pong"

abbrev beat_of : Kind → List ℕ → Option Message
beat_of ping (seq ∷ []) = some (m_ping seq)
beat_of pong (n ∷ seq ∷ []) = some (m_pong seq)
beat_of _ _ = none

abbrev two_numbers : Json
two_numbers = record {
  marshal = λ m. beats m;
  type_of = λ p. named p;
  unmarshal = λ k p. beat_of k p;
}

beats-type : (m : Message) (p : List ℕ) → beats m ≡ some p → named p ≡ some (kind_text (kind m))
unfolding kind kind_text
beats-type (m_ping seq) p h = subst (λ q. named q ≡ some "ping") (some_inj h) refl
beats-type (m_pong seq) p h = subst (λ q. named q ≡ some "pong") (some_inj h) refl
beats-type (m_hello m) p h = absurd (cc)
beats-type (m_hello_ack m) p h = absurd (cc)
beats-type (m_start_stream m) p h = absurd (cc)
beats-type (m_stream_started m) p h = absurd (cc)
beats-type (m_stop_stream m) p h = absurd (cc)
beats-type (m_stream_stopped m) p h = absurd (cc)
beats-type (m_get_status m) p h = absurd (cc)
beats-type (m_status m) p h = absurd (cc)
beats-type (m_error m) p h = absurd (cc)
beats-type (m_set_config m) p h = absurd (cc)

beats-read : (m : Message) (p : List ℕ) → beats m ≡ some p → beat_of (kind m) p ≡ some m
unfolding kind
beats-read (m_ping seq) p h = subst (λ q. beat_of ping q ≡ some (m_ping seq)) (some_inj h) refl
beats-read (m_pong seq) p h = subst (λ q. beat_of pong q ≡ some (m_pong seq)) (some_inj h) refl
beats-read (m_hello m) p h = absurd (cc)
beats-read (m_hello_ack m) p h = absurd (cc)
beats-read (m_start_stream m) p h = absurd (cc)
beats-read (m_stream_started m) p h = absurd (cc)
beats-read (m_stop_stream m) p h = absurd (cc)
beats-read (m_stream_stopped m) p h = absurd (cc)
beats-read (m_get_status m) p h = absurd (cc)
beats-read (m_status m) p h = absurd (cc)
beats-read (m_error m) p h = absurd (cc)
beats-read (m_set_config m) p h = absurd (cc)

two_numbers-IsJson : IsJson two_numbers
two_numbers-IsJson = record {
  type_of-marshal = λ m p h. beats-type m p h;
  unmarshal-marshal = λ m p h. beats-read m p h;
}

abbrev messages : List Message
messages = m_ping 3 ∷ m_pong 3 ∷ []

abbrev payloads : List (List ℕ)
payloads = (3 ∷ []) ∷ (0 ∷ 3 ∷ []) ∷ []

encoded_as : Payloads two_numbers messages payloads
unfolding encode
encoded_as = (refl, omega arith, (refl, omega arith, tt))

decode-sent_example :
    (push (record { buf = [] }) (sent two_numbers [] messages)
      ≡ some (record {
        frames = payloads;
        need_more = false;
        too_large = false;
        left = record { buf = [] };
      }))
    × (map (decode_payload two_numbers) payloads ≡ map message messages)
decode-sent_example = decode-sent two_numbers two_numbers-IsJson messages payloads encoded_as
