-- ===== src/Control/Manager/Replies.antt =====
-- Which reply a waiting caller gets.
use espmic.Common.{
  ◌≡◌, ◌≢◌, ◌∙◌, true, false, Option, none, some, String, String_discrete, List, [], ◌∷◌, arith,
  refl, same, if◌then◌else◌, Bool-cases, inl, inr, ap, sym,
}
use espmic.Common.GoMap
use espmic.Control.Messages.{
  Message, m_hello, m_hello_ack, m_ping, m_pong, m_start_stream, m_stream_started, m_stop_stream,
  m_stream_stopped, m_get_status, m_status, m_error, m_set_config,
}
use espmic.Control.Manager.{
  Channels, SessionManager, channel, request_id_of, stream_reply_id, deliver, handle,
}

-- What a message does to one channel: it fills the empty channel of its own id.
abbrev filled : Option (Option Message) → Message → Option (Option Message)
filled none msg = none
filled (some none) msg = some (some msg)
filled (some (some old)) msg = some (some old)

channel-deliver :
    (chs : Channels) (id rid : String) (msg : Message)
    → rid ≢ ""
    → channel rid (deliver chs id msg).0
      ≡ (if same id rid then filled (channel rid chs) msg else channel rid chs)
unfolding deliver
channel-deliver chs id rid msg h = ground (
  arith,
  String_discrete id rid,
  String_discrete id "",
  GoMap.lookup-insert String_discrete id rid (some msg) chs,
)

routed-deliver :
    (chs : Channels) (id : String) (msg : Message)
    → channel id chs ≡ none
    → (deliver chs id msg).1 ≡ false
unfolding deliver
routed-deliver chs id msg h = ground arith

pending-handle :
    (m : SessionManager) (msg : Message)
    → (handle m msg).pending ≡ (deliver m.pending (request_id_of msg) msg).0
unfolding handle
pending-handle m msg = ground arith

stream_ch-handle :
    (m : SessionManager) (msg : Message)
    → (handle m msg).stream_ch ≡ (
        if (deliver m.pending (request_id_of msg) msg).1
        then m.stream_ch
        else (deliver m.stream_ch (stream_reply_id msg) msg).0)
unfolding handle
stream_ch-handle m msg = ground arith

-- Messages handled in this order.
abbrev pub handle_all : SessionManager → List Message → SessionManager
handle_all m [] = m
handle_all m (x ∷ xs) = handle_all (handle m x) xs

-- The request that a message replies to, empty for one that is no reply.
abbrev pub replied_to : Message → String
replied_to (m_status m) = m.request_id
replied_to (m_error m) = m.request_id
replied_to (m_stream_started m) = m.request_id
replied_to (m_stream_stopped m) = m.request_id
replied_to _ = ""

request_id_of-replied_to : (x : Message) → request_id_of x ≡ replied_to x
unfolding request_id_of
request_id_of-replied_to (m_hello m) = refl
request_id_of-replied_to (m_hello_ack m) = refl
request_id_of-replied_to (m_ping m) = refl
request_id_of-replied_to (m_pong m) = refl
request_id_of-replied_to (m_start_stream m) = refl
request_id_of-replied_to (m_stream_started m) = refl
request_id_of-replied_to (m_stop_stream m) = refl
request_id_of-replied_to (m_stream_stopped m) = refl
request_id_of-replied_to (m_get_status m) = refl
request_id_of-replied_to (m_status m) = refl
request_id_of-replied_to (m_error m) = refl
request_id_of-replied_to (m_set_config m) = refl

-- The first reply to a request.
abbrev pub first_reply : String → List Message → Option Message
first_reply rid [] = none
first_reply rid (x ∷ xs) = if same (replied_to x) rid then some x else first_reply rid xs

abbrev pub first_stream_reply : String → List Message → Option Message
first_stream_reply rid [] = none
first_stream_reply rid (x ∷ xs) =
    if same (stream_reply_id x) rid then some x else first_stream_reply rid xs

held_pending :
    (m : SessionManager) (rid : String) (old : Message) (msgs : List Message)
    → rid ≢ ""
    → channel rid m.pending ≡ some (some old)
    → channel rid (handle_all m msgs).pending ≡ some (some old)
held_pending m rid old [] h e = e
held_pending m rid old (x ∷ xs) h e = held_pending (handle m x) rid old xs h (
    ground (
      arith,
      ap (channel rid) (pending-handle m x),
      channel-deliver m.pending (request_id_of x) rid x h,
    ))

pub channel-handle_all :
    (m : SessionManager) (rid : String) (msgs : List Message)
    → rid ≢ ""
    → channel rid m.pending ≡ some none
    → channel rid (handle_all m msgs).pending ≡ some (first_reply rid msgs)
channel-handle_all m rid [] h e = e
channel-handle_all m rid (x ∷ xs) h e = elim (Bool-cases (same (replied_to x) rid)) [
  | inl own ↦ rw own (held_pending (handle m x) rid x xs h (step own))
  | inr other ↦ rw other (channel-handle_all (handle m x) rid xs h (skip other))
]
  where
    after : channel rid (handle m x).pending ≡ (
        if same (replied_to x) rid then filled (channel rid m.pending) x else channel rid m.pending)
    after =
        ap (channel rid) (pending-handle m x)
        ∙ channel-deliver m.pending (request_id_of x) rid x h
        ∙ ap (λ i. if same i rid then filled (channel rid m.pending) x else channel rid m.pending)
            (request_id_of-replied_to x)

    step : same (replied_to x) rid ≡ true → channel rid (handle m x).pending ≡ some (some x)
    step own = after ∙ rw (own, e) refl

    skip : same (replied_to x) rid ≡ false → channel rid (handle m x).pending ≡ some none
    skip other = after ∙ rw other e

-- The stream channels, while no request of the same id waits.
absent_pending :
    (m : SessionManager) (rid : String) (x : Message)
    → rid ≢ ""
    → channel rid m.pending ≡ none
    → channel rid (handle m x).pending ≡ none
absent_pending m rid x h e = ground (
  arith,
  ap (channel rid) (pending-handle m x),
  channel-deliver m.pending (request_id_of x) rid x h,
)

-- A message that answers a stream carries the same id as a request's reply.
stream_reply_id-request :
    (x : Message) (rid : String) → rid ≢ "" → stream_reply_id x ≡ rid → request_id_of x ≡ rid
unfolding stream_reply_id request_id_of
stream_reply_id-request (m_stream_started m) rid h e = e
stream_reply_id-request (m_stream_stopped m) rid h e = e
stream_reply_id-request (m_error m) rid h e = e
stream_reply_id-request _ rid h e = absurd (h (sym e))

channel_stream-handle :
    (m : SessionManager) (rid : String) (x : Message)
    → rid ≢ ""
    → channel rid m.pending ≡ none
    → channel rid (handle m x).stream_ch ≡ (
        if same (stream_reply_id x) rid
        then filled (channel rid m.stream_ch) x
        else channel rid m.stream_ch)
channel_stream-handle m rid x h e =
    ap (channel rid) (stream_ch-handle m x) ∙ elim (String_discrete (stream_reply_id x) rid) [
      | yes own ↦
          rw
            (routed-deliver m.pending (request_id_of x) x
              (ap (λ i. channel i m.pending) (stream_reply_id-request x rid h own) ∙ e))
            (channel-deliver m.stream_ch (stream_reply_id x) rid x h)
      | no other ↦ elim (Bool-cases (deliver m.pending (request_id_of x) x).1) [
        | inl t ↦ rw t (ground arith)
        | inr f ↦ rw f (channel-deliver m.stream_ch (stream_reply_id x) rid x h)
      ]
    ]

held_stream :
    (m : SessionManager) (rid : String) (old : Message) (msgs : List Message)
    → rid ≢ ""
    → channel rid m.pending ≡ none
    → channel rid m.stream_ch ≡ some (some old)
    → channel rid (handle_all m msgs).stream_ch ≡ some (some old)
held_stream m rid old [] h a e = e
held_stream m rid old (x ∷ xs) h a e =
    held_stream (handle m x) rid old xs h (absent_pending m rid x h a)
      (ground (arith, channel_stream-handle m rid x h a))

pub channel_stream-handle_all :
    (m : SessionManager) (rid : String) (msgs : List Message)
    → rid ≢ ""
    → channel rid m.pending ≡ none
    → channel rid m.stream_ch ≡ some none
    → channel rid (handle_all m msgs).stream_ch ≡ some (first_stream_reply rid msgs)
channel_stream-handle_all m rid [] h a e = e
channel_stream-handle_all m rid (x ∷ xs) h a e = elim (Bool-cases (same (stream_reply_id x) rid)) [
  | inl own ↦ rw own (
      held_stream (handle m x) rid x xs h (absent_pending m rid x h a)
        (channel_stream-handle m rid x h a ∙ rw (own, e) refl))
  | inr other ↦ rw other (
      channel_stream-handle_all (handle m x) rid xs h (absent_pending m rid x h a)
        (channel_stream-handle m rid x h a ∙ rw other e))
]
