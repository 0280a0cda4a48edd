-- ===== src/Control/Manager.antt =====
-- server/internal/control/session_manager.go: live sessions by device, and replies routed to the
-- callers that wait for them.
--
-- A session is a number, its pointer. A reply channel of capacity 1 is the message that it holds,
-- if any. Each part of a Send method between two waits is one step: registering and sending
-- (`wait_pending`, `wait_stream`), and waking up with a reply or with the context's end. `Send` of a
-- session is the parameter `send`, which says whether the write succeeds. A message is delivered in
-- one step, though the source lets go of the lock before it puts the message into the channel.
pub mod Replies
pub mod Sessions
pub mod Commands
use espmic.Common.{
  ℕ, ◌≡◌, Bool, true, false, not, ◌&&◌, Option, none, some, String, String_discrete, List, [], ◌∷◌,
  ◌==◌, if◌then◌else◌, same,
}
use espmic.Common.GoMap
use espmic.Control.Messages.{
  Kind, ping, pong, Message, m_hello, m_hello_ack, m_ping, m_pong, m_start_stream, m_stream_started,
  m_stop_stream, m_stream_stopped, m_get_status, m_status, m_error, m_set_config, kind, SetConfig,
  StartStream, StopStream, GetStatus, ConfigError, validate,
}

abbrev pub Channels : Type 0
Channels = List (String × Option Message)

pub record SessionManager : Type 0 where
  pub sessions : List (String × ℕ)
  pub pending : Channels
  pub stream_ch : Channels

unfoldable pub new_session_manager : SessionManager
new_session_manager = record { sessions = []; pending = []; stream_ch = [] }

abbrev pub session_of : SessionManager → String → Option ℕ
session_of m device = GoMap.lookup String_discrete device m.sessions

abbrev pub channel : String → Channels → Option (Option Message)
channel = GoMap.lookup String_discrete

-- `OnReady` of a session that has this device id.
unfoldable pub on_ready : SessionManager → ℕ → String → SessionManager
on_ready m s device =
    if not (same device "")
    then record m { sessions = GoMap.insert String_discrete device s m.sessions }
    else m

unfoldable pub unregister : SessionManager → String → SessionManager
unregister m device = record m { sessions = GoMap.delete String_discrete device m.sessions }

unfoldable pub unregister_if : SessionManager → String → ℕ → SessionManager × Bool
unfolding unregister
unregister_if m device s = elim (session_of m device) [
  | none ↦ (m, false)
  | some cur ↦ if cur == s then (unregister m device, true) else (m, false)
]

unfoldable pub is_connected : SessionManager → String → Bool
is_connected m device = elim (session_of m device) [ none ↦ false | some s ↦ true ]

unfoldable pub request_id_of : Message → String
request_id_of (m_status m) = m.request_id
request_id_of (m_error m) = m.request_id
request_id_of (m_stream_started m) = m.request_id
request_id_of (m_stream_stopped m) = m.request_id
request_id_of _ = ""

-- The messages that deliverStream routes.
unfoldable pub stream_reply_id : Message → String
stream_reply_id (m_stream_started m) = m.request_id
stream_reply_id (m_stream_stopped m) = m.request_id
stream_reply_id (m_error m) = m.request_id
stream_reply_id _ = ""

-- `select { case ch <- msg: return true; default: return false }` on the channel of `rid`.
unfoldable pub offer : Channels → String → Message → Channels × Bool
offer chs rid msg = elim (channel rid chs) [
  | none ↦ (chs, false)
  | some none ↦ (GoMap.insert String_discrete rid (some msg) chs, true)
  | some (some old) ↦ (chs, false)
]

unfoldable pub deliver : Channels → String → Message → Channels × Bool
unfolding offer
deliver chs rid msg = if same rid "" then (chs, false) else offer chs rid msg

unfoldable pub deliver_request : SessionManager → Message → SessionManager × Bool
deliver_request m msg =
    let (chs, routed) = deliver m.pending (request_id_of msg) msg in
    (record m { pending = chs }, routed)

unfoldable pub deliver_stream : SessionManager → Message → SessionManager × Bool
deliver_stream m msg =
    let (chs, routed) = deliver m.stream_ch (stream_reply_id msg) msg in
    (record m { stream_ch = chs }, routed)

-- `Handler`; what is left over is consumed or logged.
unfoldable pub handle : SessionManager → Message → SessionManager
unfolding deliver_request deliver_stream
handle m msg =
    let (m', routed) = deliver_request m msg in if routed then m' else (deliver_stream m' msg).0

pub data CommandError : Type 0 where
  nil_request no_request_id no_stream_id not_connected duplicate_await send_failed : CommandError
  invalid : ConfigError → CommandError

-- What a Send method does before it waits.
pub data Begun : Type 0 where
  awaits : Begun
  fails : CommandError → Begun

module _ (send : ℕ → Message → Bool) where
  unfoldable pub register : Channels → Option ℕ → String → Message → Channels × Begun
  register chs none rid msg = (chs, fails not_connected)
  register chs (some s) rid msg = elim (channel rid chs) [
    | some held ↦ (chs, fails duplicate_await)
    | none ↦
        let with_channel = GoMap.insert String_discrete rid none chs in
        if send s msg
        then (with_channel, awaits)
        else (GoMap.delete String_discrete rid with_channel, fails send_failed)
  ]

  unfoldable pub wait_pending : SessionManager → String → String → Message → SessionManager × Begun
  wait_pending m device rid msg =
      let (chs, b) = register m.pending (session_of m device) rid msg in
      (record m { pending = chs }, b)

  unfoldable pub wait_stream : SessionManager → String → String → Message → SessionManager × Begun
  wait_stream m device rid msg =
      let (chs, b) = register m.stream_ch (session_of m device) rid msg in
      (record m { stream_ch = chs }, b)

  unfoldable pub send_set_config :
      SessionManager → String → Option SetConfig → SessionManager × Begun
  unfolding wait_pending
  send_set_config m device none = (m, fails nil_request)
  send_set_config m device (some req) = elim (validate req) [
    | some e ↦ (m, fails (invalid e))
    | none ↦
        if same req.request_id ""
        then (m, fails no_request_id)
        else wait_pending m device req.request_id (m_set_config req)
  ]

  unfoldable pub send_start_stream :
      SessionManager → String → Option StartStream → SessionManager × Begun
  unfolding wait_stream
  send_start_stream m device none = (m, fails nil_request)
  send_start_stream m device (some req) =
      if same req.request_id ""
      then (m, fails no_request_id)
      else if same req.stream_id ""
      then (m, fails no_stream_id)
      else wait_stream m device req.request_id (m_start_stream req)

  unfoldable pub send_stop_stream :
      SessionManager → String → Option StopStream → SessionManager × Begun
  unfolding wait_stream
  send_stop_stream m device none = (m, fails nil_request)
  send_stop_stream m device (some req) =
      if same req.request_id ""
      then (m, fails no_request_id)
      else if same req.stream_id ""
      then (m, fails no_stream_id)
      else wait_stream m device req.request_id (m_stop_stream req)

  unfoldable pub send_get_status :
      SessionManager → String → Option GetStatus → SessionManager × Begun
  unfolding wait_pending
  send_get_status m device none = (m, fails nil_request)
  send_get_status m device (some req) =
      if same req.request_id ""
      then (m, fails no_request_id)
      else wait_pending m device req.request_id (m_get_status req)

-- `case msg := <-ch` with the deferred delete; `none` while the channel is empty.
unfoldable pub wake_by_reply : SessionManager → String → Option (Message × SessionManager)
wake_by_reply m rid = elim (channel rid m.pending) [
  | some (some msg) ↦ some (msg, record m { pending = GoMap.delete String_discrete rid m.pending })
  | _ ↦ none
]

-- `case <-ctx.Done()` with the deferred delete.
unfoldable pub wake_by_context : SessionManager → String → SessionManager
wake_by_context m rid = record m { pending = GoMap.delete String_discrete rid m.pending }

-- The same two, for callers that wait for a stream.
unfoldable pub wake_stream_by_reply : SessionManager → String → Option (Message × SessionManager)
wake_stream_by_reply m rid = elim (channel rid m.stream_ch) [
  | some (some msg) ↦
      some (msg, record m { stream_ch = GoMap.delete String_discrete rid m.stream_ch })
  | _ ↦ none
]

unfoldable pub wake_stream_by_context : SessionManager → String → SessionManager
wake_stream_by_context m rid = record m { stream_ch = GoMap.delete String_discrete rid m.stream_ch }
