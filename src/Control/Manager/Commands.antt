-- ===== src/Control/Manager/Commands.antt =====
-- A command from its registration to its reply.
use espmic.Common.{
  ℕ, ◌≡◌, ◌≢◌, ◌∙◌, Bool, Option, none, some, String, String_discrete, List, arith, refl, ap,
}
use mathlib.Core.Option
use espmic.Common.GoMap
use espmic.Control.Messages.{
  Message, m_set_config, m_start_stream, SetConfig, StartStream, validate,
}
use espmic.Control.Manager.{
  Channels, SessionManager, session_of, channel, CommandError, awaits, fails, register,
  send_set_config, send_start_stream, wake_by_reply, wake_by_context, wake_stream_by_reply,
  wake_stream_by_context,
}
use espmic.Control.Manager.Replies.{
  handle_all, first_reply, first_stream_reply, channel-handle_all, channel_stream-handle_all,
}

module _ (send : ℕ → Message → Bool) where
  register-awaits :
      (chs : Channels) (s : Option ℕ) (rid : String) (msg : Message)
      → (register send chs s rid msg).1 ≡ awaits
      → channel rid (register send chs s rid msg).0 ≡ some none
  unfolding register
  register-awaits chs none rid msg h = ground arith
  register-awaits chs (some s) rid msg h =
      ground (arith, GoMap.lookup-insert String_discrete rid rid none chs)

  register-fails :
      (chs : Channels) (s : Option ℕ) (rid j : String) (msg : Message) (e : CommandError)
      → (register send chs s rid msg).1 ≡ fails e
      → channel j (register send chs s rid msg).0 ≡ channel j chs
  unfolding register
  register-fails chs none rid j msg e h = refl
  register-fails chs (some s) rid j msg e h = ground (
    arith,
    GoMap.lookup-insert String_discrete rid j none chs,
    GoMap.lookup-delete String_discrete rid j (GoMap.insert String_discrete rid none chs),
  )

  -- A set_config that fails before it waits, for whatever reason, leaves every waiting caller's
  -- channel as it was.
  pub send_set_config-fails :
      (m : SessionManager) (device : String) (req : Option SetConfig) (e : CommandError)
      (j : String)
      → (send_set_config send m device req).1 ≡ fails e
      → (channel j (send_set_config send m device req).0.pending ≡ channel j m.pending)
        × (channel j (send_set_config send m device req).0.stream_ch ≡ channel j m.stream_ch)
        × ((send_set_config send m device req).0.sessions ≡ m.sessions)
  unfolding send_set_config
  send_set_config-fails m device none e j h = (refl, refl, refl)
  send_set_config-fails m device (some req) e j h =
      ground (
        arith,
        register-fails m.pending (session_of m device) req.request_id j (m_set_config req) e,
      )

  -- Starting a stream, likewise.
  pub send_start_stream-fails :
      (m : SessionManager) (device : String) (req : Option StartStream) (e : CommandError)
      (j : String)
      → (send_start_stream send m device req).1 ≡ fails e
      → (channel j (send_start_stream send m device req).0.pending ≡ channel j m.pending)
        × (channel j (send_start_stream send m device req).0.stream_ch ≡ channel j m.stream_ch)
        × ((send_start_stream send m device req).0.sessions ≡ m.sessions)
  unfolding send_start_stream
  send_start_stream-fails m device none e j h = (refl, refl, refl)
  send_start_stream-fails m device (some req) e j h = ground (
    arith,
    register-fails m.stream_ch (session_of m device) req.request_id j (m_start_stream req) e,
  )

  config_waits :
      (m : SessionManager) (device : String) (req : SetConfig)
      → (send_set_config send m device (some req)).1 ≡ awaits
      → (validate req ≡ none)
        × (req.request_id ≢ "")
        × (channel req.request_id (send_set_config send m device (some req)).0.pending ≡ some none)
  unfolding send_set_config
  config_waits m device req h =
      ground
        (arith, register-awaits m.pending (session_of m device) req.request_id (m_set_config req))

  wake-filled :
      (m : SessionManager) (rid : String) (o : Option Message)
      → channel rid m.pending ≡ some o
      → wake_by_reply m rid ≡ Option.map (λ x. (x, wake_by_context m rid)) o
  unfolding wake_by_reply wake_by_context
  wake-filled m rid none h = ground arith
  wake-filled m rid (some x) h = ground arith

  -- A set_config that waits has passed validation, and wakes with the first message of its request
  -- id among those handled since, as long as there is one, and not otherwise; waking removes its
  -- channel, by a reply or by the end of its context.
  pub send_set_config-reply :
      (m : SessionManager) (device : String) (req : SetConfig) (msgs : List Message)
      → (send_set_config send m device (some req)).1 ≡ awaits
      → let m' = handle_all (send_set_config send m device (some req)).0 msgs in
        (validate req ≡ none)
        × (wake_by_reply m' req.request_id
            ≡ Option.map
                (λ x. (x, wake_by_context m' req.request_id))
                (first_reply req.request_id msgs))
        × (channel req.request_id (wake_by_context m' req.request_id).pending ≡ none)
  send_set_config-reply m device req msgs h =
      let (valid, ne, waiting) = config_waits m device req h in
      let m1 = (send_set_config send m device (some req)).0 in
      (
        valid,
        wake-filled (handle_all m1 msgs) req.request_id (first_reply req.request_id msgs)
            (channel-handle_all m1 req.request_id msgs ne waiting),
        removed (handle_all m1 msgs) req.request_id,
      )
    where
      removed :
          (m' : SessionManager) (rid : String) → channel rid (wake_by_context m' rid).pending ≡ none
      removed m' rid =
          unfold wake_by_context in
          ground (arith, GoMap.lookup-delete String_discrete rid rid m'.pending)

  start_waits :
      (m : SessionManager) (device : String) (req : StartStream)
      → (send_start_stream send m device (some req)).1 ≡ awaits
      → (req.request_id ≢ "")
        × (channel req.request_id (send_start_stream send m device (some req)).0.stream_ch
            ≡ some none)
        × ((send_start_stream send m device (some req)).0.pending ≡ m.pending)
  unfolding send_start_stream
  start_waits m device req h =
      ground (
        arith,
        register-awaits m.stream_ch (session_of m device) req.request_id (m_start_stream req),
      )

  wake_stream-filled :
      (m : SessionManager) (rid : String) (o : Option Message)
      → channel rid m.stream_ch ≡ some o
      → wake_stream_by_reply m rid ≡ Option.map (λ x. (x, wake_stream_by_context m rid)) o
  unfolding wake_stream_by_reply wake_stream_by_context
  wake_stream-filled m rid none h = ground arith
  wake_stream-filled m rid (some x) h = ground arith

  -- A start_stream that waits, while no request of the same id does, wakes with the first
  -- stream_started, stream_stopped or error of its request id among the messages handled since, as
  -- long as there is one, and not otherwise.
  pub send_start_stream-reply :
      (m : SessionManager) (device : String) (req : StartStream) (msgs : List Message)
      → (send_start_stream send m device (some req)).1 ≡ awaits
      → channel req.request_id m.pending ≡ none
      → let m' = handle_all (send_start_stream send m device (some req)).0 msgs in
        wake_stream_by_reply m' req.request_id
        ≡ Option.map
            (λ x. (x, wake_stream_by_context m' req.request_id))
            (first_stream_reply req.request_id msgs)
  send_start_stream-reply m device req msgs h free =
      let (ne, waiting, same_pending) = start_waits m device req h in
      let m1 = (send_start_stream send m device (some req)).0 in
      wake_stream-filled (handle_all m1 msgs) req.request_id
        (first_stream_reply req.request_id msgs)
        (channel_stream-handle_all m1 req.request_id msgs ne
          (ap (channel req.request_id) same_pending ∙ free) waiting)
