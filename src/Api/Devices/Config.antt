-- ===== src/Api/Devices/Config.antt =====
-- A set_config request from its arrival to its answer.
use mathlib.Core.Option
use espmic.Common.{
  ℕ, ◌≡◌, ◌∙◌, Bool, false, Option, none, some, String, List, arith, refl, ap, sym, subst,
}
use espmic.Control.Messages.{
  Message, SetConfig, ConfigError, validate, m_hello, m_hello_ack, m_ping, m_pong, m_start_stream,
  m_stream_started, m_stop_stream, m_stream_stopped, m_get_status, m_status, m_error, m_set_config,
}
use espmic.Control.Messages.Validation.{IsValid, validate-IsValid}
use espmic.Control.Manager.{Begun, awaits, fails, wake_by_reply, wake_by_context, send_set_config}
use espmic.Control.Manager.Replies.{handle_all, first_reply}
use espmic.Control.Manager.Commands.{send_set_config-reply}
use espmic.Server.State.{Server}
use espmic.Server.Queries.{begin_push_config}
use espmic.Api.{Request, Response, waiting, reply_body}
use espmic.Api.Devices.{
  handle_config, handle_config_end, push_valid, config_progress, config_reply, command_end,
}

-- The request with the id that the handler gives it.
abbrev pub with_id : SetConfig → String → SetConfig
with_id given rid = record given { request_id = rid }

-- An error of the device is a bad gateway, any other reply a success; the reply is the body.
abbrev pub status_for : Message → ℕ
status_for (m_error e) = 502
status_for _ = 200

abbrev pub passed_on : {F : Type 0} → Message → Response F
passed_on msg = record { status = status_for msg; body = reply_body msg }

config_reply-passed_on : (F : Type 0) (msg : Message) → config_reply {F = F} msg ≡ passed_on msg
config_reply-passed_on F (m_hello m) = refl
config_reply-passed_on F (m_hello_ack m) = refl
config_reply-passed_on F (m_ping m) = refl
config_reply-passed_on F (m_pong m) = refl
config_reply-passed_on F (m_start_stream m) = refl
config_reply-passed_on F (m_stream_started m) = refl
config_reply-passed_on F (m_stop_stream m) = refl
config_reply-passed_on F (m_stream_stopped m) = refl
config_reply-passed_on F (m_get_status m) = refl
config_reply-passed_on F (m_status m) = refl
config_reply-passed_on F (m_error m) = refl
config_reply-passed_on F (m_set_config m) = refl

progress-awaits :
    (F : Type 0) (id rid : String) (b : Begun)
    → config_progress {F = F} id rid b ≡ waiting rid id 0
    → b ≡ awaits
progress-awaits F id rid awaits h = refl
progress-awaits F id rid (fails e) h = absurd (cc)

module _ {F : Type 0} (send : ℕ → Message → Bool) where
  pushed :
      (s : Server F) (id : String) (req : SetConfig) (v : Option ConfigError)
      → (push_valid send s id req v).1 ≡ waiting req.request_id id 0
      → ((send_set_config send s.ctrl id (some req)).1 ≡ awaits)
        × ((push_valid send s id req v).0
            ≡ record s { ctrl = (send_set_config send s.ctrl id (some req)).0 })
  unfolding begin_push_config
  pushed s id req (some e) h = absurd (cc)
  pushed s id req none h = (progress-awaits F id req.request_id _ h, refl)

  handled :
      (s : Server F) (r : Request SetConfig) (given : SetConfig) (rid : String)
      → r.body ≡ some given
      → (handle_config send s r rid).1 ≡ waiting rid r.id 0
      → handle_config send s r rid
        ≡ push_valid send s r.id (with_id given rid) (validate (with_id given rid))
  unfolding handle_config
  handled s r given rid h k = ground arith

  replied :
      (s : Server F) (rid : String) (d : Bool) (o : Option Message)
      → wake_by_reply s.ctrl rid ≡ Option.map (λ x. (x, wake_by_context s.ctrl rid)) o
      → command_end config_reply s rid false d
        ≡ Option.map (λ x. (record s { ctrl = wake_by_context s.ctrl rid }, passed_on x)) o
  replied s rid d none h = ground arith
  replied s rid d (some x) h = ground (arith, config_reply-passed_on F x)

  -- A set_config request that waits has a valid body, and its wait ends with the first message of
  -- its request id among those that the device sends meanwhile, as long as there is one: an error
  -- of the device is answered 502, any other reply 200, and the session manager forgets the wait.
  pub handle_config-reply :
      (s : Server F) (r : Request SetConfig) (given : SetConfig) (rid : String)
      (msgs : List Message) (deadline : Bool)
      → r.body ≡ some given
      → (handle_config send s r rid).1 ≡ waiting rid r.id 0
      → let s1 = (handle_config send s r rid).0 in
        let m' = handle_all s1.ctrl msgs in
        IsValid (with_id given rid)
        × (handle_config_end (record s1 { ctrl = m' }) rid false deadline
            ≡ Option.map
                (λ x. (record s1 { ctrl = wake_by_context m' rid }, passed_on x))
                (first_reply rid msgs))
  unfolding handle_config_end
  handle_config-reply s r given rid msgs deadline h k =
      let req = with_id given rid in
      let e = handled s r given rid h k in
      let (waits, left) = pushed s r.id req (validate req) (ap (λ z. z.1) (sym e) ∙ k) in
      let (valid, woken, gone) = send_set_config-reply send s.ctrl r.id req msgs waits in
      let s1 = (handle_config send s r rid).0 in
      let c : s1.ctrl ≡ (send_set_config send s.ctrl r.id (some req)).0 =
        ap (λ z. z.0.ctrl) e ∙ ap (λ z. z.ctrl) left in
      (
        (validate-IsValid req).0 valid,
        replied (record s1 { ctrl = handle_all s1.ctrl msgs }) rid deadline (first_reply rid msgs)
            (subst
              (λ z.
                wake_by_reply (handle_all z msgs) rid
                ≡ Option.map (λ x. (x, wake_by_context (handle_all z msgs) rid))
                    (first_reply rid msgs))
              (sym c) woken),
      )
