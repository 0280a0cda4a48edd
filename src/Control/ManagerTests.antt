-- ===== src/Control/ManagerTests.antt =====
-- The theorems on sessions, commands and validation at concrete ones.
use espmic.Common.{
  ℕ, ◌≡◌, ◌≢◌, ◌↔◌, Bool, true, false, Option, none, some, String, String_discrete, List, [], ◌∷◌,
  arith, refl, same,
}
use mathlib.Core.Option
use espmic.Common.GoMap
use espmic.Common.Int.{pos}
use espmic.Control.Messages.{
  Message, Hello, m_hello, m_hello_ack, m_ping, m_error, m_stream_started, SetConfig, StartStream,
  new_set_config, validate,
}
use espmic.Control.Messages.Validation.{IsValid, validate-IsValid}
use espmic.Control.Manager.{
  SessionManager, new_session_manager, on_ready, unregister_if, is_connected, channel, awaits,
  fails, send_set_config, send_start_stream, wake_by_reply, wake_by_context, register, wait_pending,
  wait_stream, duplicate_await,
}
use espmic.Control.Manager.Sessions.{unregister_if-on_ready}
use espmic.Control.Manager.Replies.{handle_all, first_reply}
use espmic.Control.Manager.Commands.{send_set_config-reply}
use espmic.Control.Session.{Session, new_session}

abbrev config : SetConfig
unfolding new_set_config
config = record (new_set_config "r1") { frame_ms = some (pos 20) }

config_valid : validate config ≡ none
unfolding validate String_discrete config
config_valid = refl

validate-IsValid_example : (validate config ≡ none) ↔ IsValid config
validate-IsValid_example = validate-IsValid config

named : same "mic" "" ≡ false
unfolding String_discrete
named = refl

named_differs : ◌≢◌ {A = String} "mic" ""
named_differs e = ground (arith, named)

unregister_if-on_ready_example :
    (unregister_if (on_ready new_session_manager 2 "mic") "mic" 1
      ≡ (on_ready new_session_manager 2 "mic", false))
    × (is_connected (on_ready new_session_manager 2 "mic") "mic" ≡ true)
    × ((unregister_if (on_ready new_session_manager 2 "mic") "mic" 2).1 ≡ true)
    × (is_connected (unregister_if (on_ready new_session_manager 2 "mic") "mic" 2).0 "mic" ≡ false)
unregister_if-on_ready_example =
    unregister_if-on_ready new_session_manager 1 2 "mic" named_differs (ground arith)

abbrev always : ℕ → Message → Bool
always s msg = true

abbrev connected : SessionManager
connected = record { sessions = ("mic", 1) ∷ []; pending = []; stream_ch = [] }

abbrev answered : List Message
answered =
    m_ping 1
    ∷ m_stream_started (record { request_id = "r1"; stream_id = "s1" })
    ∷ m_error (record { request_id = "r1"; stream_id = ""; code = "409"; message = "busy" })
    ∷ []

config-awaits : (send_set_config always connected "mic" (some config)).1 ≡ awaits
unfolding send_set_config validate wait_pending register GoMap.lookup GoMap.insert String_discrete
    config
config-awaits = refl

send_set_config-reply_example :
    let m' = handle_all (send_set_config always connected "mic" (some config)).0 answered in
    (validate config ≡ none)
    × (wake_by_reply m' config.request_id
        ≡ Option.map
            (λ x. (x, wake_by_context m' config.request_id))
            (first_reply config.request_id answered))
    × (channel config.request_id (wake_by_context m' config.request_id).pending ≡ none)
send_set_config-reply_example =
    send_set_config-reply always connected "mic" config answered config-awaits

abbrev already_waiting : SessionManager
already_waiting = record { sessions = ("mic", 1) ∷ []; pending = ("r1", none) ∷ []; stream_ch = [] }

config_duplicate :
    (send_set_config always already_waiting "mic" (some config)).1 ≡ fails duplicate_await
unfolding send_set_config validate wait_pending register GoMap.lookup GoMap.insert String_discrete
    config
config_duplicate = refl

abbrev start : StartStream
start = record {
  request_id = "r1";
  stream_id = "s1";
  destination = record { ip = "10.0.0.1"; port = 5004 };
  codec = record {
    name = "opus";
    sample_rate = pos 48000;
    channels = pos 2;
    frame_ms = pos 20;
    bitrate = pos 64000;
    vbr = true;
    fec = false;
    dtx = false;
    complexity = pos 5;
  };
  rtp = record { payload_type = 111 };
}

start-awaits : (send_start_stream always connected "mic" (some start)).1 ≡ awaits
unfolding send_start_stream wait_stream register GoMap.lookup GoMap.insert String_discrete
start-awaits = refl

no_pending : channel start.request_id connected.pending ≡ none
unfolding GoMap.lookup
no_pending = refl

abbrev decode_ping : List ℕ → Option Message
decode_ping [] = none
decode_ping (n ∷ rest) = some (m_ping n)

abbrev takes_all : Message → Bool
takes_all msg = true

abbrev mic_hello : Hello
mic_hello = record {
  device_id = "mic";
  credential = "key";
  firmware = "1.0";
  capabilities = none;
  protocol = pos 1;
}

abbrev decode_hello : List ℕ → Option Message
decode_hello bytes = some (m_hello mic_hello)

abbrev opened : Session
unfolding new_session
opened = record (new_session) { id = "c1"; device_id = "mic"; registered = true }

abbrev ack : Message
ack = m_hello_ack (record { session_id = "c1"; device_id = "mic"; server_time_ms = pos 5 })
