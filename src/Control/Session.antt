-- ===== src/Control/Session.antt =====
-- server/internal/control/session.go: the handshake of a connection, its heartbeat, and what its
-- read loop does with the messages of the device.
--
-- Parameters: `decode` is DecodePayload, none on an error; `auth` is the authenticator, if any;
-- `writes` says whether the connection takes a message. The messages are the ones given to the
-- connection, in order. A payload of none is the error of readFrame.
pub mod Route
use espmic.Common.{
  ℕ, ◌+◌, ◌%◌, ◌^◌, Bool, true, false, not, Option, none, some, String, List, [], ◌∷◌, ◌++◌,
  if◌then◌else◌,
}
use espmic.Common.Int.{ℤ}
use espmic.Control.Messages.{Message, m_hello, m_hello_ack, m_ping, m_pong, m_error, Hello}

pub record Session : Type 0 where
  pub id : String
  pub device_id : String
  pub registered : Bool
  pub ping_seq : ℕ
  pub last_pong_seq : ℕ
  pub pong_received : Bool

unfoldable pub new_session : Session
new_session = record {
  id = "";
  device_id = "";
  registered = false;
  ping_seq = 0;
  last_pong_seq = 0;
  pong_received = false;
}

-- How the part of `Run` before its loop ends; `ready` is the call of onReady.
pub data Handshake : Type 0 where
  hello_unread hello_undecoded hello_expected : Handshake
  auth_rejected : List Message → Handshake
  ack_unwritten : Session → List Message → Handshake
  ready : Session → List Message → Handshake

pub data Event : Type 0 where
  context_done tick : Event
  reading_ended : Bool → Event

pub data RunEnd : Type 0 where
  context_error closed_cleanly read_error ping_failed still_running : RunEnd

-- What the read loop has done: the session, the messages written and those given to onMsg.
pub record Routed : Type 0 where
  pub session : Session
  pub written : List Message
  pub delivered : List Message

unfoldable pub route : Session → Message → Routed
route s (m_ping seq) = record { session = s; written = m_pong seq ∷ []; delivered = [] }
route s (m_pong seq) = record {
  session = record s { last_pong_seq = seq; pong_received = true };
  written = [];
  delivered = [];
}
route s msg = record { session = s; written = []; delivered = msg ∷ [] }

module _ (decode : List ℕ → Option Message) (auth : Option (String → String → Bool))
    (writes : Message → Bool) where
  abbrev pub accepted : Hello → Bool
  accepted hello = elim auth [ none ↦ true | some check ↦ check hello.device_id hello.credential ]

  -- `NewError(1, "auth failed")`.
  abbrev pub auth_failed : Message
  auth_failed =
      m_error (record { request_id = ""; stream_id = ""; code = "1"; message = "auth failed" })

  unfoldable pub greet : Session → String → ℤ → Hello → Handshake
  greet s session_id now_ms hello =
      if not (accepted hello)
      then auth_rejected (auth_failed ∷ [])
      else let s' = record s { id = session_id; device_id = hello.device_id; registered = true } in
        let ack = m_hello_ack (record {
          session_id = session_id;
          device_id = hello.device_id;
          server_time_ms = now_ms;
        }) in
        if writes ack then ready s' (ack ∷ []) else ack_unwritten s' (ack ∷ [])

  unfoldable pub greet_message : Session → String → ℤ → Message → Handshake
  unfolding greet
  greet_message s session_id now_ms (m_hello hello) = greet s session_id now_ms hello
  greet_message s session_id now_ms _ = hello_expected

  unfoldable pub open_session : Session → String → ℤ → Option (List ℕ) → Handshake
  unfolding greet_message
  open_session s session_id now_ms none = hello_unread
  open_session s session_id now_ms (some payload) = elim (decode payload) [
    | none ↦ hello_undecoded
    | some msg ↦ greet_message s session_id now_ms msg
  ]

  -- The loop of `Run` over what its select receives. `reading_ended true` is the end of the stream
  -- or a closed connection.
  unfoldable pub run_loop : Session → List Event → Session × RunEnd
  run_loop s [] = (s, still_running)
  run_loop s (context_done ∷ rest) = (s, context_error)
  run_loop s (reading_ended true ∷ rest) = (s, closed_cleanly)
  run_loop s (reading_ended false ∷ rest) = (s, read_error)
  run_loop s (tick ∷ rest) =
      let s' = record s { ping_seq = (s.ping_seq + 1) % 2 ^ 32 } in
      elim (writes (m_ping s'.ping_seq)) [ false ↦ (s', ping_failed) | true ↦ run_loop s' rest ]

  unfoldable pub read_loop : Session → List (Option (List ℕ)) → Routed
  unfolding route
  read_loop s [] = record { session = s; written = []; delivered = [] }
  read_loop s (none ∷ rest) = record { session = s; written = []; delivered = [] }
  read_loop s (some payload ∷ rest) = elim (decode payload) [
    | none ↦ read_loop s rest
    | some msg ↦
        let here = route s msg in
        let after = read_loop here.session rest in
        record {
          session = after.session;
          written = here.written ++ after.written;
          delivered = here.delivered ++ after.delivered;
        }
  ]
