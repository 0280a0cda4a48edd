-- ===== src/Control/Commands/Await.antt =====
-- The reply that a caller of Await gets.
use espmic.Common.{Bool, false, Option, none, some, String, List, [], ◌∷◌, same, if◌then◌else◌}
use mathlib.Core.Option
use espmic.Common.GoMap
use espmic.Control.Messages.{Message, m_stream_started, m_stream_stopped}
use espmic.Control.Commands.{CommandService, deliver_answer}

-- Messages delivered in this order.
abbrev pub deliver_all : CommandService → List Message → CommandService
deliver_all s [] = s
deliver_all s (x ∷ xs) = deliver_all (deliver_answer s x).0 xs

-- A stream_started or stream_stopped of the stream.
abbrev pub answers : String → Message → Bool
answers id (m_stream_started m) = same m.stream_id id
answers id (m_stream_stopped m) = same m.stream_id id
answers id _ = false

-- The first message that answers the stream.
abbrev pub first_answer : String → List Message → Option Message
first_answer id [] = none
first_answer id (x ∷ xs) = if answers id x then some x else first_answer id xs
