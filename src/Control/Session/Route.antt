-- ===== src/Control/Session/Route.antt =====
-- When a session becomes ready, and where the messages of its device go.
use espmic.Common.{
  ℕ, ◌≡◌, Bool, Option, none, some, String, List, [], ◌∷◌, ◌++◌, arith, refl, Option-cases, inl,
  inr,
}
use espmic.Control.Messages.{
  Message, m_hello, m_hello_ack, m_ping, m_pong, m_start_stream, m_stream_started, m_stop_stream,
  m_stream_stopped, m_get_status, m_status, m_error, m_set_config,
}
use espmic.Control.Session.{Session, route, read_loop}

-- The messages decoded before the first error of reading.
abbrev pub inbound : (List ℕ → Option Message) → List (Option (List ℕ)) → List Message
inbound decode [] = []
inbound decode (none ∷ rest) = []
inbound decode (some payload ∷ rest) = elim (decode payload) [
  | none ↦ inbound decode rest
  | some msg ↦ msg ∷ inbound decode rest
]

abbrev pub pongs : List Message → List Message
pongs [] = []
pongs (m_ping seq ∷ xs) = m_pong seq ∷ pongs xs
pongs (x ∷ xs) = pongs xs

abbrev pub without_heartbeat : List Message → List Message
without_heartbeat [] = []
without_heartbeat (m_ping seq ∷ xs) = without_heartbeat xs
without_heartbeat (m_pong seq ∷ xs) = without_heartbeat xs
without_heartbeat (x ∷ xs) = x ∷ without_heartbeat xs

route-one :
    (s : Session) (msg : Message) (xs : List Message)
    → ((route s msg).written ++ pongs xs ≡ pongs (msg ∷ xs))
      × ((route s msg).delivered ++ without_heartbeat xs ≡ without_heartbeat (msg ∷ xs))
      × ((route s msg).session.device_id ≡ s.device_id)
unfolding route
route-one s (m_hello m) xs = (refl, refl, refl)
route-one s (m_hello_ack m) xs = (refl, refl, refl)
route-one s (m_ping m) xs = (refl, refl, refl)
route-one s (m_pong m) xs = (refl, refl, refl)
route-one s (m_start_stream m) xs = (refl, refl, refl)
route-one s (m_stream_started m) xs = (refl, refl, refl)
route-one s (m_stop_stream m) xs = (refl, refl, refl)
route-one s (m_stream_stopped m) xs = (refl, refl, refl)
route-one s (m_get_status m) xs = (refl, refl, refl)
route-one s (m_status m) xs = (refl, refl, refl)
route-one s (m_error m) xs = (refl, refl, refl)
route-one s (m_set_config m) xs = (refl, refl, refl)

module _ (decode : List ℕ → Option Message) (auth : Option (String → String → Bool))
    (writes : Message → Bool) where
  -- The read loop answers every ping among the messages decoded before the first error of reading
  -- with a pong of its number, in order, and hands on every message but pings and pongs, in order;
  -- it does not change whose session it is.
  pub read_loop-inbound :
      (s : Session) (payloads : List (Option (List ℕ)))
      → let r = read_loop decode auth writes s payloads in
        (r.written ≡ pongs (inbound decode payloads))
        × (r.delivered ≡ without_heartbeat (inbound decode payloads))
        × (r.session.device_id ≡ s.device_id)
  unfolding read_loop
  read_loop-inbound s [] = (refl, refl, refl)
  read_loop-inbound s (none ∷ rest) = (refl, refl, refl)
  read_loop-inbound s (some payload ∷ rest) = elim (Option-cases (decode payload)) [
    | inl e ↦ ground (arith, read_loop-inbound s rest)
    | inr (msg, e) ↦
        ground (
          arith,
          route-one s msg (inbound decode rest),
          read_loop-inbound (route s msg).session rest,
        )
  ]
