-- ===== src/Server/Traffic/Timely.antt =====
-- Which streams a tick of the monitor and the end of a device's session leave.
use espmic.Common.{
  ℕ, ◌≡◌, ◌∙◌, Bool, true, false, Option, none, some, String, String_discrete, List, [], ◌∷◌, arith,
  refl, ap, same, Bool-cases, inl, inr, All, map, ◌||◌, ap₂, ◌≢◌,
}
use espmic.Common.GoMap
use espmic.Device.Registry as Devices
use espmic.Rtp.Receiver.{binding_of}
use espmic.Stream.Lifecycle.{Stream}
use espmic.Stream.Registry as Streams
use espmic.Server.State.{Server, stream_of, cleanup_stream}
use espmic.Server.State.Released.{cleanup_stream-releases}
use espmic.Server.Traffic.{
  selected, due, expire, active_on, disconnect, cleanup_all, end_due, on_device_disconnect,
}

-- Every stream stands under its own id, as Add puts it.
abbrev pub Keyed : List (String × Stream) → Type 0
Keyed = All (λ e. e.0 ≡ e.1.stream_id)

abbrev pub member : String → List String → Bool
member id [] = false
member id (x ∷ xs) = same x id || member id xs

-- Whether the stream that stands here is selected, and what is left of it.
abbrev pub picked : (Stream → Bool) → Option Stream → Bool
picked test none = false
picked test (some st) = test st

abbrev pub unless {ℓ} : {A : Type ℓ} → Bool → Option A → Option A
unless true o = none
unless false o = o

member-selected_absent :
    (test : Stream → Bool) (id : String) (m : List (String × Stream))
    → Keyed m
    → GoMap.lookup String_discrete id m ≡ none
    → member id (selected test m) ≡ false
unfolding selected GoMap.lookup
member-selected_absent test id [] k h = refl
member-selected_absent test id ((j, st) ∷ m) (e, k) h = ground (
  arith,
  member-selected_absent test id m k,
  String_discrete j id,
  String_discrete st.stream_id id,
)

-- In a map, the visit selects an id exactly if its stream passes the test.
member-selected :
    (test : Stream → Bool) (id : String) (m : List (String × Stream))
    → Keyed m
    → GoMap.Unique String_discrete m
    → member id (selected test m) ≡ picked test (GoMap.lookup String_discrete id m)
unfolding selected GoMap.lookup
member-selected test id [] k u = refl
member-selected test id ((j, st) ∷ m) (e, k) (fresh, u) = elim (String_discrete j id) [
  | yes p ↦ ground (
    arith,
    member-selected_absent test id m k,
    String_discrete st.stream_id id,
    member-selected test id m k u,
  )
  | no n ↦ ground (arith, member-selected test id m k u, String_discrete st.stream_id id)
]

abbrev pub changed : (Stream → Stream) → Option Stream → Option Stream
changed f none = none
changed f (some st) = some (f st)

pub lookup-for_each :
    (f : Stream → Stream) (id : String) (m : List (String × Stream))
    → GoMap.lookup String_discrete id (map (λ e. (e.0, f e.1)) m)
      ≡ changed f (GoMap.lookup String_discrete id m)
unfolding GoMap.lookup
lookup-for_each f id [] = refl
lookup-for_each f id ((j, st) ∷ m) = ground (arith, lookup-for_each f id m, String_discrete j id)

module _ {F : Type 0} (finish : String → Option (String × ℕ)) (now : ℕ) where
  stream_of-cleanup_all :
      (s : Server F) (ids : List String) (id : String)
      → (stream_of (cleanup_all finish now s ids) id ≡ unless (member id ids) (stream_of s id))
        × (binding_of (cleanup_all finish now s ids).rtp id
            ≡ unless (member id ids) (binding_of s.rtp id))
  unfolding cleanup_all
  stream_of-cleanup_all s [] id = (refl, refl)
  stream_of-cleanup_all s (x ∷ xs) id =
      let s' = cleanup_stream finish now s x in
      let (p, q, c, d, e, f, g, h) = cleanup_stream-releases finish now s x id in
      ground (arith, stream_of-cleanup_all s' xs id, String_discrete x id)

  -- A visit that changes the streams which a test selects, and then cleans up after these.
  pub sweep_lem :
      (test : Stream → Bool) (f : Stream → Stream) (s : Server F) (id : String)
      → ((st : Stream) → test st ≡ false → f st ≡ st)
      → Keyed s.stream.streams
      → GoMap.Unique String_discrete s.stream.streams
      → let s' =
          cleanup_all finish now
            (record s { stream = Streams.for_each s.stream f })
            (selected test s.stream.streams) in
        (stream_of s' id ≡ unless (picked test (stream_of s id)) (stream_of s id))
        × (binding_of s'.rtp id ≡ unless (picked test (stream_of s id)) (binding_of s.rtp id))
  unfolding Streams.for_each
  sweep_lem test f s id same_f k u =
      let s1 = record s { stream = Streams.for_each s.stream f } in
      let (p, q) = stream_of-cleanup_all s1 (selected test s.stream.streams) id in
      let sel = member-selected test id s.stream.streams k u in
      (
        p ∙ ap₂ unless sel (lookup-for_each f id s.stream.streams) ∙ left (stream_of s id),
        q ∙ ap (λ b. unless b (binding_of s.rtp id)) sel,
      )
    where
      left : (o : Option Stream) → unless (picked test o) (changed f o) ≡ unless (picked test o) o
      left none = refl
      left (some st) = elim (Bool-cases (test st)) [
        | inl e ↦ ground arith
        | inr e ↦ ground (arith, same_f st)
      ]

  -- A tick ends exactly the streams that are due, in RTP_WAIT past their wait or ACTIVE past their
  -- silence: these leave the registry and lose their sockets; every other stream stays as it is,
  -- with its socket.
  pub end_due-due :
      (s : Server F) (id : String)
      → Keyed s.stream.streams
      → GoMap.Unique String_discrete s.stream.streams
      → (stream_of (end_due finish now s) id
          ≡ unless (picked (due now) (stream_of s id)) (stream_of s id))
        × (binding_of (end_due finish now s).rtp id
            ≡ unless (picked (due now) (stream_of s id)) (binding_of s.rtp id))
  unfolding end_due
  end_due-due s id k u = sweep_lem (due now) (expire now) s id (λ st h. not_due st h) k u
    where
      not_due : (st : Stream) → due now st ≡ false → expire now st ≡ st
      not_due st h = unfold expire in ground arith

  -- The end of a device's session ends exactly its ACTIVE streams: these leave the registry and
  -- lose their sockets; every other stream stays as it is, with its socket; and the device is
  -- offline.
  pub on_device_disconnect-active :
      (s : Server F) (device id : String)
      → device ≢ ""
      → Keyed s.stream.streams
      → GoMap.Unique String_discrete s.stream.streams
      → let s' = on_device_disconnect finish now s device in
        (stream_of s' id ≡ unless (picked (active_on device) (stream_of s id)) (stream_of s id))
        × (binding_of s'.rtp id
            ≡ unless (picked (active_on device) (stream_of s id)) (binding_of s.rtp id))
        × (Devices.online? s'.device device ≡ false)
  unfolding on_device_disconnect Devices.set_offline Devices.online?
  on_device_disconnect-active s device id ne k u =
      let (p, q) =
        sweep_lem (active_on device) (disconnect device) s id (λ st h. ground arith) k u in
      let named : same device "" ≡ false = ground (arith, String_discrete device "") in
      (
        ground arith,
        ground arith,
        ground (
          arith,
          GoMap.lookup-delete String_discrete device device (swept s device).device.online,
        ),
      )
    where
      swept : Server F → String → Server F
      swept s device =
          cleanup_all finish now
            (record s { stream = Streams.for_each s.stream (disconnect device) })
            (selected (active_on device) s.stream.streams)
