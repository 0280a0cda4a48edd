-- ===== src/Server/Steps/Owned.antt =====
-- In every history, a socket belongs to a registered stream that has not ended.
use espmic.Common.{
  ℕ, ◌≡◌, Option, none, some, String, String_discrete, List, [], arith, Option-cases, inl, inr,
  subst, sym, ◌⊎◌,
}
use espmic.Rtp.Jitter.{Float64}
use espmic.Rtp.Packet.{PionPacket}
use espmic.Rtp.Receiver.{
  Binding, Receiver, binding_of, receive, read_datagram, Receipt, rejected, foreign, taken,
}
use espmic.Stream.Lifecycle.{Stream, first_packet, packet}
use espmic.Server.State.{Server, stream_of}
use espmic.Server.Traffic.{receive_datagram, alive, note, heard}
use espmic.Server.Steps.{
  Step, Reach, here, then_step, starts, start_ends, stops, stop_ends, hears, ticks, hangs_up,
  elsewhere,
}
use espmic.Server.Steps.Ownership.{IsOpen, Owned, Owned-rebind}
use espmic.Common.GoMap
use espmic.Server.Steps.Changes.{Inv, Inv-update}
use espmic.Server.Steps.Starts.{Inv-begin_start, Inv-conclude_start}
use espmic.Server.Steps.Stops.{Inv-begin_stop, Inv-conclude_stop}
use espmic.Server.Steps.Visits.{Inv-tick, Inv-on_device_disconnect}

alive-id : (now : ℕ) (st : Stream) → (alive now st).stream_id ≡ st.stream_id
unfolding first_packet packet
alive-id now st = ground arith

alive-IsOpen : (now : ℕ) (st : Stream) → IsOpen st → IsOpen (alive now st)
unfolding first_packet packet
alive-IsOpen now st o = ground arith

module _ {F : Type 0} (fl : Float64 F) (unmarshal : List ℕ → Option PionPacket) where
  receive-cases :
      (r : Receiver F) (id : String) (raw : List ℕ) (now : ℕ)
      → (receive fl unmarshal r id raw now ≡ (r, none))
        ⊎ ((b : Binding F) × (b' : Binding F) × (rc : Receipt) × (binding_of r id ≡ some b)
            × (receive fl unmarshal r id raw now
                ≡ (record r { streams = GoMap.insert String_discrete id b' r.streams }, some rc)))
  unfolding receive
  receive-cases r id raw now = elim (Option-cases (binding_of r id)) [
    | inl e ↦ inl (ground arith)
    | inr (b, e) ↦
        let x = read_datagram fl unmarshal r.on_packet r.on_compressed b raw now in
        inr (b, x.0, x.1, e, ground arith)
  ]

  Inv-note :
      (now : ℕ) (id : String) (s : Server F) (rc : Receipt)
      → Inv s
      → Inv (note fl unmarshal now id s rc).0
  Inv-note now id s rejected v = v
  Inv-note now id s foreign v = v
  Inv-note now id s (taken p none recorder) v = v
  Inv-note now id s (taken p (some first) recorder) v =
      Inv-update
        (record s { metrics = (note fl unmarshal now id s (taken p none recorder)).0.metrics }) id
        (alive now) (alive-id now) v (alive-IsOpen now)

  Inv-receive_datagram :
      (s : Server F) (id : String) (raw : List ℕ) (now : ℕ)
      → Inv s
      → Inv (receive_datagram fl unmarshal s id raw now).0
  unfolding receive_datagram
  Inv-receive_datagram s id raw now v = elim (receive-cases s.rtp id raw now) [
    | inl e ↦ subst (λ x. Inv (heard fl unmarshal now id (record s { rtp = x.0 }) x.1).0) (sym e) v
    | inr (b, b', rc, h, e) ↦
        subst (λ x. Inv (heard fl unmarshal now id (record s { rtp = x.0 }) x.1).0) (sym e)
          (Inv-note now id
            (record s {
              rtp = record (s.rtp) { streams = GoMap.insert String_discrete id b' s.rtp.streams };
            })
            rc (Owned-rebind s.rtp.streams s.stream.streams v id b b' h))
  ]

  Step-Inv : {s t : Server F} → Step fl unmarshal s t → Inv s → Inv t
  Step-Inv (starts s finish send now ip split listen device id rid) v =
      Inv-begin_start fl finish send now ip split listen s device id rid v
  Step-Inv (start_ends s now began rec w o id device port reply) v =
      Inv-conclude_start now began rec w o s id device port reply v
  Step-Inv (stops s finish now send id rid) v = Inv-begin_stop finish now send s id rid v
  Step-Inv (stop_ends s finish now id device reply) v =
      Inv-conclude_stop finish now s id device reply v
  Step-Inv (hears s id raw now) v = Inv-receive_datagram s id raw now v
  Step-Inv (ticks s finish now) v = Inv-tick fl finish now s v
  Step-Inv (hangs_up s finish now device) v = Inv-on_device_disconnect finish now s device v
  Step-Inv (elsewhere s t p q) v = rw (p, q) v

  Reach-Inv : {s t : Server F} → Inv s → Reach fl unmarshal s t → Inv t
  Reach-Inv v here = v
  Reach-Inv v (then_step r st) = Step-Inv st (Reach-Inv v r)

  -- In every history of a server that begins without streams and sockets, each open socket belongs
  -- to a registered stream that is STARTING, RTP_WAIT, ACTIVE or STOPPING: whatever ends a stream
  -- closes its socket.
  pub Reach-IsOpen :
      (s t : Server F) (id : String) (b : Binding F)
      → s.rtp.streams ≡ []
      → s.stream.streams ≡ []
      → Reach fl unmarshal s t
      → binding_of t.rtp id ≡ some b
      → (st : Stream) × (stream_of t id ≡ some st) × IsOpen st
  Reach-IsOpen s t id b p q r h = Owned.owner (Reach-Inv (rw (p, q) no_streams) r) id b h
    where
      no_streams : Owned {F = F} [] []
      no_streams = record { keyed = tt; unique = tt; owner = λ id b h. none_there id b h }
        where
          none_there :
              (id : String) (b : Binding F)
              → GoMap.lookup String_discrete id [] ≡ some b
              → (st : Stream) × (GoMap.lookup String_discrete id [] ≡ some st) × IsOpen st
          none_there id b h = unfold GoMap.lookup in ground arith
