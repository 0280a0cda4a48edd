-- ===== src/Server/Steps/Visits.antt =====
-- The monitor and the end of a session keep every socket with an open stream.
use espmic.Common.{
  ℕ, ◌≡◌, ◌∙◌, Bool, true, false, Option, some, String, String_discrete, List, [], ◌∷◌, arith, refl,
  ap, Option-cases, Bool-cases, inl, inr, map, sym, same,
}
use espmic.Rtp.Jitter.{Float64, Stats}
use espmic.Rtp.Receiver.{Binding, binding_of, stream_stats}
use espmic.Stream.Lifecycle.{
  Stream, active, ◌is◌, rtp_wait_timeout, rtp_timeout, device_disconnected,
}
use espmic.Server.State.{
  Server, stream_of, close_rtp, remove_stream, finalize_recorder, forget_metrics, cleanup_stream,
}
use espmic.Server.State.Released.{finalize_recorder-Agrees, finalize_opus_recorder-Agrees}
use espmic.Server.Traffic.{
  tick, end_due, push_metrics, push_stream_metrics, estimate, show_bitrate, on_device_disconnect,
  cleanup_all, selected, expire, due, disconnect, active_on,
}
use espmic.Server.Traffic.Timely.{
  Keyed, unless, picked, end_due-due, changed, lookup-for_each, sweep_lem,
}
use espmic.Server.Steps.Ownership.{IsOpen}
use espmic.Common.GoMap
use espmic.Stream.Registry as Streams
use espmic.Server.Steps.Changes.{Inv}

Keyed-for_each :
    (f : Stream → Stream)
    → ((st : Stream) → (f st).stream_id ≡ st.stream_id)
    → (m : List (String × Stream)) → Keyed m
    → Keyed (map (λ e. (e.0, f e.1)) m)
Keyed-for_each f keeps [] k = tt
Keyed-for_each f keeps ((j, st) ∷ m) (e, k) = (e ∙ sym (keeps st), Keyed-for_each f keeps m k)

Unique-for_each :
    (f : Stream → Stream) (m : List (String × Stream))
    → GoMap.Unique String_discrete m
    → GoMap.Unique String_discrete (map (λ e. (e.0, f e.1)) m)
Unique-for_each f [] u = tt
Unique-for_each f ((j, st) ∷ m) (e, u) =
    (lookup-for_each f j m ∙ ap (changed f) e, Unique-for_each f m u)

-- The stream and the socket that a visit with a test leaves at an id.
abbrev pub Left : {F : Type 0} → (Stream → Bool) → Server F → Server F → String → Type 0
Left test s t id =
    (stream_of t id ≡ unless (picked test (stream_of s id)) (stream_of s id))
    × (binding_of t.rtp id ≡ unless (picked test (stream_of s id)) (binding_of s.rtp id))

survivor :
    {F : Type 0} (gone : Bool) (bo : Option (Binding F)) (so : Option Stream) (b : Binding F)
    {t : Option Stream}
    → ((c : Binding F) → bo ≡ some c → (st : Stream) × (so ≡ some st) × IsOpen st)
    → unless gone bo ≡ some b
    → t ≡ unless gone so
    → (st : Stream) × (t ≡ some st) × IsOpen st
survivor true bo so b owner h e = absurd (cc)
survivor false bo so b owner h e = let (st, look, op) = owner b h in (st, e ∙ look, op)

streams-cleanup_stream :
    {F : Type 0} (finish : String → Option (String × ℕ)) (now : ℕ) (s : Server F) (id : String)
    → (cleanup_stream finish now s id).stream.streams
      ≡ GoMap.delete String_discrete id s.stream.streams
unfolding cleanup_stream forget_metrics remove_stream Streams.remove close_rtp
streams-cleanup_stream finish now s id =
    let a = remove_stream (close_rtp s id) id in
    let b = finalize_recorder finish now a id in
    let p = finalize_recorder-Agrees finish now a id in
    let q = finalize_opus_recorder-Agrees finish now b id in rw (q.stream_eq, p.stream_eq) refl

abbrev swept :
    {F : Type 0}
    → (String → Option (String × ℕ))
    → ℕ
    → (Stream → Bool)
    → (Stream → Stream)
    → Server F
    → Server F
swept finish now test f s =
    cleanup_all finish now (record s { stream = Streams.for_each s.stream f })
      (selected test s.stream.streams)

expire-id : (now : ℕ) (st : Stream) → (expire now st).stream_id ≡ st.stream_id
unfolding expire rtp_wait_timeout rtp_timeout
expire-id now st = ground arith

disconnect-id : (device : String) (st : Stream) → (disconnect device st).stream_id ≡ st.stream_id
unfolding device_disconnected
disconnect-id device st = ground arith

module _ {F : Type 0} (finish : String → Option (String × ℕ)) (now : ℕ) where
  Keyed-cleanup_all :
      (s : Server F) (ids : List String)
      → Keyed s.stream.streams
      → GoMap.Unique String_discrete s.stream.streams
      → Keyed (cleanup_all finish now s ids).stream.streams
        × GoMap.Unique String_discrete (cleanup_all finish now s ids).stream.streams
  unfolding cleanup_all
  Keyed-cleanup_all s [] k u = (k, u)
  Keyed-cleanup_all s (id ∷ ids) k u =
      let e = streams-cleanup_stream finish now s id in
      Keyed-cleanup_all (cleanup_stream finish now s id) ids
        (rw e (GoMap.All-delete String_discrete (λ e. e.0 ≡ e.1.stream_id) id s.stream.streams k))
        (rw e (GoMap.delete-Unique String_discrete id s.stream.streams u))

  -- After a visit and the clean-up after it, with what it leaves at each id.
  Inv-swept :
      (test : Stream → Bool) (f : Stream → Stream) (s : Server F)
      → ((st : Stream) → (f st).stream_id ≡ st.stream_id)
      → ((id : String) → Left test s (swept finish now test f s) id)
      → Inv s
      → Inv (swept finish now test f s)
  unfolding Streams.for_each
  Inv-swept test f s keeps left v =
      let (k, u) =
        Keyed-cleanup_all (record s { stream = Streams.for_each s.stream f })
          (selected test s.stream.streams) (Keyed-for_each f keeps s.stream.streams v.keyed)
          (Unique-for_each f s.stream.streams v.unique) in
      record {
        keyed = k;
        unique = u;
        owner = λ j b h.
            survivor (picked test (stream_of s j)) (binding_of s.rtp j) (stream_of s j) b
              (v.owner j) (sym (left j).1 ∙ h) (left j).0;
      }

  Inv-end_due : (s : Server F) → Inv s → Inv (end_due finish now s)
  unfolding end_due
  Inv-end_due s v =
      Inv-swept (due now) (expire now) s (expire-id now)
        (λ id. end_due-due finish now s id v.keyed v.unique) v

  pub Inv-on_device_disconnect :
      (s : Server F) (device : String) → Inv s → Inv (on_device_disconnect finish now s device)
  unfolding on_device_disconnect
  Inv-on_device_disconnect s device v = elim (Bool-cases (same device "")) [
    | inl e ↦ rw (e, on_device_disconnect) v
    | inr e ↦
        rw (e, on_device_disconnect)
          (Inv-swept (active_on device) (disconnect device) s (disconnect-id device)
            (λ id. disconnect-Left id) v)
  ]
    where
      disconnect-Left :
          (id : String)
          → Left (active_on device) s (swept finish now (active_on device) (disconnect device) s) id
      disconnect-Left id =
          sweep_lem finish now (active_on device) (disconnect device) s id (λ st h. ground arith)
            v.keyed v.unique

module _ {F : Type 0} (fl : Float64 F) where
  push_stream_metrics-same :
      (s : Server F) (id : String) (st : Stats F) (now : ℕ)
      → ((push_stream_metrics fl s id st now).rtp ≡ s.rtp)
        × ((push_stream_metrics fl s id st now).stream ≡ s.stream)
  unfolding push_stream_metrics estimate show_bitrate
  push_stream_metrics-same s id st now = ground arith

  pub push_metrics-same :
      (s : Server F) (now : ℕ) (ids : List String)
      → ((push_metrics fl s now ids).rtp ≡ s.rtp) × ((push_metrics fl s now ids).stream ≡ s.stream)
  unfolding push_metrics
  push_metrics-same s now [] = (refl, refl)
  push_metrics-same s now (id ∷ ids) = elim (Option-cases (stream_stats s.rtp id)) [
    | inl e ↦ ground (arith, push_metrics-same s now ids)
    | inr (st, e) ↦
        let (p, q) = push_stream_metrics-same s id st now in
        ground (arith, push_metrics-same (push_stream_metrics fl s id st now) now ids)
  ]

  pub Inv-tick :
      (finish : String → Option (String × ℕ)) (now : ℕ) (s : Server F)
      → Inv s
      → Inv (tick finish now fl s)
  unfolding tick
  Inv-tick finish now s v =
      let ids = selected (λ st. st.state is active) s.stream.streams in
      let (p, q) = push_metrics-same s now ids in
      Inv-end_due finish now (push_metrics fl s now ids) (rw (p, q) v)
