-- ===== src/Server/Steps/Changes.antt =====
-- What each small change of a server does to the ownership of its sockets.
use espmic.Common.{
  ℕ, ◌≡◌, ◌∙◌, none, some, String, String_discrete, arith, Option-cases, inl, inr, subst, sym,
}
use espmic.Rtp.Receiver.{binding_of}
use espmic.Stream.Lifecycle.{Stream, stream_started}
use espmic.Server.State.{Server, stream_of, update_stream, close_rtp, remove_stream}
use espmic.Server.State.Released.{Agrees}
use espmic.Server.Steps.Ownership.{
  IsOpen, Owned, Owned-insert, Owned-insert_unbound, Owned-close, Owned-remove, stream_id-of,
}
use espmic.Common.GoMap

pub started-IsOpen : (now : ℕ) (st : Stream) → IsOpen st → IsOpen (stream_started st now).0
unfolding stream_started
started-IsOpen now st o = ground arith

module _ {F : Type 0} where
  -- The ownership of sockets in a server.
  abbrev pub Inv : Server F → Type 0
  Inv s = Owned s.rtp.streams s.stream.streams

  pub update_stream-none :
      (s : Server F) (id : String) (f : Stream → Stream)
      → stream_of s id ≡ none
      → update_stream s id f ≡ s
  unfolding update_stream
  update_stream-none s id f h = ground arith

  pub update_stream-some :
      (s : Server F) (id : String) (f : Stream → Stream) (st : Stream)
      → stream_of s id ≡ some st
      → update_stream s id f ≡ record s {
        stream = record { streams = GoMap.insert String_discrete id (f st) s.stream.streams };
      }
  unfolding update_stream
  update_stream-some s id f st h = ground arith

  pub rtp-update_stream :
      (s : Server F) (id : String) (f : Stream → Stream) → (update_stream s id f).rtp ≡ s.rtp
  unfolding update_stream
  rtp-update_stream s id f = ground arith

  module _ (s : Server F) (id : String) (f : Stream → Stream)
      (keeps : (st : Stream) → (f st).stream_id ≡ st.stream_id) (v : Inv s) where
    pub Inv-update_unbound : binding_of s.rtp id ≡ none → Inv (update_stream s id f)
    Inv-update_unbound free = elim (Option-cases (stream_of s id)) [
      | inl e ↦ subst Inv (sym (update_stream-none s id f e)) v
      | inr (st, e) ↦ subst Inv (sym (update_stream-some s id f st e)) (
          Owned-insert_unbound s.rtp.streams s.stream.streams v id (f st)
            (keeps st ∙ stream_id-of s.rtp.streams s.stream.streams v id st e) free)
    ]

    pub Inv-update : ((st : Stream) → IsOpen st → IsOpen (f st)) → Inv (update_stream s id f)
    Inv-update open_kept = elim (Option-cases (binding_of s.rtp id)) [
      | inl free ↦ Inv-update_unbound free
      | inr (b, e) ↦
          let (st, look, op) = v.owner id b e in
          subst Inv (sym (update_stream-some s id f st look)) (
            Owned-insert s.rtp.streams s.stream.streams v id (f st)
              (keeps st ∙ stream_id-of s.rtp.streams s.stream.streams v id st look)
              (open_kept st op))
    ]

  pub closed : (s : Server F) (id : String) → binding_of (close_rtp s id).rtp id ≡ none
  unfolding close_rtp
  closed s id = ground (arith, GoMap.lookup-delete String_discrete id id s.rtp.streams)

  pub Inv-close : (s : Server F) (id : String) → Inv s → Inv (close_rtp s id)
  unfolding close_rtp
  Inv-close s id v = Owned-close s.rtp.streams s.stream.streams v id

  -- A stream may end while its socket closes.
  pub close-update :
      (s : Server F) (id : String) (f : Stream → Stream)
      → close_rtp (update_stream s id f) id ≡ update_stream (close_rtp s id) id f
  unfolding close_rtp update_stream
  close-update s id f = ground arith

  pub Inv-update_close :
      (s : Server F) (id : String) (f : Stream → Stream)
      → ((st : Stream) → (f st).stream_id ≡ st.stream_id)
      → Inv s
      → Inv (close_rtp (update_stream s id f) id)
  Inv-update_close s id f keeps v =
      subst Inv (sym (close-update s id f))
        (Inv-update_unbound (close_rtp s id) id f keeps (Inv-close s id v) (closed s id))

  pub Inv-remove :
      (s : Server F) (id : String) → binding_of s.rtp id ≡ none → Inv s → Inv (remove_stream s id)
  unfolding remove_stream
  Inv-remove s id free v = Owned-remove s.rtp.streams s.stream.streams v id free

  -- What the recorders' end leaves.
  pub Inv-Agrees : (s t : Server F) → Agrees t s → Inv s → Inv t
  Inv-Agrees s t a v = rw (a.rtp_eq, a.stream_eq) v
