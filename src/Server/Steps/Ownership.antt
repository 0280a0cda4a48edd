-- ===== src/Server/Steps/Ownership.antt =====
-- Sockets belong to streams: what each small change does to that.
use espmic.Common.{◌≡◌, ◌≤◌, none, some, String, String_discrete, List, arith, sym}
use espmic.Common.GoMap
use espmic.Rtp.Receiver.{Binding}
use espmic.Stream.Lifecycle.{Stream, place}
use espmic.Server.Traffic.Timely.{Keyed}

-- STARTING, RTP_WAIT, ACTIVE or STOPPING.
abbrev pub IsOpen : Stream → Type 0
IsOpen st = (2 ≤ place st.state) × (place st.state ≤ 5)

module _ {F : Type 0} where
  -- Of the bindings of the receiver and the streams of the registry.
  pub record Owned (bs : List (String × Binding F)) (ms : List (String × Stream)) : Type 0 where
    pub keyed : Keyed ms
    pub unique : GoMap.Unique String_discrete ms
    pub owner :
        (id : String) (b : Binding F)
        → GoMap.lookup String_discrete id bs ≡ some b
        → (st : Stream) × (GoMap.lookup String_discrete id ms ≡ some st) × IsOpen st

  module _ (bs : List (String × Binding F)) (ms : List (String × Stream)) (o : Owned bs ms) where
    pub Owned-insert :
        (id : String) (st : Stream)
        → st.stream_id ≡ id
        → IsOpen st
        → Owned bs (GoMap.insert String_discrete id st ms)
    Owned-insert id st e open_st = record {
      keyed = GoMap.All-insert String_discrete (λ e. e.0 ≡ e.1.stream_id) id st ms (sym e) o.keyed;
      unique = GoMap.insert-Unique String_discrete id st ms o.unique;
      owner = λ j b h. owner_of j b h;
    }
      where
        owner_of :
            (j : String) (b : Binding F)
            → GoMap.lookup String_discrete j bs ≡ some b
            → (x : Stream) × (GoMap.lookup String_discrete j (GoMap.insert String_discrete id st ms)
                ≡ some x)
              × IsOpen x
        owner_of j b h = elim (String_discrete id j) [
          | yes p ↦ (st, ground (arith, GoMap.lookup-insert String_discrete id j st ms), open_st)
          | no n ↦
              let (x, q, op) = o.owner j b h in
              (x, ground (arith, GoMap.lookup-insert String_discrete id j st ms), op)
        ]

    -- A stream without a socket may be in any state.
    pub Owned-insert_unbound :
        (id : String) (st : Stream)
        → st.stream_id ≡ id
        → GoMap.lookup String_discrete id bs ≡ none
        → Owned bs (GoMap.insert String_discrete id st ms)
    Owned-insert_unbound id st e free = record {
      keyed = GoMap.All-insert String_discrete (λ e. e.0 ≡ e.1.stream_id) id st ms (sym e) o.keyed;
      unique = GoMap.insert-Unique String_discrete id st ms o.unique;
      owner = λ j b h. owner_of j b h;
    }
      where
        owner_of :
            (j : String) (b : Binding F)
            → GoMap.lookup String_discrete j bs ≡ some b
            → (x : Stream) × (GoMap.lookup String_discrete j (GoMap.insert String_discrete id st ms)
                ≡ some x)
              × IsOpen x
        owner_of j b h = elim (String_discrete id j) [
          | yes p ↦ absurd (ground arith)
          | no n ↦
              let (x, q, op) = o.owner j b h in
              (x, ground (arith, GoMap.lookup-insert String_discrete id j st ms), op)
        ]

    pub Owned-close : (id : String) → Owned (GoMap.delete String_discrete id bs) ms
    Owned-close id = record {
      keyed = o.keyed;
      unique = o.unique;
      owner = λ j b h. o.owner j b (ground (arith, GoMap.lookup-delete String_discrete id j bs));
    }

    pub Owned-remove :
        (id : String)
        → GoMap.lookup String_discrete id bs ≡ none
        → Owned bs (GoMap.delete String_discrete id ms)
    Owned-remove id free = record {
      keyed = GoMap.All-delete String_discrete (λ e. e.0 ≡ e.1.stream_id) id ms o.keyed;
      unique = GoMap.delete-Unique String_discrete id ms o.unique;
      owner = λ j b h. owner_of j b h;
    }
      where
        owner_of :
            (j : String) (b : Binding F)
            → GoMap.lookup String_discrete j bs ≡ some b
            → (x : Stream) × (GoMap.lookup String_discrete j (GoMap.delete String_discrete id ms)
                ≡ some x)
              × IsOpen x
        owner_of j b h = elim (String_discrete id j) [
          | yes p ↦ absurd (ground arith)
          | no n ↦
              let (x, q, op) = o.owner j b h in
              (x, ground (arith, GoMap.lookup-delete String_discrete id j ms), op)
        ]

    -- A binding that is there may change.
    pub Owned-rebind :
        (id : String) (b b' : Binding F)
        → GoMap.lookup String_discrete id bs ≡ some b
        → Owned (GoMap.insert String_discrete id b' bs) ms
    Owned-rebind id b b' h = record {
      keyed = o.keyed;
      unique = o.unique;
      owner = λ j c k. elim (String_discrete id j) [
        | yes p ↦ o.owner j b (ground arith)
        | no n ↦ o.owner j c (ground (arith, GoMap.lookup-insert String_discrete id j b' bs))
      ];
    }

    -- A socket and its open stream come together.
    pub Owned-bind :
        (id : String) (b : Binding F) (st : Stream)
        → st.stream_id ≡ id
        → IsOpen st
        → Owned (GoMap.insert String_discrete id b bs) (GoMap.insert String_discrete id st ms)
    Owned-bind id b st e open_st = record {
      keyed = GoMap.All-insert String_discrete (λ e. e.0 ≡ e.1.stream_id) id st ms (sym e) o.keyed;
      unique = GoMap.insert-Unique String_discrete id st ms o.unique;
      owner = λ j c h. owner_of j c h;
    }
      where
        owner_of :
            (j : String) (c : Binding F)
            → GoMap.lookup String_discrete j (GoMap.insert String_discrete id b bs) ≡ some c
            → (x : Stream) × (GoMap.lookup String_discrete j (GoMap.insert String_discrete id st ms)
                ≡ some x)
              × IsOpen x
        owner_of j c h = elim (String_discrete id j) [
          | yes p ↦ (st, ground (arith, GoMap.lookup-insert String_discrete id j st ms), open_st)
          | no n ↦
              let (x, q, op) =
                o.owner j c (ground (arith, GoMap.lookup-insert String_discrete id j b bs)) in
              (x, ground (arith, GoMap.lookup-insert String_discrete id j st ms), op)
        ]

    -- The owner of a stream's key.
    pub stream_id-of :
        (id : String) (st : Stream)
        → GoMap.lookup String_discrete id ms ≡ some st
        → st.stream_id ≡ id
    stream_id-of id st h =
        sym (GoMap.All-lookup String_discrete (λ e. e.0 ≡ e.1.stream_id) id ms st o.keyed h)
