-- ===== src/Stream/Registry/Laws.antt =====
-- What the stream registry promises its callers.
use mathlib.Core.Logic.{ite}
use espmic.Common.{
  ◌≡◌, ◌⊎◌, true, false, none, some, String, String_discrete, List, [], ◌∷◌, arith, All, refl, inl,
  inr, Bool-cases,
}
use espmic.Common.GoMap
use espmic.Stream.Lifecycle.{Stream, waiting_for_device, stream_not_found}
use espmic.Stream.Registry.{
  Registry, found, missing, add, get, remove, is_live, live_of, first_live, get_by_device,
}

-- After a stream is added, its id finds it and every other id finds what it found; after one is
-- removed, its id finds nothing and every other id finds what it found.
pub get-add-remove :
    (r : Registry) (s : Stream) (id j : String)
    → (get (add r s) j ≡ ite (String_discrete s.stream_id j) (found s) (get r j))
      × (get (remove r id) j ≡ ite (String_discrete id j) (missing stream_not_found) (get r j))
unfolding get add remove
get-add-remove r s id j = (
  ground (arith, GoMap.lookup-insert String_discrete s.stream_id j s r.streams),
  ground (arith, GoMap.lookup-delete String_discrete id j r.streams),
)

abbrev pub IsLiveOf : String → String × Stream → Type 0
IsLiveOf device e = (e.1.device_id ≡ device) × (is_live e.1.state ≡ true)

-- Some stored stream is this one.
abbrev pub Holds : Stream → List (String × Stream) → Type 0
Holds s [] = ⊥
Holds s ((k, t) ∷ m) = (s ≡ t) ⊎ Holds s m

live_of-true :
    (device : String) (s : Stream)
    → live_of device s ≡ true
    → (s.device_id ≡ device) × (is_live s.state ≡ true)
live_of-true device s h = elim (String_discrete s.device_id device) [
  | yes p ↦ (p, ground arith)
  | no n ↦ ground arith
]

live_of-false :
    (device : String) (s : Stream)
    → live_of device s ≡ false
    → (s.device_id ≡ device) × (is_live s.state ≡ true)
    → ⊥
live_of-false device s h (d, l) = ground arith

Holds-state :
    (s : Stream) (m : List (String × Stream))
    → All (λ (e : String × Stream). e.1.state ≡ waiting_for_device) m
    → Holds s m
    → s.state ≡ waiting_for_device
Holds-state s [] h mem = absurd mem
Holds-state s ((k, t) ∷ m) h (inl e) = ground arith
Holds-state s ((k, t) ∷ m) h (inr mem) = Holds-state s m h.1 mem

not_live : (s : Stream) → is_live s.state ≡ true → s.state ≡ waiting_for_device → ⊥
not_live s l w = ground arith

first_live-cases :
    (device : String) (m : List (String × Stream))
    → ((first_live device m ≡ none) × All (λ (e : String × Stream). ¬ IsLiveOf device e) m)
      ⊎ ((s : Stream) × (first_live device m ≡ some s)
          × (s.device_id ≡ device)
          × (is_live s.state ≡ true)
          × Holds s m)
unfolding first_live
first_live-cases device [] = inl (refl, tt)
first_live-cases device ((k, s) ∷ m) = elim (Bool-cases (live_of device s)) [
  | inl t ↦ let (dev, live) = live_of-true device s t in inr (s, rw t refl, dev, live, inl refl)
  | inr f ↦ elim (first_live-cases device m) [
    | inl (e, rest) ↦ inl (rw f e, (λ l. live_of-false device s f l, rest))
    | inr (x, e, dev, live, mem) ↦ inr (x, rw f e, dev, live, inr mem)
  ]
]

-- `GetByDevice` returns a stored stream of that device in one of the states ACTIVE, RTP_WAIT,
-- STARTING, CREATED and STOPPING; and it returns nothing only if no stored stream is one.
pub get_by_device-cases :
    (r : Registry) (device : String)
    → ((get_by_device r device ≡ none)
        × All (λ (e : String × Stream). ¬ IsLiveOf device e) r.streams)
      ⊎ ((s : Stream) × (get_by_device r device ≡ some s)
          × (s.device_id ≡ device)
          × (is_live s.state ≡ true)
          × Holds s r.streams)
unfolding get_by_device
get_by_device-cases r device = first_live-cases device r.streams

-- A stream that waits for its device is not terminal, and `GetByDevice` does not see it: a device
-- whose streams all wait has none.
pub get_by_device-waiting :
    (r : Registry) (device : String)
    → All (λ (e : String × Stream). e.1.state ≡ waiting_for_device) r.streams
    → get_by_device r device ≡ none
get_by_device-waiting r device h = elim (get_by_device-cases r device) [
  | inl (e, rest) ↦ e
  | inr (s, e, dev, live, mem) ↦ absurd (not_live s live (Holds-state s r.streams h mem))
]
