-- ===== src/Stream/Registry.antt =====
-- The Registry of server/internal/stream/stream.go. The map holds pointers in the source; here it
-- holds the streams themselves, and a change of a stream is a change of its entry.
pub mod Laws
use espmic.Common.{
  ℕ, ◌+◌, ◌≡◌, Bool, true, false, ◌&&◌, ◌||◌, Option, none, some, String, String_discrete, List, [],
  ◌∷◌, length, map, if◌then◌else◌, same,
}
use espmic.Common.GoMap
use espmic.Stream.Lifecycle.{
  StreamState, created, starting, rtp_wait, active, stopping, Stream, StreamError, stream_not_found,
  ◌is◌,
}

pub record Registry : Type 0 where
  pub streams : List (String × Stream)

-- A stream or the error of `Get`.
pub data Found : Type 0 where
  found : Stream → Found
  missing : StreamError → Found

unfoldable pub new_registry : Registry
new_registry = record { streams = [] }

unfoldable pub add : Registry → Stream → Registry
add r s = record { streams = GoMap.insert String_discrete s.stream_id s r.streams }

unfoldable pub get : Registry → String → Found
get r id = elim (GoMap.lookup String_discrete id r.streams) [
  | some s ↦ found s
  | none ↦ missing stream_not_found
]

unfoldable pub list : Registry → List Stream
list r = map (λ e. e.1) r.streams

unfoldable pub remove : Registry → String → Registry
remove r id = record { streams = GoMap.delete String_discrete id r.streams }

-- The states that `GetByDevice` takes for live.
abbrev pub is_live : StreamState → Bool
is_live s = s is active || s is rtp_wait || s is starting || s is created || s is stopping

abbrev pub live_of : String → Stream → Bool
live_of device s = same s.device_id device && is_live s.state

unfoldable pub first_live : String → List (String × Stream) → Option Stream
first_live device [] = none
first_live device ((k, s) ∷ m) = if live_of device s then some s else first_live device m

unfoldable pub get_by_device : Registry → String → Option Stream
unfolding first_live
get_by_device r device = first_live device r.streams

-- `ForEach` with a function that changes each stream.
unfoldable pub for_each : Registry → (Stream → Stream) → Registry
for_each r f = record { streams = map (λ e. (e.0, f e.1)) r.streams }

unfoldable pub count : Registry → ℕ
count r = length r.streams
