-- ===== src/Audio/Bus.antt =====
-- server/internal/audio/bus.go: who hears the decoded frames. A listener is its name. The lock of
-- each method is held throughout it. Publish lets go of it before the calls, and calls here the
-- listeners that it read; that an Unsubscribe overwrites this slice in place meanwhile is not
-- modelled.
pub mod Listeners
use espmic.Common.{
  ℕ, Bool, true, false, Option, none, some, String, List, [], ◌∷◌, ◌++◌, if◌then◌else◌, length,
  same, ◌||◌,
}

pub record PcmBus : Type 0 where
  pub listeners : List String

unfoldable pub new_bus : PcmBus
new_bus = record { listeners = [] }

unfoldable pub subscribed : String → List String → Bool
subscribed l [] = false
subscribed l (cur ∷ rest) = same cur l || subscribed l rest

unfoldable pub subscribe : PcmBus → String → PcmBus
unfolding subscribed
subscribe b l =
    if subscribed l b.listeners then b else record { listeners = b.listeners ++ (l ∷ []) }

unfoldable pub others : String → List String → List String
others l [] = []
others l (cur ∷ rest) = let out = others l rest in if same cur l then out else cur ∷ out

unfoldable pub unsubscribe : PcmBus → String → PcmBus
unfolding others
unsubscribe b l = record { listeners = others l b.listeners }

-- The listeners called with a frame; none is the nil frame.
unfoldable pub publish {ℓ} : {A : Type ℓ} → PcmBus → Option A → List String
publish b none = []
publish b (some frame) = b.listeners

unfoldable pub listener_count : PcmBus → ℕ
listener_count b = length b.listeners
