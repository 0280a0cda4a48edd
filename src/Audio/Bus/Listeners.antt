-- ===== src/Audio/Bus/Listeners.antt =====
-- Subscribing and leaving, in any order and as often as may be.
use espmic.Common.{
  ℕ, suc, ◌+◌, ◌≡◌, Bool, true, false, String, String_discrete, List, [], ◌∷◌, ◌++◌, if◌then◌else◌,
  same, arith, refl, ◌≤◌,
}
use espmic.Audio.Bus.{PcmBus, new_bus, subscribed, subscribe, others, unsubscribe}

abbrev pub copies : String → List String → ℕ
copies l [] = 0
copies l (cur ∷ rest) = if same cur l then suc (copies l rest) else copies l rest

subscribed-copies : (l : String) (xs : List String) → subscribed l xs ≡ false → copies l xs ≡ 0
unfolding subscribed
subscribed-copies l [] h = refl
subscribed-copies l (x ∷ xs) h = ground (arith, subscribed-copies l xs)

copies-append :
    (l j : String) (xs : List String)
    → copies l (xs ++ (j ∷ [])) ≡ copies l xs + (if same j l then 1 else 0)
copies-append l j [] = ground arith
copies-append l j (x ∷ xs) = ground (arith, copies-append l j xs)

copies-others :
    (l j : String) (xs : List String)
    → copies l (others j xs) ≡ (if same j l then 0 else copies l xs)
unfolding others
copies-others l j [] = ground arith
copies-others l j (x ∷ xs) =
    ground
      (arith, copies-others l j xs, String_discrete x j, String_discrete x l, String_discrete j l)

-- A listener joins or leaves.
pub data Event : Type 0 where
  joins leaves : String → Event

abbrev pub react : PcmBus → Event → PcmBus
react b (joins l) = subscribe b l
react b (leaves l) = unsubscribe b l

abbrev pub run : PcmBus → List Event → PcmBus
run b [] = b
run b (e ∷ es) = run (react b e) es

-- Whether the last event of a listener, if it has one, is that it joins.
abbrev pub is_joined : Bool → String → List Event → Bool
is_joined on l [] = on
is_joined on l (joins j ∷ es) = is_joined (if same j l then true else on) l es
is_joined on l (leaves j ∷ es) = is_joined (if same j l then false else on) l es

subscribed-copy : (l : String) (xs : List String) → subscribed l xs ≡ true → 1 ≤ copies l xs
unfolding subscribed
subscribed-copy l [] h = ground arith
subscribed-copy l (x ∷ xs) h = ground (arith, subscribed-copy l xs)

copies-react :
    (on : Bool) (l : String) (b : PcmBus) (e : Event)
    → copies l b.listeners ≡ (if on then 1 else 0)
    → copies l (react b e).listeners ≡ (if is_joined on l (e ∷ []) then 1 else 0)
unfolding subscribe unsubscribe
copies-react on l b (joins j) h = ground (
  arith,
  copies-append l j b.listeners,
  subscribed-copies j b.listeners,
  subscribed-copy j b.listeners,
  String_discrete j l,
)
copies-react on l b (leaves j) h = ground (arith, copies-others l j b.listeners)

copies-run_from :
    (on : Bool) (l : String) (b : PcmBus) (es : List Event)
    → copies l b.listeners ≡ (if on then 1 else 0)
    → copies l (run b es).listeners ≡ (if is_joined on l es then 1 else 0)
copies-run_from on l b [] h = h
copies-run_from on l b (joins j ∷ es) h =
    copies-run_from (if same j l then true else on) l (subscribe b j) es
      (copies-react on l b (joins j) h)
copies-run_from on l b (leaves j ∷ es) h =
    copies-run_from (if same j l then false else on) l (unsubscribe b j) es
      (copies-react on l b (leaves j) h)

-- In whatever order listeners join and leave a new bus, and however often they do so, each is on
-- it once if its last call was to join, and not at all otherwise.
pub copies-run :
    (l : String) (es : List Event)
    → copies l (run new_bus es).listeners ≡ (if is_joined false l es then 1 else 0)
unfolding new_bus
copies-run l es = copies-run_from false l new_bus es refl
