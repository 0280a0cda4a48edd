-- ===== src/Device/Registry.antt =====
-- server/internal/device/registry.go and device.go. Instants are numbers, 0 is Go's zero time; the
-- lock of each method is held throughout it.
pub mod Presence
use espmic.Common.{
  ℕ, ◌≡◌, Bool, true, false, not, ◌&&◌, Option, none, some, String, String_discrete, List, [], ◌∷◌,
  ◌==◌, if◌then◌else◌, map,
}
use espmic.Common.GoMap

pub record Device : Type 0 where
  pub device_id : String
  pub display_name : String
  pub firmware : String
  pub capabilities : List String
  pub status : String
  pub last_seen : ℕ
  pub online : Bool

pub data DeviceError : Type 0 where
  device_not_found auth_failed : DeviceError

pub data DeviceResult : Type 0 where
  ok : Device → DeviceResult
  err : DeviceError → DeviceResult

pub record Registry : Type 0 where
  pub devices : List (String × Device)
  pub creds : List (String × List ℕ)
  pub online : List (String × ℕ)

unfoldable pub new_registry : Registry
new_registry = record { devices = []; creds = []; online = [] }

unfoldable pub register : Registry → Device → List ℕ → Registry
register r d cred_hash = record r {
  devices = GoMap.insert String_discrete d.device_id d r.devices;
  creds = GoMap.insert String_discrete d.device_id cred_hash r.creds;
}

unfoldable pub status_from_online : Bool → String
status_from_online true = "online"
status_from_online false = "offline"

-- `r.online[id] != time.Time{}`: a missing key reads as the zero time.
abbrev pub seen_online : Registry → String → Bool
seen_online r id = elim (GoMap.lookup String_discrete id r.online) [
  | none ↦ false
  | some t ↦ not (t == 0)
]

unfoldable pub with_presence : Registry → Device → Device
unfolding status_from_online
with_presence r d =
    let on = seen_online r d.device_id in record d { online = on; status = status_from_online on }

unfoldable pub get : Registry → String → DeviceResult
unfolding with_presence
get r id = elim (GoMap.lookup String_discrete id r.devices) [
  | none ↦ err device_not_found
  | some d ↦ ok (with_presence r d)
]

-- subtle.ConstantTimeCompare is 1 exactly for equal contents.
abbrev pub same_bytes : List ℕ → List ℕ → Bool
same_bytes [] [] = true
same_bytes (a ∷ xs) (b ∷ ys) = a == b && same_bytes xs ys
same_bytes _ _ = false

unfoldable pub authenticate : Registry → String → List ℕ → DeviceResult
unfolding with_presence
authenticate r id cred_hash = elim (GoMap.lookup String_discrete id r.devices) [
  | none ↦ err device_not_found
  | some d ↦ elim (GoMap.lookup String_discrete id r.creds) [
    | none ↦ err auth_failed
    | some want ↦
        if not (same_bytes want cred_hash) then err auth_failed else ok (with_presence r d)
  ]
]

unfoldable pub list : Registry → List Device
unfolding with_presence
list r = map (λ e. with_presence r e.1) r.devices

unfoldable pub set_online : Registry → String → ℕ → Registry
set_online r id t = record r { online = GoMap.insert String_discrete id t r.online }

unfoldable pub set_offline : Registry → String → Registry
set_offline r id = record r { online = GoMap.delete String_discrete id r.online }

unfoldable pub online? : Registry → String → Bool
online? r id = elim (GoMap.lookup String_discrete id r.online) [ none ↦ false | some t ↦ true ]

unfoldable pub set_display_name : Registry → String → String → Registry × Option DeviceError
set_display_name r id name = elim (GoMap.lookup String_discrete id r.devices) [
  | none ↦ (r, some device_not_found)
  | some d ↦ (
    record r {
      devices = GoMap.insert String_discrete id (record d { display_name = name }) r.devices;
    },
    none,
  )
]

unfoldable pub last_seen : Registry → String → Option ℕ
last_seen r id = GoMap.lookup String_discrete id r.online
