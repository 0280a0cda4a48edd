-- ===== src/Device/Registry/Presence.antt =====
-- Who may connect, and what is shown of a device.
use mathlib.Core.Logic.{ite}
use espmic.Common.{
  ℕ, ◌≡◌, ◌↔◌, true, false, not, some, String, String_discrete, List, [], ◌∷◌, ◌==◌, if◌then◌else◌,
  arith, refl, Bool-cases, Option-cases, inl, inr,
}
use espmic.Common.GoMap
use espmic.Device.Registry.{
  Device, DeviceResult, auth_failed, ok, err, Registry, authenticate, same_bytes, with_presence,
  seen_online, set_online, set_offline, set_display_name, register,
}

same_bytes_iff : (xs ys : List ℕ) → (same_bytes xs ys ≡ true) ↔ (xs ≡ ys)
same_bytes_iff [] [] = (λ h. refl, λ h. refl)
same_bytes_iff [] (y ∷ ys) = (λ h. ground arith, λ h. ground arith)
same_bytes_iff (x ∷ xs) [] = (λ h. ground arith, λ h. ground arith)
same_bytes_iff (x ∷ xs) (y ∷ ys) =
    (λ h. ground (arith, (same_bytes_iff xs ys).0), λ h. ground (arith, (same_bytes_iff xs ys).1))

forth :
    (r : Registry) (id : String) (cred_hash : List ℕ) (d : Device)
    → authenticate r id cred_hash ≡ ok d
    → (e : Device) × (GoMap.lookup String_discrete id r.devices ≡ some e)
      × (GoMap.lookup String_discrete id r.creds ≡ some cred_hash)
      × (d ≡ with_presence r e)
unfolding authenticate
forth r id cred_hash d h = elim (Option-cases (GoMap.lookup String_discrete id r.devices)) [
  | inl p ↦ ground arith
  | inr (e, p) ↦ elim (Option-cases (GoMap.lookup String_discrete id r.creds)) [
    | inl q ↦ ground arith
    | inr (want, q) ↦ elim (Bool-cases (same_bytes want cred_hash)) [
      | inr n ↦ ground arith
      | inl y ↦ (e, p, ground (arith, (same_bytes_iff want cred_hash).0 y), ground arith)
    ]
  ]
]

back :
    (r : Registry) (id : String) (cred_hash : List ℕ) (d : Device)
    → ((e : Device) × (GoMap.lookup String_discrete id r.devices ≡ some e)
        × (GoMap.lookup String_discrete id r.creds ≡ some cred_hash)
        × (d ≡ with_presence r e))
    → authenticate r id cred_hash ≡ ok d
unfolding authenticate
back r id cred_hash d (e, f, g, p) = ground (arith, (same_bytes_iff cred_hash cred_hash).1 refl)

-- Authentication succeeds exactly for a registered device whose stored hash is the one presented,
-- and then returns that device with its presence.
pub authenticate-ok :
    (r : Registry) (id : String) (cred_hash : List ℕ) (d : Device)
    → (authenticate r id cred_hash ≡ ok d) ↔ (
        (e : Device) × (GoMap.lookup String_discrete id r.devices ≡ some e)
        × (GoMap.lookup String_discrete id r.creds ≡ some cred_hash)
        × (d ≡ with_presence r e))
authenticate-ok r id cred_hash d = (forth r id cred_hash d, back r id cred_hash d)

-- Setting a device online with a nonzero instant shows exactly that device as online, setting it
-- offline shows exactly that device as offline, and neither changes whether another is online.
pub seen_online-set :
    (r : Registry) (id j : String) (t : ℕ)
    → (seen_online (set_online r id t) j
        ≡ ite (String_discrete id j) (not (t == 0)) (seen_online r j))
      × (seen_online (set_offline r id) j ≡ ite (String_discrete id j) false (seen_online r j))
unfolding set_online set_offline
seen_online-set r id j t = (
  ground (arith, GoMap.lookup-insert String_discrete id j t r.online),
  ground (arith, GoMap.lookup-delete String_discrete id j r.online),
)

-- Registering a device makes it the one that is found under its identifier and that its hash
-- authenticates, and its earlier hash no longer does; no other device's authentication changes.
pub authenticate-register :
    (r : Registry) (d : Device) (cred_hash given : List ℕ) (j : String)
    → authenticate (register r d cred_hash) j given
      ≡ ite
          (String_discrete d.device_id j)
          (if same_bytes cred_hash given then ok (with_presence r d) else err auth_failed)
          (authenticate r j given)
unfolding authenticate register with_presence
authenticate-register r d cred_hash given j = ground (
  arith,
  GoMap.lookup-insert String_discrete d.device_id j d r.devices,
  GoMap.lookup-insert String_discrete d.device_id j cred_hash r.creds,
)

abbrev pub renamed : String → DeviceResult → DeviceResult
renamed name (ok d) = ok (record d { display_name = name })
renamed name (err e) = err e

-- Giving a device another display name changes nothing of its authentication but the name in the
-- device returned, and nothing at all of the authentication of another device.
pub authenticate-set_display_name :
    (r : Registry) (id name j : String) (given : List ℕ)
    → authenticate (set_display_name r id name).0 j given
      ≡ ite (String_discrete id j) (renamed name (authenticate r j given)) (authenticate r j given)
unfolding authenticate set_display_name with_presence
authenticate-set_display_name r id name j given =
    elim (Option-cases (GoMap.lookup String_discrete id r.devices)) [
      | inl p ↦ ground arith
      | inr (d, p) ↦ ground (
        arith,
        GoMap.lookup-insert String_discrete id j (record d { display_name = name }) r.devices,
      )
    ]
