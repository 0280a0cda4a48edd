-- ===== src/Api/Devices/Names.antt =====
-- Which names a device can be given.
use espmic.Common.{
  ◌≡◌, ◌≢◌, ◌∙◌, ◌≤◌, Bool, true, some, String, String_discrete, arith, refl, ap, sym,
  if◌then◌else◌, same, Option-cases, Bool-cases, inl, inr, ltb,
}
use espmic.Common.GoMap
use espmic.Common.Trim.{trim_space, byte_length, starts_bare, ends_bare, trim_space-bare}
use espmic.Device.Registry.{Device}
use espmic.Device.Registry as Devices
use espmic.Server.State.{Server, log, rename_device}
use espmic.Server.Queries.{device_get}
use espmic.Server.Restart.{Renamed, renamed, unsaved, not_renamed, set_device_display_name}
use espmic.Api.{Request, Response}
use espmic.Api.Devices.{handle_device_rename, rename_trimmed, rename_response}

only_renamed :
    (F : Type 0) (name : String) (r : Renamed)
    → Response.status {F = F} (rename_response name r) ≡ 200
    → r ≡ renamed
only_renamed F name renamed h = refl
only_renamed F name unsaved h = absurd (omega arith)
only_renamed F name (not_renamed Devices.device_not_found) h = absurd (omega arith)
only_renamed F name (not_renamed Devices.auth_failed) h = absurd (omega arith)

module _ {F : Type 0} where
  abbrev aliased : Server F → String → Device → String → Devices.Registry
  aliased s id d name = record (s.device) {
    devices = GoMap.insert String_discrete id (record d { display_name = name }) s.device.devices;
  }

  set_known :
      (s : Server F) (id name : String) (saved : Bool) (d : Device)
      → GoMap.lookup String_discrete id s.device.devices ≡ some d
      → set_device_display_name s id name saved ≡ (
        log (record s { device = aliased s id d name }) (rename_device id name),
        if saved then renamed else unsaved,
      )
  unfolding set_device_display_name Devices.set_display_name
  set_known s id name saved d h = ground arith

  found :
      (s : Server F) (id name : String) (d : Device)
      → device_get (record s { device = aliased s id d name }) id
        ≡ Devices.ok
            (Devices.with_presence (aliased s id d name) (record d { display_name = name }))
  unfolding device_get Devices.get
  found s id name d = ground (
    arith,
    GoMap.lookup-insert String_discrete id id (record d { display_name = name }) s.device.devices,
  )

  -- The server's part.
  display_name-set :
      (s : Server F) (id name : String) (saved : Bool)
      → (set_device_display_name s id name saved).1 ≡ renamed
      → (saved ≡ true)
        × ((d : Device) × (device_get (set_device_display_name s id name saved).0 id ≡ Devices.ok d)
            × (d.display_name ≡ name))
  unfolding set_device_display_name Devices.set_display_name device_get Devices.get
      Devices.with_presence
  display_name-set s id name saved h =
      elim (Option-cases (GoMap.lookup String_discrete id s.device.devices)) [
        | inl e ↦ ground arith
        | inr (d, e) ↦
            let q = set_known s id name saved d e in
            (
              ground arith,
              (
                Devices.with_presence (aliased s id d name) (record d { display_name = name }),
                ap (λ z. device_get z.0 id) q ∙ found s id name d,
                refl,
              ),
            )
      ]

  accepted :
      (s : Server F) (id name : String) (saved : Bool)
      → (rename_trimmed s id name saved).1.status ≡ 200
      → (name ≢ "")
        × (byte_length name ≤ 64)
        × (rename_trimmed s id name saved
            ≡ ((set_device_display_name s id name saved).0, rename_response name renamed))
        × ((set_device_display_name s id name saved).1 ≡ renamed)
  accepted s id name saved h = elim (Bool-cases (same name "")) [
    | inl e ↦ ground arith
    | inr e ↦ elim (Bool-cases (ltb 64 (byte_length name))) [
      | inl long ↦ ground arith
      | inr short ↦
          let (s', r) = set_device_display_name s id name saved in
          let q : rename_trimmed s id name saved ≡ (
            (set_device_display_name s id name saved).0,
            rename_response name (set_device_display_name s id name saved).1,
          ) =
            ground arith in
          let k =
            only_renamed F name (set_device_display_name s id name saved).1
              (ap (λ z. z.1.status) (sym q) ∙ h) in
          (
            ground (arith, String_discrete name ""),
            ground arith,
            q ∙ ap (λ z. ((set_device_display_name s id name saved).0, rename_response name z)) k,
            k,
          )
    ]
  ]

  -- A name that is answered 200 is, once trimmed, not empty, at most 64 bytes long and without a
  -- space at either end; the database has taken it, and the device is then found under it.
  pub handle_device_rename-ok :
      (s : Server F) (r : Request String) (saved : Bool)
      → (handle_device_rename s r saved).1.status ≡ 200
      → (given : String) × (r.body ≡ some given)
        × (trim_space given ≢ "")
        × (byte_length (trim_space given) ≤ 64)
        × (starts_bare (trim_space given) ≡ true)
        × (ends_bare (trim_space given) ≡ true)
        × (saved ≡ true)
        × ((d : Device) × (device_get (handle_device_rename s r saved).0 r.id ≡ Devices.ok d)
            × (d.display_name ≡ trim_space given))
  unfolding handle_device_rename
  handle_device_rename-ok s r saved h = elim (Option-cases r.body) [
    | inl e ↦ ground arith
    | inr (given, e) ↦
        let name = trim_space given in
        let q : handle_device_rename s r saved ≡ rename_trimmed s r.id name saved = ground arith in
        let (ne, short, t, k) = accepted s r.id name saved (ap (λ z. z.1.status) (sym q) ∙ h) in
        let (kept, (d, look, named)) = display_name-set s r.id name saved k in
        let (first, last) = trim_space-bare given in
        (
          given,
          e,
          ne,
          short,
          first,
          last,
          kept,
          (d, ap (λ z. device_get z r.id) (ap (λ z. z.0) (q ∙ t)) ∙ look, named),
        )
  ]
