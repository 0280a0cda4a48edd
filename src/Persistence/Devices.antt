-- ===== src/Persistence/Devices.antt =====
-- DeviceRepo of server/internal/persistence/repositories.go.
use espmic.Common.{◌/◌, ◌*◌}
use espmic.Common.{
  ℕ, ◌≡◌, ◌≢◌, false, Option, none, some, String, String_discrete, List, [], ◌∷◌, map, arith, refl,
  sym, if◌then◌else◌, same, ◌∙◌, Option-cases, Bool-cases, inl, inr, ap,
}
use espmic.Common.GoMap
use espmic.Device.Registry.{Device}
use espmic.Persistence.Commas.{join, split, NoCommas, split-join}
use espmic.Persistence.Millis.{to_millis, of_millis}
use espmic.Persistence.Table.{Table, IsLawful}

pub record DeviceRow : Type 0 where
  pub display_name : String
  pub firmware : String
  pub capabilities : String
  pub credential_hash : List ℕ
  pub status : String
  pub last_seen : Option ℕ

unfoldable pub row_of : Device → List ℕ → DeviceRow
unfolding join
row_of d cred_hash = record {
  display_name = d.display_name;
  firmware = d.firmware;
  capabilities = join d.capabilities;
  credential_hash = cred_hash;
  status = d.status;
  last_seen = to_millis d.last_seen;
}

unfoldable pub caps_of : String → List String
unfolding split
caps_of caps = if same caps "" then [] else split caps

unfoldable pub device_of : String → DeviceRow → Device × List ℕ
unfolding caps_of
device_of id row = (
  record {
    device_id = id;
    display_name = row.display_name;
    firmware = row.firmware;
    capabilities = caps_of row.capabilities;
    status = row.status;
    last_seen = of_millis row.last_seen;
    online = false;
  },
  row.credential_hash,
)

-- What the database keeps of a device: its last sign of life by the millisecond, and not whether it
-- is online.
abbrev pub kept : Device → Device
kept d = record d { last_seen = d.last_seen / 1000000 * 1000000; online = false }

millis : (t : ℕ) → of_millis (to_millis t) ≡ t / 1000000 * 1000000
millis t = ground arith

split-nil : split "" ≡ "" ∷ []
unfolding split
split-nil = refl

split-caps : (l : List String) → NoCommas l → l ≢ "" ∷ [] → caps_of (join l) ≡ l
unfolding join caps_of
split-caps [] h ne = ground (arith, String_discrete "" "")
split-caps (s ∷ rest) h ne = elim (Bool-cases (same (join (s ∷ rest)) "")) [
  | inl e ↦
      let q : join (s ∷ rest) ≡ "" = ground (arith, String_discrete (join (s ∷ rest)) "") in
      absurd (ne (sym (split-join s rest h) ∙ ap split q ∙ split-nil))
  | inr e ↦ ground (arith, split-join s rest h)
]

-- LoadAll scans its rows by code of its own.
unfoldable pub scan_device : String → DeviceRow → Device × List ℕ
unfolding split
scan_device id row = (
  record {
    device_id = id;
    display_name = row.display_name;
    firmware = row.firmware;
    capabilities = if same row.capabilities "" then [] else split row.capabilities;
    status = row.status;
    last_seen = of_millis row.last_seen;
    online = false;
  },
  row.credential_hash,
)

module _ (T : Table DeviceRow) where
  unfoldable pub save : T.State → Device → List ℕ → Option T.State
  unfolding row_of
  save db d cred_hash = T.upsert db d.device_id (row_of d cred_hash) (λ old. row_of d cred_hash)

  unfoldable pub load : T.State → String → Option (Device × List ℕ)
  unfolding device_of
  load db id = elim (T.find db id) [ none ↦ none | some row ↦ some (device_of id row) ]

  unfoldable pub cred_hash : T.State → String → Option (List ℕ)
  cred_hash db id = elim (T.find db id) [ none ↦ none | some row ↦ some row.credential_hash ]

  unfoldable pub load_all : T.State → Option (List (Device × List ℕ))
  unfolding scan_device
  load_all db = elim (T.all db) [
    | none ↦ none
    | some rows ↦ some (map (λ kv. scan_device kv.0 kv.1) rows)
  ]

  unfoldable pub update_display_name : T.State → String → String → Option T.State
  update_display_name db id name = T.update db id (λ row. record row { display_name = name })

  module _ (law : IsLawful T) where
    -- Over a table that keeps the laws of SQL, a device that Save takes, whose capabilities hold no
    -- comma and are not one empty text, is loaded as it was saved, its last sign of life by the
    -- millisecond and as offline, and with its credential; the other devices are loaded as before.
    pub load-save_device :
        (db db' : T.State) (d : Device) (hash : List ℕ) (other : String)
        → NoCommas d.capabilities
        → d.capabilities ≢ "" ∷ []
        → save db d hash ≡ some db'
        → load db' other ≡ (if same d.device_id other then some (kept d, hash) else load db other)
    unfolding save load row_of device_of
    load-save_device db db' d hash other plain ne h =
        let q = law.find-upsert db db' d.device_id other (row_of d hash) (λ old. row_of d hash) h in
        let caps = split-caps d.capabilities plain ne in
        elim (Option-cases (T.find db d.device_id)) [
          | inl e ↦ ground (arith, q, caps, millis d.last_seen, String_discrete d.device_id other)
          | inr (old, e) ↦
              ground (arith, q, caps, millis d.last_seen, String_discrete d.device_id other)
        ]

    -- A new display name changes nothing else of the device, and no other device; a device without
    -- a row gets none.
    pub load-update_display_name :
        (db db' : T.State) (id other name : String)
        → update_display_name db id name ≡ some db'
        → load db' other ≡ (
            if same id other
            then elim (load db id) [
              | none ↦ none
              | some dh ↦ some (record (dh.0) { display_name = name }, dh.1)
            ]
            else load db other)
    unfolding load update_display_name device_of
    load-update_display_name db db' id other name h =
        let q = law.find-update db db' id other (λ row. record row { display_name = name }) h in
        elim (Option-cases (T.find db id)) [
          | inl e ↦ ground (arith, q, String_discrete id other)
          | inr (old, e) ↦ ground (arith, q, String_discrete id other)
        ]

    all-by_id :
        (rows : List (String × DeviceRow)) (id : String)
        → GoMap.lookup String_discrete id
            (map (λ dh. (dh.0.device_id, dh)) (map (λ kv. scan_device kv.0 kv.1) rows))
          ≡ elim (GoMap.lookup String_discrete id rows) [
            | none ↦ none
            | some row ↦ some (device_of id row)
          ]
    unfolding device_of scan_device caps_of GoMap.lookup
    all-by_id [] id = refl
    all-by_id ((k, row) ∷ rows) id = ground (arith, all-by_id rows id, String_discrete k id)

    load_all-load :
        (db : T.State) (l : List (Device × List ℕ)) (id : String)
        → load_all db ≡ some l
        → GoMap.lookup String_discrete id (map (λ dh. (dh.0.device_id, dh)) l) ≡ load db id
    unfolding load_all load
    load_all-load db l id h = elim (Option-cases (T.all db)) [
      | inl e ↦ ground arith
      | inr (rows, e) ↦ ground (arith, all-by_id rows id, law.lookup-all db rows id e)
    ]

    -- Over a table that keeps the laws of SQL, once a device is saved whose capabilities hold no
    -- comma and are not one empty text, LoadAll, where it succeeds, lists under each id exactly what
    -- there was: the saved device, its last sign of life by the millisecond and as offline, with its
    -- credential, and each other device as Load found it before.
    pub load_all-save :
        (db db' : T.State) (d : Device) (hash : List ℕ) (l : List (Device × List ℕ))
        (other : String)
        → NoCommas d.capabilities
        → d.capabilities ≢ "" ∷ []
        → save db d hash ≡ some db'
        → load_all db' ≡ some l
        → GoMap.lookup String_discrete other (map (λ dh. (dh.0.device_id, dh)) l)
          ≡ (if same d.device_id other then some (kept d, hash) else load db other)
    load_all-save db db' d hash l other plain ne h k =
        load_all-load db' l other k ∙ load-save_device db db' d hash other plain ne h
