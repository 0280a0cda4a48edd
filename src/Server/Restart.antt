-- ===== src/Server/Restart.antt =====
-- server/internal/server/server.go: Restore, which takes up what the database holds, Authenticate,
-- which enrols a device at its first hello, and the display names of devices.
--
-- What LoadAll returns is an argument, none for an error, and so is whether a write succeeds whose
-- error is returned. The state of a stored stream is its text.
pub mod Stale
use espmic.Common.{
  ℕ, ◌≡◌, Bool, true, false, not, ◌||◌, Option, none, some, String, String_discrete, List, [], ◌∷◌,
  ◌++◌, if◌then◌else◌, ◌&&◌, same,
}
use espmic.Device.Registry.{Device, DeviceError, DeviceResult, device_not_found, auth_failed}
use espmic.Device.Registry as Devices
use espmic.Stream.Lifecycle.{
  Stream, StreamError, failed, server_restart, new, with_timeout_config, mark_server_restart_failed,
}
use espmic.Stream.Registry as Streams
use espmic.Server.State.{Config, Server, DbCall, save_stream, save_device, rename_device, log}
use espmic.Server.Start.{timeouts}

pub record StreamRow : Type 0 where
  pub stream_id : String
  pub device_id : String
  pub state : String
  pub ssrc : ℕ
  pub started : ℕ

pub data RestoreError : Type 0 where
  load_devices load_streams save_failed : RestoreError
  mark_failed : StreamError → RestoreError

-- A stream of the last run that was not at its end.
abbrev pub is_stale : StreamRow → Bool
is_stale row = same row.state "ACTIVE" || same row.state "STARTING" || same row.state "RTP_WAIT"

unfoldable pub restored : Config → StreamRow → Stream × Option StreamError
unfolding new with_timeout_config mark_server_restart_failed
restored c row =
    mark_server_restart_failed
      (with_timeout_config (new row.stream_id row.device_id row.ssrc row.started) (timeouts c))

abbrev pub saved_failed : StreamRow → DbCall
saved_failed row =
    save_stream row.stream_id row.device_id failed server_restart row.ssrc row.started

-- A device that is seen for the first time.
abbrev pub enrolled : String → Device
enrolled device = record {
  device_id = device;
  display_name = device;
  firmware = "";
  capabilities = [];
  status = "online";
  last_seen = 0;
  online = false;
}

-- What a new display name comes to: the registry's error, or the database's, if there is one.
pub data Renamed : Type 0 where
  renamed unsaved : Renamed
  not_renamed : DeviceError → Renamed

module _ {F : Type 0} where
  unfoldable pub restore_device : Server F → Device × List ℕ → Server F
  unfolding Devices.register
  restore_device s (d, cred_hash) = record s {
    device = Devices.register s.device (record d { status = "offline" }) cred_hash;
  }

  unfoldable pub restore_devices : Server F → List (Device × List ℕ) → Server F
  unfolding restore_device
  restore_devices s [] = s
  restore_devices s (d ∷ ds) = restore_devices (restore_device s d) ds

  module _ (saves : StreamRow → Bool) where
    -- The branch of a stale stream.
    unfoldable pub restore_stream : Server F → StreamRow → Server F × Option RestoreError
    unfolding restored Streams.add
    restore_stream s row =
        let (st, e) = restored s.cfg row in
        elim e [
          | some why ↦ (s, some (mark_failed why))
          | none ↦
              let s' = log (record s { stream = Streams.add s.stream st }) (saved_failed row) in
              if saves row then (s', none) else (s', some save_failed)
        ]

    unfoldable pub restore_streams : Server F → List StreamRow → Server F × Option RestoreError
    unfolding restore_stream
    restore_streams s [] = (s, none)
    restore_streams s (row ∷ rows) = elim (is_stale row) [
      | false ↦ restore_streams s rows
      | true ↦ elim (restore_stream s row).1 [
        | some why ↦ restore_stream s row
        | none ↦ restore_streams (restore_stream s row).0 rows
      ]
    ]

    unfoldable pub restore :
        Server F
        → Option (List (Device × List ℕ))
        → Option (List StreamRow)
        → Server F × Option RestoreError
    unfolding restore_devices restore_streams
    restore s none streams = (s, some load_devices)
    restore s (some ds) none = (restore_devices s ds, some load_streams)
    restore s (some ds) (some rows) = restore_streams (restore_devices s ds) rows

  unfoldable pub enrol : Server F → String → ℕ → Server F
  unfolding Devices.register Devices.set_online
  enrol s device now =
      let s' =
        log (record s { device = Devices.register s.device (enrolled device) [] })
          (save_device (enrolled device) []) in
      record s' { device = Devices.set_online s'.device device now }

  -- subtle.ConstantTimeCompare is 1 exactly for equal contents.
  unfoldable pub authenticate : Server F → String → String → ℕ → Server F × Option DeviceError
  unfolding enrol Devices.get Devices.set_online
  authenticate s device credential now =
      if not (same s.cfg.device_credential "") && not (same credential s.cfg.device_credential)
      then (s, some auth_failed)
      else elim (Devices.get s.device device) [
        | Devices.ok d ↦ (record s { device = Devices.set_online s.device device now }, none)
        | Devices.err device_not_found ↦ (enrol s device now, none)
        | Devices.err auth_failed ↦ (s, some auth_failed)
      ]

  unfoldable pub set_device_display_name : Server F → String → String → Bool → Server F × Renamed
  unfolding Devices.set_display_name
  set_device_display_name s device name saved =
      let (r, e) = Devices.set_display_name s.device device name in
      elim e [
        | some why ↦ (s, not_renamed why)
        | none ↦ (
          log (record s { device = r }) (rename_device device name),
          if saved then renamed else unsaved,
        )
      ]
