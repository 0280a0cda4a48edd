-- ===== src/Api/Devices.antt =====
-- The handlers of server/internal/api/api.go for devices: their list, their status, their
-- configuration and their names. A command is split where it waits for the device.
pub mod Config
pub mod Names
use espmic.Common.{
  ℕ, ◌≡◌, Bool, true, false, not, ◌&&◌, ◌||◌, Option, none, some, String, List, if◌then◌else◌, same,
  ltb,
}
use espmic.Common.Trim.{trim_space, byte_length}
use espmic.Control.Messages.{Message, m_error, SetConfig, ConfigError, validate}
use espmic.Control.Manager.{CommandError, Begun, awaits, fails, wake_by_reply, wake_by_context}
use espmic.Device.Registry.{ok, err}
use espmic.Device.Registry as Devices
use espmic.Server.State.{Server}
use espmic.Server.Queries.{
  device_get, device_list, begin_push_config, begin_device_status, StatusBegun, status_awaited,
  status_failed, StatusFailure, no_device, not_sent,
}
use espmic.Server.Restart.{Renamed, renamed, unsaved, not_renamed, set_device_display_name}
use espmic.Api.{
  is_get, is_post, is_patch, Request, Refusal, method_not_allowed, missing_id, invalid_json,
  name_empty, name_too_long, device_not_found, device_not_connected, device_silent, Body,
  status_error, command_error, config_error, name_unsaved, context_ended, reply_body, renamed_body,
  device_body, devices_body, Response, write_json, refuse, Progress, answered, waiting, Cause,
  no_connection, command_cause,
}

module _ {F : Type 0} where
  unfoldable pub handle_devices : Server F → Response F
  unfolding device_list
  handle_devices s = write_json 200 (devices_body (device_list s))

  unfoldable pub handle_device : Server F → String → Response F
  unfolding device_get
  handle_device s id = if same id "" then refuse 400 missing_id else elim (device_get s id) [
    | err e ↦ refuse 404 device_not_found
    | ok d ↦ write_json 200 (device_body d)
  ]

  -- The switch over the error of a command that was not sent.
  abbrev pub unsent : Body F → Cause → Response F
  unsent body no_connection = refuse 404 device_not_connected
  unsent body _ = write_json 500 body

  -- The context of a command has ended, by its deadline or not.
  abbrev pub timed_out : Bool → Response F
  timed_out true = refuse 504 device_silent
  timed_out false = write_json 500 context_ended

  abbrev pub status_progress : String → String → StatusBegun → Progress F
  status_progress id rid status_awaited = waiting rid id 0
  status_progress id rid (status_failed no_device) =
      answered (write_json 500 (status_error no_device))
  status_progress id rid (status_failed (not_sent e)) =
      answered (unsent (status_error (not_sent e)) (command_cause e))

  unfoldable pub handle_device_status :
      (ℕ → Message → Bool) → Server F → Request (Unit {0}) → String → Server F × Progress F
  unfolding begin_device_status
  handle_device_status send s r request_id =
      if not (is_get r.method)
      then (s, answered (refuse 405 method_not_allowed))
      else if same r.id ""
      then (s, answered (refuse 400 missing_id))
      else let (s', b) = begin_device_status send s r.id request_id in
        (s', status_progress r.id request_id b)

  -- The reply of the device, also its error, is the answer.
  abbrev pub reply_ok : Message → Response F
  reply_ok msg = write_json 200 (reply_body msg)

  -- What handleConfig makes of the reply.
  abbrev pub config_reply : Message → Response F
  config_reply (m_error e) = write_json 502 (reply_body (m_error e))
  config_reply msg = reply_ok msg

  -- A wait for a command's reply ends; none while there is nothing in the channel.
  abbrev pub command_end :
      (Message → Response F) → Server F → String → Bool → Bool → Option (Server F × Response F)
  command_end respond s rid true deadline =
      some (record s { ctrl = wake_by_context s.ctrl rid }, timed_out deadline)
  command_end respond s rid false deadline = elim (wake_by_reply s.ctrl rid) [
    | none ↦ none
    | some (msg, ctrl) ↦ some (record s { ctrl = ctrl }, respond msg)
  ]

  unfoldable pub handle_device_status_end :
      Server F → String → Bool → Bool → Option (Server F × Response F)
  handle_device_status_end s rid expired deadline = command_end reply_ok s rid expired deadline

  abbrev pub config_progress : String → String → Begun → Progress F
  config_progress id rid awaits = waiting rid id 0
  config_progress id rid (fails e) = answered (unsent (command_error e) (command_cause e))

  -- The request with its new id is valid, or not.
  abbrev pub push_valid :
      (ℕ → Message → Bool)
      → Server F
      → String
      → SetConfig
      → Option ConfigError
      → Server F × Progress F
  push_valid send s id req (some e) = (s, answered (write_json 400 (config_error e)))
  push_valid send s id req none =
      let (s', b) = begin_push_config send s id req in (s', config_progress id req.request_id b)

  unfoldable pub handle_config :
      (ℕ → Message → Bool) → Server F → Request SetConfig → String → Server F × Progress F
  unfolding begin_push_config validate
  handle_config send s r request_id =
      if not (is_post r.method)
      then (s, answered (refuse 405 method_not_allowed))
      else if same r.id ""
      then (s, answered (refuse 400 missing_id))
      else elim r.body [
        | none ↦ (s, answered (refuse 400 invalid_json))
        | some given ↦
            let req = record given { request_id = request_id } in
            push_valid send s r.id req (validate req)
      ]

  unfoldable pub handle_config_end :
      Server F → String → Bool → Bool → Option (Server F × Response F)
  handle_config_end s rid expired deadline = command_end config_reply s rid expired deadline

  abbrev pub rename_response : String → Renamed → Response F
  rename_response name renamed = write_json 200 (renamed_body name)
  rename_response name unsaved = write_json 500 name_unsaved
  rename_response name (not_renamed Devices.device_not_found) = refuse 404 device_not_found
  rename_response name (not_renamed Devices.auth_failed) = write_json 500 name_unsaved

  -- `saved` says whether the database takes the name.
  abbrev pub rename_trimmed : Server F → String → String → Bool → Server F × Response F
  rename_trimmed s id name saved =
      if same name ""
      then (s, refuse 400 name_empty)
      else if ltb 64 (byte_length name)
      then (s, refuse 400 name_too_long)
      else let (s', r) = set_device_display_name s id name saved in (s', rename_response name r)

  unfoldable pub handle_device_rename : Server F → Request String → Bool → Server F × Response F
  unfolding trim_space byte_length set_device_display_name
  handle_device_rename s r saved =
      if not (is_patch r.method) && not (is_post r.method)
      then (s, refuse 405 method_not_allowed)
      else if same r.id ""
      then (s, refuse 400 missing_id)
      else elim r.body [
        | none ↦ (s, refuse 400 invalid_json)
        | some given ↦ rename_trimmed s r.id (trim_space given) saved
      ]
