-- ===== src/Api/Recordings.antt =====
-- The handlers of server/internal/api/api.go for recordings. The status 200 of a download stands for
-- whatever http.ServeFile answers.
use espmic.Common.{Bool, Option, none, some, String, List, if◌then◌else◌, same}
use espmic.Common.Text.{ends_with}
use espmic.Server.Queries.{
  RecordingRow, QueryResult, ok, err, recording_unreadable, get_recording, download_recording,
}
use espmic.Api.{
  missing_id, recording_not_found, recording_error, recording_body, recordings_body, file_body,
  Response, write_json, refuse,
}

module _ {F : Type 0} where
  -- The rows in the order of the query, none on an error.
  unfoldable pub handle_recordings : Option (List RecordingRow) → Response F
  handle_recordings none = write_json 500 (recording_error recording_unreadable)
  handle_recordings (some rows) = write_json 200 (recordings_body rows)

  unfoldable pub handle_recording : (String → QueryResult) → String → Response F
  unfolding get_recording
  handle_recording query id =
      if same id "" then refuse 400 missing_id else elim (get_recording query id) [
        | err e ↦ refuse 404 recording_not_found
        | ok r ↦ write_json 200 (recording_body r)
      ]

  -- A file with the flag of the content type of Ogg.
  unfoldable pub handle_recording_download :
      (String → QueryResult) → (String → Bool) → String → String → Response F
  unfolding download_recording
  handle_recording_download query exists dir id =
      if same id "" then refuse 400 missing_id else elim (download_recording query exists dir id) [
        | err e ↦ refuse 404 recording_not_found
        | ok path ↦ write_json 200 (file_body path (ends_with ".opus" path))
      ]
