-- ===== src/Persistence/Tests.antt =====
-- The theorems of the repositories at tables in memory.
use espmic.Common.{All, ◌/◌, ◌%◌, ◌^◌, ◌==◌, false}
use espmic.Common.{
  ℕ, ◌≡◌, true, none, some, String, String_discrete, List, [], ◌∷◌, map, refl, same, if◌then◌else◌,
}
use espmic.Common.GoMap
use espmic.Common.Int.{pos}
use espmic.Device.Registry.{Device}
use espmic.Persistence.Commas.{NoCommas, has_comma}
use espmic.Persistence.Devices.{
  DeviceRow, kept, save, load, load_all, load-save_device, load_all-save,
}
use espmic.Persistence.Recordings.{
  Statement, creates, finalizes, about, execute_all, RecordingRow, create, finalize,
  create-finalize,
}
use espmic.Persistence.Streams.{StreamRow, row_of, save-again}
use espmic.Persistence.Streams as Streams
use espmic.Persistence.Table.Memory.{memory, memory-IsLawful}

abbrev mic : Device
mic = record {
  device_id = "mic";
  display_name = "Kitchen";
  firmware = "1.0";
  capabilities = "opus" ∷ "psram" ∷ [];
  status = "online";
  last_seen = 1700000000123456789;
  online = true;
}

abbrev no_devices : List (String × DeviceRow)
no_devices = []

abbrev with_mic : List (String × DeviceRow)
unfolding save
with_mic = elim (save (memory DeviceRow) no_devices mic (7 ∷ [])) [ none ↦ [] | some db ↦ db ]

mic_saved : save (memory DeviceRow) no_devices mic (7 ∷ []) ≡ some with_mic
unfolding save with_mic
mic_saved = refl

plain : NoCommas mic.capabilities
unfolding has_comma
plain = (refl, (refl, tt))

load-save_device_example : load (memory DeviceRow) with_mic "mic" ≡ (
    if same "mic" "mic" then some (kept mic, 7 ∷ []) else load (memory DeviceRow) no_devices "mic")
load-save_device_example =
    load-save_device (memory DeviceRow) (memory-IsLawful DeviceRow) no_devices with_mic mic (7 ∷ [])
      "mic" plain (λ p. absurd (cc)) mic_saved

abbrev listed : List (Device × List ℕ)
unfolding load_all
listed = elim (load_all (memory DeviceRow) with_mic) [ none ↦ [] | some l ↦ l ]

all_listed : load_all (memory DeviceRow) with_mic ≡ some listed
unfolding load_all listed
all_listed = refl

load_all-save_example :
    GoMap.lookup String_discrete "mic" (map (λ dh. (dh.0.device_id, dh)) listed) ≡ (
      if same "mic" "mic"
      then some (kept mic, 7 ∷ [])
      else load (memory DeviceRow) no_devices "mic")
load_all-save_example =
    load_all-save (memory DeviceRow) (memory-IsLawful DeviceRow) no_devices with_mic mic (7 ∷ [])
      listed "mic" plain (λ p. absurd (cc)) mic_saved all_listed

abbrev no_rows : List (String × StreamRow)
no_rows = []

abbrev begun : List (String × StreamRow)
unfolding Streams.save
begun = elim (Streams.save (memory StreamRow) no_rows "s1" "mic" "STARTING" "" 0 5000000) [
  | none ↦ []
  | some db ↦ db
]

abbrev done : List (String × StreamRow)
unfolding Streams.save begun
done = elim (Streams.save (memory StreamRow) begun "s1" "mic" "COMPLETE" "" 0 9000000) [
  | none ↦ []
  | some db ↦ db
]

begun_saved :
    Streams.save (memory StreamRow) no_rows "s1" "mic" "STARTING" "" 0 5000000 ≡ some begun
unfolding Streams.save begun
begun_saved = refl

done_saved : Streams.save (memory StreamRow) begun "s1" "mic" "COMPLETE" "" 0 9000000 ≡ some done
unfolding Streams.save begun done
done_saved = refl

nothing_saved : GoMap.lookup String_discrete "s1" no_rows ≡ none
unfolding GoMap.lookup
nothing_saved = refl

save-again_example :
    GoMap.lookup String_discrete "s1" done
    ≡ some (record {
      device_id = "mic";
      ssrc = 0 % 2 ^ 32;
      state = "COMPLETE";
      started_at = if 5000000 == 0 then none else some (5000000 / 1000000);
      reason = "";
    })
save-again_example =
    save-again (memory StreamRow) (memory-IsLawful StreamRow) no_rows begun done "s1" "mic"
      "STARTING" "" "mic" "COMPLETE" "" 0 5000000 0 9000000 nothing_saved begun_saved done_saved

abbrev no_recordings : List (String × RecordingRow)
no_recordings = []

abbrev recording : List (String × RecordingRow)
unfolding create
recording =
    elim (create (memory RecordingRow) no_recordings "s1-rec" "s1" (pos 48000) (pos 2) "wav"
      5000000) [ none ↦ [] | some db ↦ db ]

abbrev between : List Statement
between =
    creates "s2-rec" "s2" (pos 48000) (pos 2) "wav" 6000000
    ∷ finalizes "s3-rec" 7000000 (pos 5) "s3.wav"
    ∷ []

abbrev two_rows : List (String × RecordingRow)
unfolding recording create finalize
two_rows = elim (execute_all (memory RecordingRow) recording between) [ none ↦ [] | some db ↦ db ]

abbrev recorded : List (String × RecordingRow)
unfolding finalize two_rows
recorded = elim (finalize (memory RecordingRow) two_rows "s1-rec" 9000000 (pos 100) "s1.wav") [
  | none ↦ []
  | some db ↦ db
]

created :
    create (memory RecordingRow) no_recordings "s1-rec" "s1" (pos 48000) (pos 2) "wav" 5000000
    ≡ some recording
unfolding create recording GoMap.lookup
created = refl

executed : execute_all (memory RecordingRow) recording between ≡ some two_rows
unfolding two_rows recording create finalize GoMap.lookup GoMap.insert String_discrete
executed = refl

of_others : All (λ st. same (about st) "s1-rec" ≡ false) between
unfolding String_discrete
of_others = (refl, (refl, tt))

finalized :
    finalize (memory RecordingRow) two_rows "s1-rec" 9000000 (pos 100) "s1.wav" ≡ some recorded
unfolding finalize two_rows recording recorded create GoMap.lookup GoMap.insert String_discrete
finalized = refl

create-finalize_example :
    GoMap.lookup String_discrete "s1-rec" recorded
    ≡ some (record {
      stream_id = "s1";
      sample_rate = pos 48000;
      channels = pos 2;
      codec = "wav";
      start_time = some (5000000 / 1000000);
      end_time = some (9000000 / 1000000);
      bytes_stored = pos 100;
      uri = some "s1.wav";
    })
create-finalize_example =
    create-finalize (memory RecordingRow) (memory-IsLawful RecordingRow) no_recordings recording
      two_rows recorded between "s1-rec" "s1" "wav" "s1.wav" (pos 48000) (pos 2) (pos 100) 5000000
      9000000 created executed of_others finalized
