-- ===== src/Server/Steps.antt =====
-- The histories of a server: its handlers in any order, as the goroutines of the source interleave
-- them. A wait of StartStream or StopStream lies between two steps, so anything may happen in it.
-- Each handler part is one step, though the source holds no lock across it.
pub mod Ownership
pub mod Changes
pub mod Starts
pub mod Stops
pub mod Visits
pub mod Owned
pub mod Silence
use espmic.Common.{ℕ, ◌≡◌, Bool, Option, String, List}
use espmic.Control.Messages.{Message}
use espmic.Rtp.Jitter.{Float64}
use espmic.Rtp.Packet.{PionPacket}
use espmic.Server.State.{Server}
use espmic.Server.Start.{RecordingConfig, begin_start, conclude_start}
use espmic.Server.Stop.{begin_stop, conclude_stop}
use espmic.Server.Traffic.{receive_datagram, tick, on_device_disconnect}

module _ {F : Type 0} (fl : Float64 F) (unmarshal : List ℕ → Option PionPacket) where
  pub data Step : Server F → Server F → Type 0 where
    starts :
        (s : Server F) (finish : String → Option (String × ℕ)) (send : ℕ → Message → Bool) (now : ℕ)
        (local_ip : Option String) (split_host : String → Option String) (listen : ℕ → Option ℕ)
        (device id request_id : String)
        → Step s
            (begin_start fl finish send now local_ip split_host listen s device id request_id).0
    start_ends :
        (s : Server F) (now began : ℕ) (rec : RecordingConfig) (wav_made opus_made : Bool)
        (id device : String) (port : ℕ) (reply : Option Message)
        → Step s (conclude_start now began rec wav_made opus_made s id device port reply).0
    stops :
        (s : Server F) (finish : String → Option (String × ℕ)) (now : ℕ) (send : ℕ → Message → Bool)
        (id request_id : String)
        → Step s (begin_stop finish now send s id request_id).0
    stop_ends :
        (s : Server F) (finish : String → Option (String × ℕ)) (now : ℕ) (id device : String)
        (reply : Option Message)
        → Step s (conclude_stop finish now s id device reply).0
    hears :
        (s : Server F) (id : String) (raw : List ℕ) (now : ℕ)
        → Step s (receive_datagram fl unmarshal s id raw now).0
    ticks :
        (s : Server F) (finish : String → Option (String × ℕ)) (now : ℕ)
        → Step s (tick finish now fl s)
    hangs_up :
        (s : Server F) (finish : String → Option (String × ℕ)) (now : ℕ) (device : String)
        → Step s (on_device_disconnect finish now s device)
    -- What other parts do: sessions, commands, devices.
    elsewhere : (s t : Server F) → t.stream ≡ s.stream → t.rtp ≡ s.rtp → Step s t

  pub data Reach (s : Server F) : Server F → Type 0 where
    here : Reach s s
    then_step : {t u : Server F} → Reach s t → Step t u → Reach s u
