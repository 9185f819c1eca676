-- ===== src/Audio/Sinks/Runs.antt =====
-- The file sink, the HDMI sink and the list of devices at concrete inputs.
use libcornrow.Base.{
  length, Text, codes, ℕ, ◌-◌, ◌≡◌, refl, inl, Bool, true, none, some, List, [], ◌∷◌, ◌++◌, map,
}
use libcornrow.Core.Buffer.{Buffer, blank}
use libcornrow.Audio.Types.{
  AudioCodec, codec_size, SampleRate, rate_to_int, channel_count, AudioConf, no_conf, conf_of,
  conf_eq,
}
use libcornrow.Audio.Types.Channels.{stereo}
use libcornrow.Audio.Device.{type_text, type_of_name, audio_device_info, output_devices}
use libcornrow.Audio.Sinks.{
  Disk, new_file_sink, write, on_stop, on_start, set_file_name, on_process,
}
use libcornrow.Audio.Sinks.Recording.{
  Event, step, run, record_run, Held, run-Held, set_name, process,
}
use libcornrow.Audio.Sinks.Hdmi.{Audioplay, done, overrun}
use libcornrow.Audio.Sinks.Hdmi as Hdmi

abbrev of_bytes : List ℕ → Buffer
of_bytes bytes = record blank { buffer = bytes; size = length bytes }

abbrev every_name : Text → Bool
every_name n = true

abbrev empty_disk : Disk
empty_disk n = none

abbrev events : List Event
events =
    set_name (codes "a")
    ∷ process (of_bytes (1 ∷ 2 ∷ []))
    ∷ process (of_bytes (3 ∷ []))
    ∷ set_name (codes "b")
    ∷ process (of_bytes (4 ∷ []))
    ∷ []

-- The first name keeps its three bytes, the second one has what came afterwards.
records :
    map (run every_name events (new_file_sink, empty_disk)).1 (codes "a" ∷ codes "b" ∷ [])
    ≡ some (1 ∷ 2 ∷ 3 ∷ []) ∷ some (4 ∷ []) ∷ []
unfolding run step set_file_name on_process on_start write on_stop
records = refl

run-Held_example :
    Held
      (record_run every_name events (record { name = []; taken = none }))
      (run every_name events (new_file_sink, empty_disk))
run-Held_example =
    run-Held every_name events (record { name = []; taken = none }) (new_file_sink, empty_disk)
      (refl, inl (refl, refl))

-- A device whose latency sinks by 1000 with each sleep; the state is the latency, and what was played.
abbrev hdmi : Audioplay (ℕ × List ℕ)
hdmi = record {
  create = λ rate channels size w. (0, some 5, w);
  set_dest = λ h w. (0, w);
  delete = λ h w. w;
  get_buffer = λ h w. (some 9, w);
  room = λ target w. 2;
  get_latency = λ h w. w.0;
  sleep = λ w. (w.0 - 1000, w.1);
  play_buffer = λ h target bytes w. (0, (w.0, bytes ++ w.1));
}

abbrev cd : AudioConf
cd = conf_of AudioCodec.raw_int16 SampleRate.rate44100 stereo

hdmi_run :
    Hdmi.on_process hdmi 3 cd
      (of_bytes (1 ∷ 2 ∷ []))
      (record { handle = none; conf = no_conf })
      (3000, [])
    ≡ done (cd, record { handle = some 5; conf = cd }, (1000, 1 ∷ 2 ∷ []))
unfolding Hdmi.on_process Hdmi.close_changed Hdmi.open_closed Hdmi.play Hdmi.wait rate_to_int
    channel_count
hdmi_run = refl

-- The device's buffers have room for the first buffer; a larger one of the same configuration is copied past their end.
hdmi_overruns :
    Hdmi.on_process hdmi 3 cd
      (of_bytes (1 ∷ 2 ∷ 3 ∷ 4 ∷ []))
      (record { handle = some 5; conf = cd })
      (0, [])
    ≡ overrun
unfolding Hdmi.on_process Hdmi.close_changed Hdmi.open_closed Hdmi.play Hdmi.wait conf_eq codec_size
hdmi_overruns = refl

devices_run :
    map {B = ℕ × Text}
      (λ i. (i.max_channels, type_text i.device_type))
      (output_devices ((codes "hdmi:0", 65544) ∷ (codes "mic", 0) ∷ (codes "spdif", 2) ∷ []))
    ≡ (8, codes "HDMI") ∷ (2, codes "SPDIF") ∷ []
unfolding output_devices audio_device_info type_of_name type_text
devices_run = refl
