-- ===== src/Audio/PortAudio/Runs.antt =====
-- A device that opens with every valid format, and remembers it.
use libcornrow.Base.{
  ltb, if◌then◌else◌, if_true, if_false, Bool-cases, ◌<◌, ◌≡◌, refl, ap, ◌≢◌, inl, inr, Bool, true,
  false, not, Option, none, some, List, [], ◌∷◌, arith,
}
use libcornrow.Audio.Types.{
  AudioCodec, codec_size, SampleRate, AudioConf, no_conf, conf_of, conf_eq,
}
use libcornrow.Audio.Types.Channels.{stereo}
use libcornrow.Core.Buffer.{blank}
use libcornrow.Audio.PortAudio.{
  StreamParameters, PortAudio, parameters, on_start, on_stop, on_config, on_process, invalid_format,
  int16, float32,
}
use libcornrow.Audio.PortAudio.Laws.{
  is_some, Documented, Event, run, Starts, Matches, run-Matches, start, config, buffer,
}
use libcornrow.Core.Flags.{test_flag}

-- The stream that is open, and whether it is active
abbrev Stream : Type 0
Stream = Option StreamParameters × Bool

abbrev valid : StreamParameters → Bool
valid p = elim p.format [
  | invalid_format ↦ false
  | int16 ↦ ltb 0 p.channels
  | float32 ↦ ltb 0 p.channels
]

abbrev toy : PortAudio Stream
toy = record {
  open_stream = λ p w. (valid p, if valid p then (some p, false) else w);
  start_stream = λ w. (not w.1, (w.0, true));
  stop_stream = λ w. (w.1, (w.0, false));
  close_stream = λ w. (true, (none, false));
  is_open = λ w. is_some w.0;
  write = λ bytes n w. (w.1, w);
}

valid_lem : (p : StreamParameters) → valid p ≡ true → (p.format ≢ invalid_format) × (0 < p.channels)
valid_lem p h = ground arith

toy_open :
    (p : StreamParameters) (w : Stream)
    → (toy.open_stream p w).1.0 ≡ (if (toy.open_stream p w).0 then some p else w.0)
toy_open p w = elim (Bool-cases (valid p)) [ inl good ↦ rw good refl | inr bad ↦ rw bad refl ]

abbrev toy_documented : Documented toy
toy_documented = record {
  current = λ w. w.0;
  active = λ w. w.1;
  is_open_current = λ w. refl;
  open_current = toy_open;
  open_valid = λ p w h. valid_lem p h;
  start_active = λ w h. refl;
  open_fresh = λ p w h. ap (λ (x : Stream). x.1) (if_true _ _ h);
  open_active = λ p w h. ap (λ (x : Stream). x.1) (if_false _ _ h);
  write_active = λ bytes n w. refl;
  start_current = λ w. refl;
  stop_current = λ w. refl;
  stop_works = λ w h act. act;
  close_current = λ w. refl;
  write_current = λ bytes n w. refl;
}

toy_starts : Starts toy toy_documented
toy_starts w up down = ap not down

abbrev cd : AudioConf
cd = conf_of AudioCodec.raw_int16 SampleRate.rate44100 stereo

abbrev events : List Event
events = config cd ∷ start ∷ buffer blank ∷ config (record cd { rate = SampleRate.rate48000 }) ∷ []

reopens :
    run toy events (no_conf, (none, false))
    ≡ some (
      record cd { rate = SampleRate.rate48000 },
      (some (record { channels = 2; format = int16; rate = 48000 }), true),
    )
unfolding run on_start on_stop on_config on_process parameters conf_eq test_flag codec_size
reopens = refl

run-Matches_example :
    (r : AudioConf × Stream) × (run toy events (no_conf, (none, false)) ≡ some r)
    × Matches toy toy_documented r
run-Matches_example =
    run-Matches toy toy_documented toy_starts events (no_conf, (none, false)) (inl refl)
