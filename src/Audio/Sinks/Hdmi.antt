-- ===== src/Audio/Sinks/Hdmi.antt =====
-- src/pi/PiHdmiAudioSink.cpp. The audioplay functions, a library's in src/pi, are a parameter on a state `W`.
use libcornrow.Base.{
  ltb, leb, ◌==◌, if◌then◌else◌, length, ℕ, zero, suc, ◌+◌, ◌*◌, ◌/◌, Bool, true, false, not,
  Option, none, some, List,
}
use libcornrow.Core.Buffer.{Buffer, contents}
use libcornrow.Audio.Types.{rate_to_int, channel_count, AudioConf, no_conf, conf_eq}

-- Errors are codes other than 0. `create` gets the rate, the channels and the size of the buffer, and may set the
-- handle; `get_buffer` is `none` while the device has no free buffer, of which `room` is the number of bytes; `sleep` waits for 10 milliseconds.
pub record Audioplay (W : Type 0) : Type 0 where
  pub create : ℕ → ℕ → ℕ → W → ℕ × Option ℕ × W
  pub set_dest : ℕ → W → ℕ × W
  pub delete : ℕ → W → W
  pub get_buffer : ℕ → W → Option ℕ × W
  pub room : ℕ → W → ℕ
  pub get_latency : ℕ → W → ℕ
  pub sleep : W → W
  pub play_buffer : ℕ → ℕ → List ℕ → W → ℕ × W

pub record PiHdmiAudioSink : Type 0 where
  pub handle : Option ℕ
  pub conf : AudioConf

pub data Outcome (A : Type 0) : Type 0 where
  done : A → Outcome A
  -- A copy to the null pointer or behind the device's buffer, a failed assertion, no fuel left
  null_copy overrun assert_failed out_of_fuel : Outcome A

module _ {W : Type 0} (ap : Audioplay W) where
  -- `stop`, which the header declares as `onStop`
  unfoldable pub stop : PiHdmiAudioSink → W → PiHdmiAudioSink × W
  stop s w = elim s.handle [ none ↦ (s, w) | some h ↦ (record s { handle = none }, ap.delete h w) ]

  -- If the configuration changed, close the device.
  unfoldable pub close_changed : AudioConf → PiHdmiAudioSink → W → PiHdmiAudioSink × W
  close_changed new s w = elim s.handle [
    | none ↦ (s, w)
    | some h ↦
        if conf_eq s.conf new then (s, w) else (record { handle = none; conf = new }, ap.delete h w)
  ]

  -- If the device is closed, open it. The flag is false where an empty configuration is returned.
  unfoldable pub open_closed : AudioConf → ℕ → PiHdmiAudioSink → W → Bool × PiHdmiAudioSink × W
  open_closed new size s w =
      let (error, h, w') = ap.create (rate_to_int new.rate) (channel_count new.channels) size w in
      let opened : PiHdmiAudioSink = record { handle = h; conf = new } in
      elim s.handle [
        | some _ ↦ (true, s, w)
        | none ↦ if not (error == 0) then (false, opened, w') else elim h [
          | none ↦ (false, opened, w')
          | some k ↦ let (failed, w'') = ap.set_dest k w' in (failed == 0, opened, w'')
        ]
      ]

  -- Waits until the latency is at most 30 milliseconds; on fuel
  unfoldable pub wait : ℕ → ℕ → ℕ → W → Option W
  wait zero h rate w = none
  wait (suc fuel) h rate w =
      let rest = wait fuel h rate (ap.sleep w) in
      if ltb (rate * (20 + 10) / 1000) (ap.get_latency h w) then rest else some w

  -- The copy, the wait, and the buffer that is played
  unfoldable pub play : ℕ → ℕ → ℕ → List ℕ → W → Outcome W
  unfolding wait
  play fuel h rate bytes w =
      let (free, w') = ap.get_buffer h w in
      elim free [
        | none ↦ null_copy
        | some target ↦
            let played : Outcome W = elim (wait fuel h rate w') [
              | none ↦ out_of_fuel
              | some w'' ↦
                  let (error, w''') = ap.play_buffer h target bytes w'' in
                  if error == 0 then done w''' else assert_failed
            ] in
            if leb (length bytes) (ap.room target w') then played else overrun
      ]

  -- `onProcess`: the configuration that it returns
  unfoldable pub on_process :
      ℕ → AudioConf → Buffer → PiHdmiAudioSink → W → Outcome (AudioConf × PiHdmiAudioSink × W)
  unfolding close_changed open_closed play
  on_process fuel new b s w =
      let (closed, w') = close_changed new s w in
      let (ok, s', w'') = open_closed new b.size closed w' in
      if ok
      then elim s'.handle [
        | none ↦ null_copy
        | some h ↦ elim (play fuel h (rate_to_int s'.conf.rate) (contents b) w'') [
          | done w''' ↦ done (new, s', w''')
          | null_copy ↦ null_copy
          | overrun ↦ overrun
          | assert_failed ↦ assert_failed
          | out_of_fuel ↦ out_of_fuel
        ]
      ]
      else done (no_conf, s', w'')
