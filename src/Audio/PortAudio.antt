-- ===== src/Audio/PortAudio.antt =====
-- src/audio/PortAudioSink.cpp. PortAudio is a parameter; what throws in C++ gives `false`. The device, the latency and
-- the 256 frames for each buffer are fixed and left out.
pub mod Laws
mod Runs
use libcornrow.Base.{◌==◌, if◌then◌else◌, ℕ, ◌/◌, Bool, not, Option, none, some, List}
use libcornrow.Audio.Types.{AudioCodec, rate_to_int, channel_count, AudioConf, frame_size, conf_eq}
use libcornrow.Core.Buffer.{Buffer, contents}

pub data SampleDataFormat : Type 0 where
  invalid_format int16 float32 : SampleDataFormat

pub record StreamParameters : Type 0 where
  pub channels : ℕ
  pub format : SampleDataFormat
  pub rate : ℕ

-- `write` gets the data and the number of frames to take from it.
pub record PortAudio (W : Type 0) : Type 0 where
  pub open_stream : StreamParameters → W → Bool × W
  pub start_stream : W → Bool × W
  pub stop_stream : W → Bool × W
  pub close_stream : W → Bool × W
  pub is_open : W → Bool
  pub write : List ℕ → ℕ → W → Bool × W

unfoldable pub sample_format : AudioCodec → SampleDataFormat
sample_format AudioCodec.raw_int16 = int16
sample_format AudioCodec.raw_float32 = float32
sample_format _ = invalid_format

unfoldable pub parameters : AudioConf → StreamParameters
unfolding sample_format channel_count rate_to_int
parameters c = record {
  channels = channel_count c.channels;
  format = sample_format c.codec;
  rate = rate_to_int c.rate;
}

module _ {W : Type 0} (pa : PortAudio W) where
  -- The configuration of the sink is its only state beside the stream.
  unfoldable pub on_start : AudioConf → W → W
  unfolding parameters
  on_start conf w =
      let (opened, w') = pa.open_stream (parameters conf) w in
      if opened then (pa.start_stream w').1 else w'

  unfoldable pub on_stop : W → W
  on_stop w =
      let (stopped, w') = pa.stop_stream w in
      if not (pa.is_open w) then w else if stopped then (pa.close_stream w').1 else w'

  unfoldable pub on_config : AudioConf → AudioConf → W → AudioConf × W
  on_config new conf w =
      if conf_eq conf new
      then (conf, w)
      else if pa.is_open w
      then (new, on_start new (on_stop w))
      else (new, w)

  -- `none` is the division by a frame size of 0.
  unfoldable pub on_process : Buffer → AudioConf → W → Option W
  unfolding frame_size
  on_process b conf w =
      let written = (pa.write (contents b) (b.size / frame_size conf) w).1 in
      if not (pa.is_open w) then some w else if frame_size conf == 0 then none else some written
