-- ===== src/Audio/Types.antt =====
-- include/coro/audio/AudioTypes.h, src/audio/AudioTypes.cpp, AudioConf.h and AudioConf.cpp.
-- An enumeration is a data type, with the number of each enumerator; no value outside the
-- enumerators is modelled.
pub mod Channels
pub mod Laws
use libcornrow.Base.{ℕ, ◌+◌, ◌*◌, ◌%◌, ◌^◌, Bool, true, false, not, ◌&&◌, ◌==◌, if◌then◌else◌}
use libcornrow.Core.Flags.{Flags, test_flag}

pub data AudioCodec : Type 0 where
  invalid raw_int16 raw_float32 sbc aac mp3 ac3 eac3 aptx alac wav rtp_payload unknown : AudioCodec

abbrev pub codec_value : AudioCodec → ℕ
codec_value AudioCodec.invalid = 0
codec_value AudioCodec.raw_int16 = 0x1
codec_value AudioCodec.raw_float32 = 0x2
codec_value AudioCodec.sbc = 0x4
codec_value AudioCodec.aac = 0x8
codec_value AudioCodec.mp3 = 0x10
codec_value AudioCodec.ac3 = 0x20
codec_value AudioCodec.eac3 = 0x40
codec_value AudioCodec.aptx = 0x80
codec_value AudioCodec.alac = 0x100
codec_value AudioCodec.wav = 0x200
codec_value AudioCodec.rtp_payload = 0x8000
codec_value AudioCodec.unknown = 0x4000

-- `uint8_t size(AudioCodec codec)`
unfoldable pub codec_size : AudioCodec → ℕ
codec_size AudioCodec.invalid = 0
codec_size AudioCodec.raw_float32 = 4
codec_size _ = 2

pub data SampleRate : Type 0 where
  invalid rate_unknown rate32000 rate44100 rate48000 rate96000 rate192000 : SampleRate

abbrev pub rate_value : SampleRate → ℕ
rate_value SampleRate.invalid = 0
rate_value SampleRate.rate_unknown = 0x01
rate_value SampleRate.rate32000 = 0x02
rate_value SampleRate.rate44100 = 0x04
rate_value SampleRate.rate48000 = 0x08
rate_value SampleRate.rate96000 = 0x20
rate_value SampleRate.rate192000 = 0x80

-- `uint32_t toInt(SampleRate rate)`
unfoldable pub rate_to_int : SampleRate → ℕ
rate_to_int SampleRate.invalid = 0
rate_to_int SampleRate.rate_unknown = 0
rate_to_int SampleRate.rate32000 = 32000
rate_to_int SampleRate.rate44100 = 44100
rate_to_int SampleRate.rate48000 = 48000
rate_to_int SampleRate.rate96000 = 96000
rate_to_int SampleRate.rate192000 = 192000

-- `uint8_t toInt(ChannelFlags channels)`: the sum is at most 6, so the narrowing keeps it.
unfoldable pub channel_count : Flags → ℕ
channel_count channels =
    (if test_flag channels Channels.mono then 1 else 0)
    + (if test_flag channels Channels.stereo then 2 else 0)
    + (if test_flag channels Channels.lfe then 1 else 0)
    + (if test_flag channels Channels.rear_stereo then 2 else 0)

pub record AudioConf : Type 0 where
  pub codec : AudioCodec
  pub rate : SampleRate
  pub channels : Flags
  pub is_rtp_payloaded : Bool

-- `AudioConf {}`
abbrev pub no_conf : AudioConf
no_conf = record {
  codec = AudioCodec.invalid;
  rate = SampleRate.invalid;
  channels = 0;
  is_rtp_payloaded = false;
}

-- `{ codec, rate, channels }`
abbrev pub conf_of : AudioCodec → SampleRate → Flags → AudioConf
conf_of c r ch = record { codec = c; rate = r; channels = ch; is_rtp_payloaded = false }

unfoldable pub frame_size : AudioConf → ℕ
frame_size c = channel_count c.channels * codec_size c.codec % 2 ^ 32

abbrev pub bool_eq : Bool → Bool → Bool
bool_eq true b = b
bool_eq false b = not b

abbrev pub codec_eq : AudioCodec → AudioCodec → Bool
codec_eq a b = codec_value a == codec_value b

abbrev pub rate_eq : SampleRate → SampleRate → Bool
rate_eq a b = rate_value a == rate_value b

unfoldable pub conf_eq : AudioConf → AudioConf → Bool
conf_eq a b =
    codec_eq a.codec b.codec
    && rate_eq a.rate b.rate
    && (a.channels == b.channels)
    && bool_eq a.is_rtp_payloaded b.is_rtp_payloaded
