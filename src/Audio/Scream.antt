-- ===== src/Audio/Scream.antt =====
-- src/audio/ScreamSource.cpp, a UdpSource. Bit-fields are laid out from the low bit up.
pub mod Laws
mod Runs
use libcornrow.Base.{◌==◌, if◌then◌else◌, ℕ, ◌+◌, ◌*◌, ◌/◌, ◌%◌, Bool, not, ◌&&◌, Option, List, ◌∷◌}
use libcornrow.Audio.Types.{AudioCodec, SampleRate, AudioConf, no_conf, conf_of}
use libcornrow.Audio.Types.Channels.{stereo}
use libcornrow.Core.Buffer.{Allocator, Buffer, contents, clear, trim_front}
use libcornrow.Core.Node.{Buffers}
use libcornrow.Core.Selector.{System}
use libcornrow.Core.Udp.{UdpSource, Config, new_udp_source}

-- The first three bytes; the channel mask is never read.
pub record ScreamHeader : Type 0 where
  pub rate_multiplier : ℕ
  pub base_rate : ℕ
  pub sample_size : ℕ
  pub channel_count : ℕ

abbrev pub scream_header_of : List ℕ → ScreamHeader
scream_header_of (a ∷ b ∷ c ∷ rest) = record {
  rate_multiplier = a % 128;
  base_rate = a / 128 % 2;
  sample_size = b;
  channel_count = c;
}
scream_header_of _ = record {
  rate_multiplier = 0;
  base_rate = 0;
  sample_size = 0;
  channel_count = 0;
}

unfoldable pub is_valid_scream : ScreamHeader → Bool
is_valid_scream h = (h.rate_multiplier == 1) && (h.sample_size == 16) && (h.channel_count == 2)

-- The padding and the MTU that the constructor gives to UdpSource
abbrev pub scream_padding : ℕ
scream_padding = 3

abbrev pub scream_mtu : ℕ
scream_mtu = 5 + 1152 * 7

-- `address_v4::from_string("239.255.77.77").to_uint()`
abbrev pub scream_group : ℕ
scream_group = ((239 * 256 + 255) * 256 + 77) * 256 + 77

abbrev pub scream_config : Config
scream_config = record {
  port = 4010;
  pre_padding = scream_padding;
  mtu = scream_mtu;
  multicast_group = scream_group;
}

-- `ScreamSource::ScreamSource`
unfoldable pub new_scream_source :
    {W : Type 0}
    → Buffers W
    → Allocator
    → ℕ
    → (binds joins : Bool) → System W
    → Option (UdpSource × System W)
unfolding new_udp_source
new_scream_source pool a me binds joins sys = new_udp_source pool a me binds joins scream_config sys

abbrev pub scream_conf : ScreamHeader → AudioConf
scream_conf h =
    conf_of AudioCodec.raw_int16
      (if h.base_rate == 0 then SampleRate.rate48000 else SampleRate.rate44100) stereo

unfoldable pub on_process : Buffer → AudioConf × Buffer
unfolding is_valid_scream clear trim_front
on_process b =
    let h = scream_header_of (contents b) in
    if not (b.size == 5 + 1152)
    then (no_conf, clear b)
    else if not (is_valid_scream h)
    then (no_conf, clear b)
    else (scream_conf h, trim_front 5 b)
