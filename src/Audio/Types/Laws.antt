-- ===== src/Audio/Types/Laws.antt =====
-- What the formats promise: sizes, counts, equality.
use libcornrow.Base.{◌*◌, ◌≤◌, ◌≡◌, arith}
use libcornrow.Core.Flags.{Flags}
use libcornrow.Audio.Types.{AudioCodec, AudioConf, channel_count, codec_size, frame_size}

pub channel_count-le : (f : Flags) → channel_count f ≤ 6
unfolding channel_count
channel_count-le f = ground arith

pub codec_size-le : (c : AudioCodec) → codec_size c ≤ 4
unfolding codec_size
codec_size-le AudioCodec.invalid = omega arith
codec_size-le _ = omega arith

-- The product of the channel count and the sample size fits its type, and is at most 24.
pub frame_size-mul :
    (c : AudioConf)
    → (frame_size c ≡ channel_count c.channels * codec_size c.codec) × (frame_size c ≤ 24)
unfolding frame_size
frame_size-mul c = grind (arith, channel_count-le c.channels, codec_size-le c.codec)
