-- ===== src/Audio/Types/Channels.antt =====
-- `enum class Channels` of include/coro/audio/AudioTypes.h, as channel flags.
use libcornrow.Core.Flags.{Flags}

abbrev pub invalid : Flags
invalid = 0

abbrev pub mono : Flags
mono = 0x01

abbrev pub stereo : Flags
stereo = 0x02

abbrev pub center : Flags
center = mono

abbrev pub lfe : Flags
lfe = 0x04

abbrev pub rear_stereo : Flags
rear_stereo = 0x08

abbrev pub rear_center : Flags
rear_center = 0x10

abbrev pub quad : Flags
quad = 0x0a

abbrev pub surround50 : Flags
surround50 = 0x0b

abbrev pub surround51 : Flags
surround51 = 0x0f
