-- ===== src/Audio/Caps.antt =====
-- include/coro/audio/AudioCaps.h, and `Cap` of include/coro/core/Caps.h.
pub mod Laws
mod Runs
use libcornrow.Base.{◌==◌, if◌then◌else◌, ℕ, Bool, true, false, not, ◌&&◌, ◌||◌, List, [], ◌∷◌}
use libcornrow.Audio.Types.{AudioCodec, codec_value, raw_int16}
use libcornrow.Core.Flags.{Flags, any, and_flags, is_empty, test_flag}

pub record AudioCap : Type 0 where
  pub codecs : Flags
  pub rates : Flags
  pub channels : Flags
  pub flags : Flags

abbrev rtp_payload_flag : ℕ
rtp_payload_flag = codec_value AudioCodec.rtp_payload

-- `AudioCap::intersect(in, out)`
unfoldable pub intersect : AudioCap → AudioCap → AudioCap
intersect c d =
    if test_flag c.codecs rtp_payload_flag && not (test_flag d.codecs rtp_payload_flag)
    then record { codecs = 0; rates = any; channels = any; flags = 0 }
    else record {
      codecs = and_flags c.codecs d.codecs;
      rates = and_flags c.rates d.rates;
      channels = and_flags c.channels d.channels;
      flags = 0;
    }

unfoldable pub is_valid : AudioCap → Bool
is_valid c = not (is_empty c.codecs) && not (is_empty c.rates) && not (is_empty c.channels)

pub record AudioCapRaw : Type 0 where
  pub rates : Flags
  pub channels : Flags
  pub flags : Flags

unfoldable pub intersect_raw : AudioCapRaw → AudioCapRaw → AudioCapRaw
intersect_raw c d =
    if not (c.flags == d.flags) then record { rates = 0; channels = any; flags = 0 } else record {
      rates = and_flags c.rates d.rates;
      channels = and_flags c.channels d.channels;
      flags = 0;
    }

unfoldable pub is_valid_raw : AudioCapRaw → Bool
is_valid_raw c = not (is_empty c.rates) && not (is_empty c.channels)

pub data Cap : Type 0 where
  any_cap no_cap : Cap
  audio_cap : AudioCap → Cap
  float_cap int16_cap : AudioCapRaw → Cap

-- The tests of one round of `canIntersect`
unfoldable pub fits : Cap → Cap → Bool
unfolding intersect is_valid intersect_raw is_valid_raw
fits Cap.any_cap i = true
fits o Cap.any_cap = true
fits (Cap.audio_cap c) (Cap.audio_cap d) = is_valid (intersect c d)
fits (Cap.float_cap c) (Cap.float_cap d) = is_valid_raw (intersect_raw c d)
fits (Cap.int16_cap c) (Cap.int16_cap d) = is_valid_raw (intersect_raw c d)
fits o i = false

-- The inner loop, over the pairs of a node behind
unfoldable pub fits_any : Cap → List (Cap × Cap) → Bool
unfolding fits
fits_any o [] = false
fits_any o ((i, x) ∷ is) = fits o i || fits_any o is

-- `canIntersect(outCaps, inCaps)`: the second of each pair of `out_caps`, the first of `in_caps`
unfoldable pub can_intersect : List (Cap × Cap) → List (Cap × Cap) → Bool
unfolding fits_any
can_intersect [] in_caps = false
can_intersect ((x, o) ∷ out_caps) in_caps = fits_any o in_caps || can_intersect out_caps in_caps
