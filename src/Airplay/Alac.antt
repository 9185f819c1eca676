-- ===== src/Airplay/Alac.antt =====
-- src/airplay/AlacDecoder.cpp. The ALAC decoder (src/airplay/alac.c) is a parameter.
pub mod Laws
mod Runs
use libcornrow.Base.{
  ◌==◌, if◌then◌else◌, length, drop, Text, ℕ, zero, suc, ◌+◌, Option, none, some, List, [], ◌∷◌,
}
use libcornrow.Audio.Types.{AudioCodec, SampleRate, AudioConf, conf_of}
use libcornrow.Audio.Types.Channels.{stereo}
use libcornrow.Core.Buffer.{Allocator, Buffer, acquire, commit, write_acquired}
use libcornrow.Rtsp.Headers.{Regex, group}
use libcornrow.Audio.Decoder.{stoi, fmtp_pattern}
use mathlib.Core.Option

-- `set_info` gets the numbers of `setinfo_max_samples_per_frame` to `setinfo_8a_rate` in order, and allocates the
-- buffers. `alac_decode_frame` gets what is in the storage from the data on, and gives the bytes that it writes,
-- `outputsize` of them.
pub record Alac (S : Type 0) : Type 0 where
  pub set_info : List ℕ → S → S
  pub alac_decode_frame : List ℕ → S → List ℕ × S

-- `stoi(match[i].str())` for `n` groups from the `i`th on; `none` is an exception.
unfoldable pub numbers_from : List Text → ℕ → ℕ → Option (List ℕ)
unfolding stoi Option.bind
numbers_from gs i zero = some []
numbers_from gs i (suc n) =
    Option.bind (stoi (group gs i)) λ x. Option.map (◌∷◌ x) (numbers_from gs (i + 1) n)

module _ {S : Type 0} (lib : Alac S) where
  -- `init`; a line that does not match leaves the decoder as it is.
  unfoldable pub init : Regex → Text → S → Option S
  unfolding numbers_from
  init rx fmtp s = matched (rx.search fmtp_pattern fmtp)
    where
      matched : Option (List Text × Text) → Option S
      matched none = some s
      matched (some (gs, rest)) =
          if length gs == 13
          then Option.map (λ ns. lib.set_info ns s) (numbers_from gs 2 11)
          else some s

  abbrev pub alac_conf : AudioConf
  alac_conf = conf_of AudioCodec.raw_int16 SampleRate.rate44100 stereo

  -- `onProcess`, where the data is looked up behind `acquire`; `none` if the samples leave the storage.
  unfoldable pub on_process : Allocator → S → Buffer → Option (AudioConf × Buffer × S)
  unfolding acquire write_acquired commit
  on_process a s b =
      let b1 = acquire a 2048 b in
      let (pcm, s') = lib.alac_decode_frame (drop b1.offset b1.buffer) s in
      Option.map (λ c. (alac_conf, c, s'))
        (Option.map (commit (length pcm)) (write_acquired pcm b1))
