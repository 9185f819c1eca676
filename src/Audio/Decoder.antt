-- ===== src/Audio/Decoder.antt =====
-- src/audio/AudioDecoderFfmpeg.cpp. libav is a parameter. Numbers in memory are little-endian.
pub mod Laws
mod Runs
use libcornrow.Base.{
  ltb, ◌==◌, if◌then◌else◌, length, replicate, slice, Text, codes, ℕ, zero, suc, ◌+◌, ◌-◌, ◌*◌, ◌/◌,
  ◌%◌, ◌^◌, Bool, true, false, Option, none, some, List, [], ◌∷◌, ◌++◌,
}
use libcornrow.Audio.Types.{AudioCodec, SampleRate, AudioConf, no_conf, conf_of, conf_eq}
use libcornrow.Audio.Types.Channels.{stereo}
use libcornrow.Core.Buffer.{Allocator, Buffer, contents, acquire, commit, write_acquired, clear}
use libcornrow.Rtsp.Headers.{Regex, group}
use mathlib.Core.Option

pub data SampleFormat : Type 0 where
  fltp s16p other_format : SampleFormat

pub record DecodedFrame : Type 0 where
  pub format : SampleFormat
  pub sample_rate : ℕ
  pub nb_channels : ℕ
  pub nb_samples : ℕ
  -- `linesize[0]`, the bytes of a plane with its padding
  pub linesize : ℕ
  pub plane : ℕ → List ℕ

pub data DecoderId : Type 0 where
  none_id ac3_id alac_id : DecoderId

-- `open_codec` gets the codec and the extra data. `receive_frame` is a blank frame, of another format, if there is no
-- frame.
pub record LibavDecoder (W : Type 0) : Type 0 where
  pub open_codec : DecoderId → List ℕ → W → W
  pub send_packet : List ℕ → W → W
  pub receive_frame : W → DecodedFrame × W

pub record AudioDecoder : Type 0 where
  pub codec_data : List ℕ
  pub conf : AudioConf
  pub is_open : Bool

abbrev pub new_decoder : AudioDecoder
new_decoder = record { codec_data = []; conf = no_conf; is_open = false }

unfoldable pub to_decoder_id : AudioCodec → DecoderId
to_decoder_id AudioCodec.ac3 = DecoderId.ac3_id
to_decoder_id AudioCodec.alac = DecoderId.alac_id
to_decoder_id _ = DecoderId.none_id

unfoldable pub to_coro : ℕ → SampleRate
to_coro n =
    if n == 44100
    then SampleRate.rate44100
    else if n == 48000
    then SampleRate.rate48000
    else SampleRate.invalid

abbrev digits : ℕ → Text → ℕ
digits acc [] = acc
digits acc (c ∷ s) = digits (10 * acc + (c - b'0')) s

-- `stoi` of a text of digits; it throws if the number is no `int`.
unfoldable pub stoi : Text → Option ℕ
stoi s = let n = digits 0 s in if ltb n (2 ^ 31) then some n else none

abbrev pub fmtp_pattern : Text
fmtp_pattern =
    codes "(\\d+) (\\d+) (\\d+) (\\d+) (\\d+) (\\d+) (\\d+) (\\d+) (\\d+) (\\d+) (\\d+) (\\d+)"

-- `htonl`, as bytes in memory
abbrev pub network_bytes : ℕ → List ℕ
network_bytes n = n / 2 ^ 24 % 256 ∷ n / 2 ^ 16 % 256 ∷ n / 2 ^ 8 % 256 ∷ n % 256 ∷ []

-- `QuicktimeAtom`, as bytes in memory
unfoldable pub quicktime_atom : ℕ → ℕ → ℕ → ℕ → List ℕ
quicktime_atom samples_per_frame sample_size channels samplerate =
    (36 ∷ 0 ∷ 0 ∷ 0 ∷ [])
    ++ replicate 8 0
    ++ network_bytes samples_per_frame
    ++ (0 ∷ sample_size % 256 ∷ 40 ∷ 10 ∷ 14 ∷ channels % 256 ∷ 255 ∷ 0 ∷ [])
    ++ replicate 8 0
    ++ network_bytes samplerate

-- `init` of the decoder for ALAC; `none` if the line does not match, since bytes of the atom are
-- uninitialized then, or if a number is too large.
unfoldable pub init_alac : Regex → Text → AudioDecoder → Option AudioDecoder
unfolding stoi quicktime_atom Option.bind
init_alac rx line s = matched (rx.search fmtp_pattern line)
  where
    matched : Option (List Text × Text) → Option AudioDecoder
    matched none = none
    matched (some (gs, rest)) =
        let atom = Option.bind (stoi (group gs 2)) λ samples.
          Option.bind (stoi (group gs 4)) λ size. Option.bind (stoi (group gs 8)) λ channels.
            Option.map (λ rate. record s { codec_data = quicktime_atom samples size channels rate })
              (stoi (group gs 12)) in
        if length gs == 13 then atom else none

-- `init` of the decoder for other codecs
unfoldable pub init_data : List ℕ → AudioDecoder → AudioDecoder
init_data bytes s = record s { codec_data = bytes }

-- The loops of `interleave` for samples of `size` bytes: over the channels, and over the samples.
unfoldable pub interleave_channels : ℕ → ℕ → (ℕ → List ℕ) → ℕ → List ℕ
interleave_channels size s plane zero = []
interleave_channels size s plane (suc c) =
    interleave_channels size s plane c ++ slice (s * size) size (plane c)

unfoldable pub interleave_samples : ℕ → ℕ → (ℕ → List ℕ) → ℕ → List ℕ
unfolding interleave_channels
interleave_samples size channels plane zero = []
interleave_samples size channels plane (suc s) =
    interleave_samples size channels plane s ++ interleave_channels size s plane channels

-- Samples are written one behind the other; `commit` takes all of the acquired region.
unfoldable pub interleave : Allocator → ℕ → DecodedFrame → Buffer → Option Buffer
unfolding interleave_samples acquire write_acquired commit
interleave a size f b = Option.map (commit (f.linesize * f.nb_channels)) (
    write_acquired (interleave_samples size f.nb_channels f.plane f.nb_samples)
      (acquire a (f.linesize * f.nb_channels) b))

-- `{ codec, toCoro(frame->sample_rate), Stereo }`
abbrev pub frame_conf : AudioCodec → DecodedFrame → AudioConf
frame_conf c f = conf_of c (to_coro f.sample_rate) stereo

-- The frame in the buffer, with its format
unfoldable pub take_format : Allocator → DecodedFrame → Buffer → SampleFormat → Option Buffer
unfolding interleave to_coro clear
take_format a f b SampleFormat.fltp =
    Option.map (λ (c : Buffer). record c { audio_conf = frame_conf AudioCodec.raw_float32 f })
      (interleave a 4 f b)
take_format a f b SampleFormat.s16p =
    Option.map (λ (c : Buffer). record c { audio_conf = frame_conf AudioCodec.raw_int16 f })
      (interleave a 2 f b)
take_format a f b SampleFormat.other_format = some (record (clear b) { audio_conf = no_conf })

unfoldable pub take_frame : Allocator → DecodedFrame → Buffer → Option Buffer
unfolding take_format
take_frame a f b = take_format a f b f.format

module _ {W : Type 0} (av : LibavDecoder W) (a : Allocator) where
  unfoldable pub update_conf : AudioDecoder → W → AudioDecoder × W
  unfolding to_decoder_id
  update_conf s w =
      (record s { is_open = true }, av.open_codec (to_decoder_id s.conf.codec) s.codec_data w)

  -- `onProcess`; `none` where it uses a context that is not there, or writes out of the storage.
  unfoldable pub on_process : AudioDecoder → Buffer → W → Option (AudioDecoder × Buffer × W)
  unfolding update_conf take_frame
  on_process s b w =
      let (s', w') =
        if conf_eq s.conf b.audio_conf
        then (s, w)
        else update_conf (record s { conf = b.audio_conf }) w in
      let (f, w'') = av.receive_frame (av.send_packet (contents b) w') in
      if s'.is_open then Option.map (λ c. (s', c, w'')) (take_frame a f b) else none
