-- ===== src/Audio/Encoder.antt =====
-- src/audio/AudioEncoderFfmpeg.cpp. libav is a parameter. The planes of a frame are disjoint parts of one
-- block: a slot is one sample of one plane. No buffer of 2 GB or more is modelled, so the casts to
-- `int` keep their values; the logging is left out. `onProcess` is `none` where its assertion fails.
pub mod Frames
pub mod Filled
pub mod Process
pub mod Packets
mod Runs
use libcornrow.Base.{
  ◌==◌, if◌then◌else◌, length, drop, slice, ℕ, zero, suc, ◌+◌, ◌-◌, ◌*◌, ◌/◌, min, bit_or, Bool,
  true, false, not, ◌&&◌, ◌||◌, Option, none, some, List, [], ◌∷◌,
}
use libcornrow.Audio.Types.{AudioCodec, rate_to_int, AudioConf, no_conf, conf_eq}
use libcornrow.Audio.Types.Channels.{stereo, center, lfe, rear_stereo}
use libcornrow.Core.Flags.{Flags, and_flags, is_empty}
use libcornrow.Core.Buffer.{Allocator, Buffer, new_buffer, contents, trim_front}
use libcornrow.Core.Buffer.Contents.{produce}
use libcornrow.Core.Node.{Node, process_conf}
use mathlib.Core.Option

-- What `AVCodecContext` tells: samples in a frame, channels, and bytes in a sample.
pub record Context : Type 0 where
  pub frame_size : ℕ
  pub nb_channels : ℕ
  pub sample_size : ℕ

pub record AvFrame : Type 0 where
  pub nb_samples : ℕ
  pub slot : ℕ → ℕ → List ℕ

pub data AvCodecId : Type 0 where
  none_id ac3_id eac3_id : AvCodecId

-- The speakers that `Channels` are mapped to, as bits of a mask
pub record Speakers : Type 0 where
  pub front_pair : ℕ
  pub back_pair : ℕ
  pub front_center : ℕ
  pub low_frequency : ℕ

-- `open_codec`: codec, channel mask, rate, bits per second. `receive_packet` is the packet's bytes, none if
-- there is no packet.
pub record Libav (W : Type 0) : Type 0 where
  pub speakers : Speakers
  pub open_codec : AvCodecId → ℕ → ℕ → ℕ → W → Context × W
  pub send_frame : Option AvFrame → W → W
  pub receive_packet : W → List ℕ × W

pub record AudioEncoder : Type 0 where
  pub codec : AudioCodec
  pub conf : AudioConf
  pub bitrate_kbps : ℕ
  pub context : Option Context
  pub partial_frame : Option AvFrame

unfoldable pub to_ffmpeg_codec_id : AudioCodec → AvCodecId
to_ffmpeg_codec_id AudioCodec.ac3 = AvCodecId.ac3_id
to_ffmpeg_codec_id AudioCodec.eac3 = AvCodecId.eac3_id
to_ffmpeg_codec_id _ = AvCodecId.none_id

abbrev pub new_encoder : AudioCodec → AudioEncoder
new_encoder c = record {
  codec = c;
  conf = no_conf;
  bitrate_kbps = 320;
  context = none;
  partial_frame = none;
}

unfoldable pub set_bitrate : ℕ → AudioEncoder → AudioEncoder
set_bitrate kbps e = record e { bitrate_kbps = kbps }

-- `m_conf.channels & c`, as a condition
abbrev has_channel : AudioConf → Flags → Bool
has_channel conf c = not (is_empty (and_flags conf.channels c))

unfoldable pub channel_layout : Speakers → AudioConf → ℕ
channel_layout s conf =
    bit_or
      (bit_or
        (bit_or (if has_channel conf stereo then s.front_pair else 0)
          (if has_channel conf rear_stereo then s.back_pair else 0))
        (if has_channel conf center then s.front_center else 0))
      (if has_channel conf lfe then s.low_frequency else 0)

unfoldable pub create_frame : AvFrame
create_frame = record { nb_samples = 0; slot = λ plane i. [] }

unfoldable pub write_slot : ℕ → ℕ → List ℕ → AvFrame → AvFrame
write_slot plane i bytes f = record f {
  slot = λ p k. if (p == plane) && (k == i) then bytes else f.slot p k;
}

-- The loops of `fillFrame`: over the channels, at sample `i`, and over the samples.
unfoldable pub fill_channels : ℕ → ℕ → ℕ → List ℕ → AvFrame → AvFrame
unfolding write_slot
fill_channels sample_size i zero idata f = f
fill_channels sample_size i (suc j) idata f =
    write_slot j i (slice (j * sample_size) sample_size idata)
      (fill_channels sample_size i j idata f)

unfoldable pub fill_samples : Context → ℕ → ℕ → List ℕ → AvFrame → AvFrame
unfolding fill_channels
fill_samples c zero i idata f = f
fill_samples c (suc k) i idata f =
    fill_samples c k (suc i) (drop (c.nb_channels * c.sample_size) idata)
      (fill_channels c.sample_size i c.nb_channels idata f)

unfoldable pub samples_to_fill : Context → AvFrame → Buffer → ℕ
samples_to_fill c f b = min (c.frame_size - f.nb_samples) (b.size / c.nb_channels / c.sample_size)

-- The Boolean says that the frame is returned, and not null.
unfoldable pub fill_frame : Context → AvFrame → Buffer → Bool × AvFrame × Buffer
unfolding fill_samples samples_to_fill trim_front
fill_frame c f b =
    let n = samples_to_fill c f b in
    let filled = record (fill_samples c n f.nb_samples (contents b) f) {
      nb_samples = f.nb_samples + n;
    } in
    if (c.sample_size == 2) || (c.sample_size == 4)
    then (
      filled.nb_samples == c.frame_size,
      filled,
      trim_front (n * c.sample_size * c.nb_channels) b,
    )
    else (false, f, b)

module _ {W : Type 0} (av : Libav W) (a : Allocator) where
  unfoldable pub update_conf : AudioEncoder → W → AudioEncoder × W
  unfolding to_ffmpeg_codec_id channel_layout rate_to_int
  update_conf e w =
      let (c, w') =
        av.open_codec (to_ffmpeg_codec_id e.codec) (channel_layout av.speakers e.conf)
          (rate_to_int e.conf.rate) (e.bitrate_kbps * 1000) w in
      (record e { context = some c; partial_frame = none }, w')

  -- The packet goes to the next node that is not bypassed.
  unfoldable pub hand_packet : List (Node W) → AudioConf → Buffer → W → W
  unfolding process_conf
  hand_packet [] conf b w = w
  hand_packet (n ∷ rest) conf b w =
      let skipped = hand_packet rest conf b w in
      let (_, _, w') = process_conf n rest conf b w in if n.is_bypassed then skipped else w'

  unfoldable pub push_frame : List (Node W) → AudioConf → AvFrame → W → Option W
  unfolding produce hand_packet
  push_frame next conf f w =
      let (packet, w') = av.receive_packet (av.send_frame (some f) w) in
      Option.map (λ b. hand_packet next (record conf { codec = AudioCodec.ac3 }) b w')
        (produce a (length packet) packet (new_buffer a 16332))

  module _ (next : List (Node W)) where
    -- The loop over whole frames, on fuel: the frame that stays partial, and the rest of the buffer
    unfoldable pub after_fill :
        AudioConf
        → Bool × AvFrame × Buffer
        → W
        → (Buffer → W → Option (AvFrame × Buffer × W))
        → Option (AvFrame × Buffer × W)
    unfolding push_frame Option.bind
    after_fill conf (true, f, b) w more = Option.bind (push_frame next conf f w) λ w'. more b w'
    after_fill conf (false, f, b) w more = some (f, b, w)

    unfoldable pub fill_frames :
        Context → AudioConf → ℕ → AvFrame → Buffer → W → Option (AvFrame × Buffer × W)
    unfolding after_fill fill_frame create_frame
    fill_frames c conf zero f b w = none
    fill_frames c conf (suc fuel) f b w =
        after_fill conf (fill_frame c f b) w (λ b' w'. fill_frames c conf fuel create_frame b' w')

    -- 0. An empty buffer flushes the encoder.
    unfoldable pub flush : AudioEncoder → Buffer → W → Option (AudioEncoder × W)
    unfolding push_frame
    flush e b w = if b.size == 0 then flushed e.partial_frame else some (e, w)
      where
        flushed : Option AvFrame → Option (AudioEncoder × W)
        flushed none = some (e, av.send_frame none w)
        flushed (some f) =
            Option.map (λ w'. (record e { partial_frame = none }, av.send_frame none w'))
              (push_frame next e.conf f w)

    -- The assertion at the end of `onProcess`, and what it leaves
    unfoldable pub assert_empty :
        AudioEncoder → AvFrame × Buffer × W → Option (AudioEncoder × Buffer × W)
    assert_empty e (f, b, w) =
        if b.size == 0 then some (record e { partial_frame = some f }, b, w) else none

    -- 2. Frames until the buffer is empty
    unfoldable pub whole_frames :
        Context → AudioEncoder → Buffer → W → Option (AudioEncoder × Buffer × W)
    unfolding fill_frames create_frame assert_empty Option.bind
    whole_frames c e b w =
        Option.bind (fill_frames c e.conf (suc (suc b.size)) create_frame b w) (assert_empty e)

    -- 1. The partial frame first
    unfoldable pub after_partial :
        Context → AudioEncoder → Bool × AvFrame × Buffer → W → Option (AudioEncoder × Buffer × W)
    unfolding whole_frames push_frame Option.bind
    after_partial c e (true, f, b) w =
        Option.bind (push_frame next e.conf f w)
          λ w'. whole_frames c (record e { partial_frame = none }) b w'
    after_partial c e (false, f, b) w = some (record e { partial_frame = some f }, b, w)

    unfoldable pub complete_partial :
        Context → AudioEncoder → Buffer → W → Option (AudioEncoder × Buffer × W)
    unfolding after_partial whole_frames fill_frame
    complete_partial c e b w = with_partial e.partial_frame
      where
        with_partial : Option AvFrame → Option (AudioEncoder × Buffer × W)
        with_partial none = whole_frames c e b w
        with_partial (some f) = after_partial c e (fill_frame c f b) w

    -- `onProcess`; `none` also where it uses a context that is not there
    unfoldable pub on_process :
        AudioConf → AudioEncoder → Buffer → W → Option (AudioEncoder × AudioConf × Buffer × W)
    unfolding update_conf flush complete_partial Option.bind
    on_process conf e b w =
        let (e', w') =
          if conf_eq e.conf conf then (e, w) else update_conf (record e { conf = conf }) w in
        Option.bind e'.context λ c. Option.bind (flush e' b w') λ r.
          Option.map (λ (s : AudioEncoder × Buffer × W). (s.0, conf, s.1, s.2))
            (complete_partial c r.0 b r.1)

-- `onStop` of the encoder, which is the node `n` in front of `rest`: an empty buffer is processed.
unfoldable pub on_stop : {W : Type 0} → Allocator → Node W → List (Node W) → AudioConf → W → W
unfolding process_conf new_buffer
on_stop a n rest conf w = let (_, _, w') = process_conf n rest conf (new_buffer a 0) w in w'
