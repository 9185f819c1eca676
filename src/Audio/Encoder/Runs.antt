-- ===== src/Audio/Encoder/Runs.antt =====
-- An encoder of frames of two samples, two channels and two bytes, and the theorems at it.
use libcornrow.Base.{ℕ, suc, ◌≡◌, refl, false, some, [], ◌∷◌, arith}
use libcornrow.Audio.Types.{AudioCodec, SampleRate, AudioConf, conf_of, conf_eq}
use libcornrow.Audio.Encoder.{
  Context, AvFrame, Libav, AudioEncoder, new_encoder, fill_frame, on_process, on_stop,
}
use libcornrow.Audio.Encoder.Frames.{rows, interleaved, IsUsable}
use libcornrow.Audio.Encoder.Process.{Processed, on_process-Processed}
use libcornrow.Audio.Encoder.Packets.{on_stop_keeps}
use libcornrow.Core.Buffer.{Allocator, Buffer, blank}
use libcornrow.Core.Buffer.Bounds.{IsSound}
use libcornrow.Core.Node.{Node}

abbrev exact : Allocator
exact = record { growth = λ c n. n; growth_enough = λ c n. omega arith }

abbrev toy_context : Context
toy_context = record { frame_size = 2; nb_channels = 2; sample_size = 2 }

-- It counts the frames, and its packet is that count.
abbrev toy : Libav ℕ
toy = record {
  speakers = record { front_pair = 3; back_pair = 48; front_center = 4; low_frequency = 8 };
  open_codec = λ codec layout rate bitrate w. (toy_context, w);
  send_frame = λ f w. suc w;
  receive_packet = λ w. (w ∷ [], w);
}

abbrev pcm : AudioConf
pcm = conf_of AudioCodec.raw_float32 SampleRate.rate48000 2

abbrev half_frame : AvFrame
half_frame = record { nb_samples = 1; slot = λ plane i. plane ∷ i ∷ [] }

abbrev busy : AudioEncoder
busy = record (new_encoder AudioCodec.ac3) {
  conf = pcm;
  context = some toy_context;
  partial_frame = some half_frame;
}

-- Three samples of two channels
abbrev samples : Buffer
samples = record blank {
  buffer = 0 ∷ 1 ∷ 2 ∷ 3 ∷ 4 ∷ 5 ∷ 6 ∷ 7 ∷ 8 ∷ 9 ∷ 10 ∷ 11 ∷ 12 ∷ 13 ∷ 14 ∷ 15 ∷ [];
  reserved = 4;
  size = 12;
}

samples-IsSound : IsSound samples
samples-IsSound = record {
  whole = refl;
  inside = omega arith;
  small = omega arith;
  backed = omega arith;
}

toy_context-IsUsable : IsUsable toy_context
toy_context-IsUsable = record {
  frame_filled = omega arith;
  has_channels = omega arith;
  sample_known = refl;
}

-- One sample completes the frame.
fill_run :
    interleaved toy_context (fill_frame toy_context half_frame samples).1
    ≡ 0 ∷ 0 ∷ 1 ∷ 0 ∷ 0 ∷ 1 ∷ 2 ∷ 3 ∷ []
unfolding fill_frame rows
fill_run = refl

on_process-Processed_example :
    Processed toy exact [] toy_context busy pcm samples (on_process toy exact [] pcm busy samples)
on_process-Processed_example =
    on_process-Processed toy exact [] toy_context busy pcm refl (unfold conf_eq in refl)
      toy_context-IsUsable samples-IsSound (3, refl) (omega arith) (omega arith)

abbrev sink : Node ℕ
sink = record {
  is_bypassed = false;
  on_start = λ w. w;
  on_stop = λ w. w;
  on_config = λ c w. w;
  on_process = λ e w. (some e, w);
  on_process_conf = λ c b w. (c, b, suc w);
}

on_stop_keeps_example : on_stop exact sink (sink ∷ []) pcm 7 ≡ 7
on_stop_keeps_example = on_stop_keeps exact sink (sink ∷ []) pcm 7
