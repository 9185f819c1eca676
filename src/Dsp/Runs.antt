-- ===== src/Dsp/Runs.antt =====
-- The theorems on the filters at whole numbers in place of floats.
use libcornrow.Base.{
  ltb, leb, ◌==◌, replicate, ℕ, ◌+◌, ◌-◌, ◌*◌, ◌/◌, ◌≡◌, refl, inl, false, [], ◌∷◌, map, arith,
}
use libcornrow.Audio.Types.{
  AudioCodec, codec_size, SampleRate, rate_to_int, channel_count, AudioConf, conf_of, frame_size,
}
use libcornrow.Audio.Types.Channels.{quad}
use libcornrow.Core.Buffer.Bounds.{IsSound}
use libcornrow.Dsp.Numbers.{Double, Float, store}
use libcornrow.Dsp.Design.{FilterType, Filter, is_valid_filter}
use libcornrow.Dsp.Biquad.{
  Biquad, new_biquad, is_valid, step, run_channels, run_frames, run_cascades, process,
}
use libcornrow.Dsp.Biquad.Columns.{column}
use libcornrow.Dsp.Biquad.Filtered.{responses, process-column}
use libcornrow.Dsp.Crossover.{Crossover, on_process}
use libcornrow.Dsp.Crossover.Quad.{IsStereo, Bands, on_process-Bands}
use libcornrow.Dsp.Equalizers.{Loudness, loudness_process}
use libcornrow.Dsp.Equalizers.Chain.{chain, IsFor, loudness_process-chain}
use libcornrow.Core.Buffer.{Allocator, Buffer, blank}
use libcornrow.Core.Flags.{test_flag}

instance abbrev whole_double : Double ℕ
whole_double = record {
  add = λ x y. x + y;
  sub = λ x y. x - y;
  mul = λ x y. x * y;
  div = λ x y. x / y;
  neg = λ x. x;
  sin = λ x. x;
  cos = λ x. x;
  sqrt = λ x. x;
  pow = λ x y. x;
  pi = 3;
  sqrt1_2 = 1;
  literal = λ n k. n;
  le = leb;
  lt = ltb;
  eq = λ x y. x == y;
}

abbrev whole : Float ℕ ℕ
whole = record {
  add = λ x y. x + y;
  sub = λ x y. x - y;
  mul = λ x y. x * y;
  eq = λ x y. x == y;
  lt = ltb;
  narrow = λ x. x;
  widen = λ x. x;
}

abbrev low_filter : Filter ℕ
low_filter = record { type_of = FilterType.low_pass; f = 100; g = 0; q = 1 }

-- It adds what was before: y = x + x1.
abbrev adder : Biquad ℕ
adder = record (new_biquad whole 2 2 44100) {
  filter = low_filter;
  coeffs = record { b0 = 1; b1 = 1; b2 = 0; a1 = 0; a2 = 0 };
}

adder_run : column 0 2 3 (process whole adder 0 0 3 2 2 (λ i. i)).1 ≡ 0 ∷ 2 ∷ 8 ∷ []
unfolding process is_valid is_valid_filter run_cascades run_frames run_channels step store column
adder_run = refl

process-column_example :
    column 1 2 3 (process whole adder 0 0 3 2 2 (λ i. i)).1
    ≡ responses whole adder.coeffs 1 adder.history (column 1 2 3 (λ i. i))
process-column_example =
    process-column whole adder 2 3 0 0 2 1 (λ i. i) (unfold is_valid is_valid_filter in refl)
      (omega arith) (refl, (refl, tt)) (omega arith) (omega arith) (omega arith) (omega arith)
      (inl (omega arith, omega arith))

adder-IsStereo : IsStereo whole adder
adder-IsStereo = record {
  valid = unfold is_valid is_valid_filter in refl;
  cascades = omega arith;
  channels = (refl, (refl, tt));
}

abbrev both : Crossover ℕ
both = record {
  filter = low_filter;
  lfe = false;
  lp = adder;
  hp = adder;
  lfe_lp = adder;
  lfe_hp = adder;
  low_gain = 1;
  high_gain = 0;
}

abbrev exact : Allocator
exact = record { growth = λ c n. n; growth_enough = λ c n. omega arith }

-- Two stereo frames in storage for eight
abbrev two_frames : Buffer
two_frames = record blank { buffer = replicate 64 0; reserved = 16; size = 16 }

two_frames-IsSound : IsSound two_frames
two_frames-IsSound = record {
  whole = refl;
  inside = omega arith;
  small = omega arith;
  backed = omega arith;
}

abbrev stereo_floats : AudioConf
stereo_floats = conf_of AudioCodec.raw_float32 SampleRate.rate48000 2

on_process-Bands_example :
    ((on_process whole exact stereo_floats both two_frames (λ i. i)).0.channels ≡ quad)
    × ((on_process whole exact stereo_floats both two_frames (λ i. i)).2.size ≡ 32)
    × Bands whole both 2 0
        ((on_process whole exact stereo_floats both two_frames (λ i. i)).2.offset / 4)
        (λ i. i)
        (on_process whole exact stereo_floats both two_frames (λ i. i)).3
on_process-Bands_example =
    on_process-Bands whole exact stereo_floats both (λ i. i) (unfold is_valid_filter in refl)
      adder-IsStereo adder-IsStereo (unfold frame_size channel_count codec_size test_flag in refl)
      two_frames-IsSound (omega arith) refl refl refl (omega arith) (omega arith)

adder-IsFor : IsFor whole 2 adder
adder-IsFor = (omega arith, (refl, (refl, tt)))

abbrev quiet : Loudness ℕ
quiet = record { headroom = 3; volume = 2; tpk1 = adder; tpk2 = adder; ths = adder }

loudness_process-chain_example :
    column 1
      (channel_count 2)
      (16 / frame_size stereo_floats)
      (loudness_process whole stereo_floats quiet two_frames (λ i. i)).2
    ≡ chain whole 48000 1
        (adder ∷ adder ∷ adder ∷ [])
        (map (λ y. y * 2) (column 1 (channel_count 2) (16 / frame_size stereo_floats) (λ i. i)))
unfolding rate_to_int
loudness_process-chain_example =
    loudness_process-chain whole stereo_floats quiet two_frames 1 (λ i. i)
      (unfold channel_count test_flag in (adder-IsFor, (adder-IsFor, (adder-IsFor, tt))))
      (unfold channel_count test_flag in omega arith) refl (omega arith)
