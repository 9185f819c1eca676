-- ===== src/Audio/Converter/Runs.antt =====
-- Two samples through the converter, with floats that are patterns of 32 bits.
use libcornrow.Base.{leb, replicate, ℕ, ◌/◌, ◌%◌, ◌≡◌, refl, false, some, [], ◌∷◌, arith}
use libcornrow.Audio.Types.{AudioCodec, SampleRate, AudioConf, conf_of}
use libcornrow.Core.Buffer.{Allocator, Buffer, blank, contents}
use libcornrow.Core.Buffer.Bounds.{IsSound}
use libcornrow.Audio.Converter.{FloatCode, int16_of, to_float, int16_to_float}
use libcornrow.Audio.Converter.Laws.{converted, int16_to_float-converted}

abbrev exact : Allocator
exact = record { growth = λ c n. n; growth_enough = λ c n. omega arith }

-- A float is a 16-bit pattern, in the first two of its bytes.
abbrev toy : FloatCode ℕ
toy = record {
  decode = int16_of;
  encode = λ x. x % 256 ∷ x / 256 % 256 ∷ 0 ∷ 0 ∷ [];
  from_int16 = λ n. n;
  at_least_one = λ x. leb 1000 x;
  below_minus_one = λ x. false;
  scaled_int16 = λ x. x;
}

abbrev pcm : Buffer
pcm = record blank {
  buffer = 1 ∷ 2 ∷ 3 ∷ 4 ∷ 5 ∷ 6 ∷ 7 ∷ 8 ∷ replicate 24 0;
  reserved = 8;
  size = 8;
}

pcm-IsSound : IsSound pcm
pcm-IsSound = record {
  whole = refl;
  inside = omega arith;
  small = omega arith;
  backed = omega arith;
}

abbrev raw : AudioCodec → AudioConf
raw c = conf_of c SampleRate.rate44100 2

int16_to_float-converted_example :
    (c : Buffer) × (int16_to_float toy exact (raw AudioCodec.raw_int16) pcm
      ≡ some (raw AudioCodec.raw_float32, c))
    × (contents c ≡ converted (to_float toy) 2 4 (1 ∷ 2 ∷ 3 ∷ 4 ∷ 5 ∷ 6 ∷ 7 ∷ 8 ∷ []))
int16_to_float-converted_example =
    int16_to_float-converted toy exact (raw AudioCodec.raw_int16) (λ x. refl) refl pcm-IsSound
      (omega arith) refl refl (omega arith)
