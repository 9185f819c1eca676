-- ===== src/Audio/Decoder/Runs.antt =====
-- A decoded frame of two samples, and the format line of an ALAC stream.
use libcornrow.Base.{length, replicate, ℕ, zero, suc, ◌<◌, ◌≡◌, refl, ◌≢◌, some, [], ◌∷◌, arith}
use libcornrow.Audio.Types.{AudioCodec}
use libcornrow.Core.Buffer.{Allocator, Buffer, blank, contents}
use libcornrow.Core.Buffer.Bounds.{IsSound}
use libcornrow.Audio.Decoder.{
  SampleFormat, DecodedFrame, to_coro, quicktime_atom, interleave_channels, interleave_samples,
  take_frame,
}
use libcornrow.Audio.Decoder.Laws.{take_frame_interleaved}

abbrev exact : Allocator
exact = record { growth = λ c n. n; growth_enough = λ c n. omega arith }

abbrev two_samples : DecodedFrame
two_samples = record {
  format = SampleFormat.s16p;
  sample_rate = 44100;
  nb_channels = 2;
  nb_samples = 2;
  linesize = 4;
  plane = λ c. elim c [ zero ↦ 1 ∷ 2 ∷ 3 ∷ 4 ∷ [] | suc d ↦ 5 ∷ 6 ∷ 7 ∷ 8 ∷ [] ];
}

two_samples-planes : (c : ℕ) → c < 2 → length (two_samples.plane c) ≡ 4
two_samples-planes zero h = refl
two_samples-planes (suc c) h = refl

abbrev packet : Buffer
packet = record blank { buffer = replicate 32 9; reserved = 8; size = 4 }

packet-IsSound : IsSound packet
packet-IsSound = record {
  whole = refl;
  inside = omega arith;
  small = omega arith;
  backed = omega arith;
}

interleave_run : interleave_samples 2 2 two_samples.plane 2 ≡ 1 ∷ 2 ∷ 5 ∷ 6 ∷ 3 ∷ 4 ∷ 7 ∷ 8 ∷ []
unfolding interleave_samples interleave_channels
interleave_run = refl

atom_run : length (quicktime_atom 352 16 2 44100) ≡ 36
unfolding quicktime_atom
atom_run = refl

take_frame_interleaved_run :
    (c : Buffer) × (take_frame exact two_samples packet ≡ some c)
    × (contents c ≡ interleave_samples 2 2 two_samples.plane 2)
    × IsSound c
    × (c.audio_conf.rate ≡ to_coro 44100)
    × (c.audio_conf.codec ≢ AudioCodec.invalid)
take_frame_interleaved_run =
    take_frame_interleaved exact two_samples
      (record { unpadded = refl; planes = two_samples-planes }) (λ e. cc e) packet-IsSound
      (omega arith) refl (omega arith)
