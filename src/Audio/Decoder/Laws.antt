-- ===== src/Audio/Decoder/Laws.antt =====
-- What the decoder leaves in the buffer.
use libcornrow.Base.{
  length, length-append, slice, length-slice, ℕ, zero, suc, ◌+◌, ◌*◌, ◌^◌, ◌≤◌, ◌<◌, ◌≡◌, refl, sym,
  ap, subst, ◌∙◌, ◌≢◌, Option, some, List, arith,
}
use libcornrow.Audio.Types.{AudioCodec, AudioConf}
use libcornrow.Core.Buffer.{Allocator, Buffer, contents, acquire, commit, write_acquired}
use libcornrow.Core.Buffer.Bounds.{IsSound, HasSlack, IsAligned}
use libcornrow.Core.Buffer.Contents.{produce, contents-produce}
use libcornrow.Audio.Decoder.{
  SampleFormat, DecodedFrame, to_coro, interleave_channels, interleave_samples, interleave,
  frame_conf, take_format, take_frame,
}
use mathlib.Core.Option

abbrev pub sample_bytes : SampleFormat → ℕ
sample_bytes SampleFormat.fltp = 4
sample_bytes SampleFormat.s16p = 2
sample_bytes SampleFormat.other_format = 0

-- A frame of a supported format whose planes have all their samples and no padding.
pub record IsFull (f : DecodedFrame) : Type 0 where
  pub unpadded : f.linesize ≡ f.nb_samples * sample_bytes f.format
  pub planes : (c : ℕ) → c < f.nb_channels → length (f.plane c) ≡ f.linesize

length-interleave_channels :
    (size s n k : ℕ) (plane : ℕ → List ℕ)
    → ((c : ℕ) → c < n → length (plane c) ≡ k)
    → s * size + size ≤ k
    → length (interleave_channels size s plane n) ≡ n * size
unfolding interleave_channels
length-interleave_channels size s zero k plane h fits = omega arith
length-interleave_channels size s (suc n) k plane h fits = omega (
  arith,
  length-append (interleave_channels size s plane n) (slice (s * size) size (plane n)),
  length-slice (s * size) size (plane n),
  h n (omega arith),
  length-interleave_channels size s n k plane (λ c less. h c (omega arith)) fits,
)

length-interleave_samples :
    (size n s k : ℕ) (plane : ℕ → List ℕ)
    → ((c : ℕ) → c < n → length (plane c) ≡ k)
    → s * size ≤ k
    → length (interleave_samples size n plane s) ≡ s * (n * size)
unfolding interleave_samples
length-interleave_samples size n zero k plane h fits = omega arith
length-interleave_samples size n (suc s) k plane h fits = omega (
  arith,
  length-append (interleave_samples size n plane s) (interleave_channels size s plane n),
  length-interleave_channels size s n k plane h (omega arith),
  length-interleave_samples size n s k plane h (omega arith),
)

-- A full frame has as many bytes of samples as its planes.
pub interleaved_long :
    (size : ℕ) (f : DecodedFrame)
    → f.linesize ≡ f.nb_samples * size
    → ((c : ℕ) → c < f.nb_channels → length (f.plane c) ≡ f.linesize)
    → length (interleave_samples size f.nb_channels f.plane f.nb_samples)
      ≡ f.linesize * f.nb_channels
interleaved_long size f unpadded planes =
    length-interleave_samples size f.nb_channels f.nb_samples f.linesize f.plane planes
      (omega (arith, unpadded))
    ∙ reorder f.nb_samples f.nb_channels size
    ∙ ap (λ x. x * f.nb_channels) (sym unpadded)
  where
    reorder : (x y z : ℕ) → x * (y * z) ≡ x * z * y
    reorder x y z = omega arith

interleave-contents :
    (a : Allocator) (size : ℕ) (f : DecodedFrame) {b : Buffer}
    → IsSound b
    → HasSlack b
    → IsAligned b
    → b.offset + b.size + f.linesize * f.nb_channels < 2 ^ 61
    → f.linesize ≡ f.nb_samples * size
    → ((c : ℕ) → c < f.nb_channels → length (f.plane c) ≡ f.linesize)
    → (c : Buffer) × (interleave a size f b ≡ some c)
      × (contents c ≡ interleave_samples size f.nb_channels f.plane f.nb_samples)
      × IsSound c
unfolding interleave
interleave-contents a size f {b} v slack al small unpadded planes =
    let out = interleave_samples size f.nb_channels f.plane f.nb_samples in
    let n = f.linesize * f.nb_channels in
    let long : length out ≡ n = interleaved_long size f unpadded planes in
    subst
      (λ k.
        (c : Buffer) × (Option.map (commit k) (write_acquired out (acquire a n b)) ≡ some c)
        × (contents c ≡ out)
        × IsSound c)
      long (unfold produce in contents-produce a n out v slack al small (omega (arith, long)))

record Taken (f : DecodedFrame) (k : SampleFormat) (o : Option Buffer) : Type 0 where
  after : Buffer
  runs : o ≡ some after
  samples : contents after ≡ interleave_samples (sample_bytes k) f.nb_channels f.plane f.nb_samples
  sound : IsSound after
  rate : after.audio_conf.rate ≡ to_coro f.sample_rate
  known : after.audio_conf.codec ≢ AudioCodec.invalid

pub with_conf-IsSound :
    (conf : AudioConf) {b : Buffer} → IsSound b → IsSound (record b { audio_conf = conf })
with_conf-IsSound conf v = record {
  whole = v.whole;
  inside = v.inside;
  small = v.small;
  backed = v.backed;
}

take_format-Taken :
    (a : Allocator) (f : DecodedFrame) {b : Buffer} (k : SampleFormat)
    → IsSound b
    → HasSlack b
    → IsAligned b
    → b.offset + b.size + f.linesize * f.nb_channels < 2 ^ 61
    → f.linesize ≡ f.nb_samples * sample_bytes k
    → ((c : ℕ) → c < f.nb_channels → length (f.plane c) ≡ f.linesize)
    → k ≢ SampleFormat.other_format
    → Taken f k (take_format a f b k)
unfolding take_format
take_format-Taken a f SampleFormat.fltp v slack al small unpadded planes other =
    let r = interleave-contents a 4 f v slack al small unpadded planes in
    record {
      after = record r.0 { audio_conf = frame_conf AudioCodec.raw_float32 f };
      runs = rw r.1 refl;
      samples = r.2;
      sound = with_conf-IsSound (frame_conf AudioCodec.raw_float32 f) r.3;
      rate = refl;
      known = λ h. cc h;
    }
take_format-Taken a f SampleFormat.s16p v slack al small unpadded planes other =
    let r = interleave-contents a 2 f v slack al small unpadded planes in
    record {
      after = record r.0 { audio_conf = frame_conf AudioCodec.raw_int16 f };
      runs = rw r.1 refl;
      samples = r.2;
      sound = with_conf-IsSound (frame_conf AudioCodec.raw_int16 f) r.3;
      rate = refl;
      known = λ h. cc h;
    }
take_format-Taken a f SampleFormat.other_format v slack al small unpadded planes other =
    absurd (other refl)

-- Where libav's frame is of a supported format, with no padding and all its samples, and the buffer is sound, ends at a
-- multiple of 4 and has three spare bytes behind its data: whatever packet it held, the decoder leaves the
-- samples of the frame in it, interleaved by channels, in a sound buffer, with the format and the rate of
-- the frame; no write leaves the storage.
pub take_frame_interleaved :
    (a : Allocator) (f : DecodedFrame) {b : Buffer}
    → IsFull f
    → f.format ≢ SampleFormat.other_format
    → IsSound b
    → HasSlack b
    → IsAligned b
    → b.offset + b.size + f.linesize * f.nb_channels < 2 ^ 61
    → (c : Buffer) × (take_frame a f b ≡ some c)
      × (contents c ≡ interleave_samples (sample_bytes f.format) f.nb_channels f.plane f.nb_samples)
      × IsSound c
      × (c.audio_conf.rate ≡ to_coro f.sample_rate)
      × (c.audio_conf.codec ≢ AudioCodec.invalid)
unfolding take_frame
take_frame_interleaved a f full known v slack al small =
    let t = take_format-Taken a f f.format v slack al small full.unpadded full.planes known in
    (t.after, t.runs, t.samples, t.sound, t.rate, t.known)

-- The samples of a frame
abbrev pub samples : DecodedFrame → List ℕ
samples f = interleave_samples (sample_bytes f.format) f.nb_channels f.plane f.nb_samples
