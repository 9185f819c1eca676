-- ===== src/Audio/Converter/Laws.antt =====
-- Both conversions, sample by sample.
use libcornrow.Base.{
  le→leb, length, take, drop, slice, overwrite, length-overwrite, slice-overwrite,
  slice-overwrite_apart, slice-append, mul_size, ℕ, zero, suc, ◌+◌, ◌*◌, ◌/◌, ◌%◌, ◌^◌, ◌≤◌, ◌<◌,
  ◌≡◌, refl, sym, ap, ap₂, ◌∙◌, ◌⊎◌, inl, inr, some, List, [], ◌++◌, arith,
}
use libcornrow.Audio.Types.{AudioCodec, codec_size, AudioConf}
use libcornrow.Core.Buffer.{Allocator, Buffer, contents, acquire, commit}
use libcornrow.Core.Buffer.Bounds.{IsSound, HasSlack, IsAligned, Acquired, acquire-Acquired}
use libcornrow.Core.Buffer.Contents.{drop_of_slice, take_of_slice}
use libcornrow.Audio.Converter.{
  FloatCode, int16_of, convert_loop, to_float, to_int16, int16_to_float, float_to_int16,
}
use mathlib.Core.Option

-- `n` samples of `step` bytes, each converted
abbrev pub converted : (List ℕ → List ℕ) → ℕ → ℕ → List ℕ → List ℕ
converted f step zero xs = []
converted f step (suc n) xs = f (take step xs) ++ converted f step n (drop step xs)

-- What the loop leaves: the converted samples at `to`, the rest of the storage as it was.
pub record Converted (f : List ℕ → List ℕ) (step out_step n from to : ℕ) (s : List ℕ) : Type 0 where
  pub after : List ℕ
  pub runs : convert_loop f step out_step n from to s ≡ some after
  pub long : length after ≡ length s
  pub written : slice to (n * out_step) after ≡ converted f step n (slice from (n * step) s)
  pub kept : (i k : ℕ) → (i + k ≤ to) ⊎ (to + n * out_step ≤ i) → slice i k after ≡ slice i k s

-- One round before the others
round-Converted :
    (f : List ℕ → List ℕ) (step out_step n from to : ℕ) (s : List ℕ)
    → ((x : List ℕ) → length (f x) ≡ out_step)
    → from + suc n * step ≤ length s
    → to + suc n * out_step ≤ length s
    → (from + suc n * step ≤ to) ⊎ (to + suc n * out_step ≤ from)
    → Converted f step out_step n
        (from + step)
        (to + out_step)
        (overwrite to (f (slice from step s)) s)
    → Converted f step out_step (suc n) from to s
unfolding convert_loop Option.bind
round-Converted f step out_step n from to s fixed fi fo a ih = record {
  after = ih.after;
  runs =
      rw
        (
          le→leb (from + step) (length s) (omega (arith, fi)),
          le→leb (to + length chunk) (length s) (omega (arith, fo, fixed (slice from step s))),
        )
        ih.runs;
  long = ih.long ∙ length-overwrite to chunk s;
  written =
      ap (λ x. slice to x ih.after) (omega arith)
      ∙ slice-append to out_step (n * out_step) ih.after (omega (arith, fo, same))
      ∙ ap₂ ◌++◌ first rest;
  kept = λ i k h.
      ih.kept i k (ground (arith, h))
      ∙ slice-overwrite_apart to i k chunk s (omega (arith, fo, fixed (slice from step s)))
          (ground (arith, h, fixed (slice from step s)));
}
  where
    chunk : List ℕ
    chunk = f (slice from step s)

    s1 : List ℕ
    s1 = overwrite to chunk s

    same : length ih.after ≡ length s
    same = ih.long ∙ length-overwrite to chunk s

    whole : slice from (suc n * step) s ≡ slice from (step + n * step) s
    whole = ap (λ x. slice from x s) (omega arith)

    first : slice to out_step ih.after ≡ f (take step (slice from (suc n * step) s))
    first =
        ih.kept to out_step (inl (omega arith))
        ∙ ap (λ x. slice to x s1) (sym (fixed (slice from step s)))
        ∙ slice-overwrite to chunk s (omega (arith, fo, fixed (slice from step s)))
        ∙ ap f (
            sym (take_of_slice from (suc n * step) step s ∙ ap (λ x. slice from x s) (omega arith)))

    rest :
        slice (to + out_step) (n * out_step) ih.after
        ≡ converted f step n (drop step (slice from (suc n * step) s))
    rest =
        ih.written
        ∙ ap (converted f step n) (
            slice-overwrite_apart to (from + step) (n * step) chunk s
              (omega (arith, fo, fixed (slice from step s)))
              (ground (arith, a, fixed (slice from step s)))
            ∙ sym (
                drop_of_slice from (suc n * step) step s (omega arith)
                ∙ ap (λ x. slice (from + step) x s) (omega arith)))

convert_loop-Converted :
    (f : List ℕ → List ℕ) (step out_step n from to : ℕ) (s : List ℕ)
    → ((x : List ℕ) → length (f x) ≡ out_step)
    → from + n * step ≤ length s
    → to + n * out_step ≤ length s
    → (from + n * step ≤ to) ⊎ (to + n * out_step ≤ from)
    → Converted f step out_step n from to s
unfolding convert_loop Option.bind
convert_loop-Converted f step out_step zero from to s fixed fi fo a = record {
  after = s;
  runs = refl;
  long = refl;
  written = (let e : 0 * out_step ≡ 0 = omega arith in rw e refl);
  kept = λ i k h. refl;
}
convert_loop-Converted f step out_step (suc n) from to s fixed fi fo a =
    let keep = length-overwrite to (f (slice from step s)) s in
    round-Converted f step out_step n from to s fixed fi fo a (
      convert_loop-Converted f step out_step n (from + step) (to + out_step)
        (overwrite to (f (slice from step s)) s) fixed (omega (arith, fi, keep))
        (omega (arith, fo, keep)) (ground (arith, a)))

-- The loop in a buffer that has acquired `m` bytes
conversion_in_buffer :
    (f : List ℕ → List ℕ) (step out_step n m : ℕ) {b b1 : Buffer}
    → ((x : List ℕ) → length (f x) ≡ out_step)
    → Acquired m b b1
    → n * step ≡ b.size
    → n * out_step ≡ m
    → Converted f step out_step n b1.offset b1.acquired_offset b1.buffer
conversion_in_buffer f step out_step n m {b} {b1} fixed acq input output =
    let sound = acq.sound in
    let room = acq.room in
    let same = acq.size_kept in
    convert_loop-Converted f step out_step n b1.offset b1.acquired_offset b1.buffer fixed
      (omega (arith, sound, same, input)) (omega (arith, room, output))
      (elim acq.apart [
        | inl p ↦ inr (omega (arith, p, output))
        | inr p ↦ inl (omega (arith, p, input, same))
      ])

conversion_result :
    (f : List ℕ → List ℕ) (step out_step n m : ℕ) {b b1 : Buffer}
    → (acq : Acquired m b b1)
    → (conv : Converted f step out_step n b1.offset b1.acquired_offset b1.buffer)
    → n * step ≡ b.size
    → n * out_step ≡ m
    → slice b1.acquired_offset m conv.after ≡ converted f step n (contents b)
conversion_result f step out_step n m {b} {b1} acq conv input output =
    ap (λ x. slice b1.acquired_offset x conv.after) (sym output)
    ∙ conv.written
    ∙ ap (converted f step n)
        (ap (λ x. slice b1.offset x b1.buffer) (input ∙ sym acq.size_kept) ∙ acq.kept)

module _ {F : Type 0} (fc : FloatCode F) where
  -- A float has four bytes in memory.
  abbrev pub HasFourBytes : Type 0
  HasFourBytes = (x : F) → length (fc.encode x) ≡ 4

  -- Where a float has four bytes: 16-bit samples in a sound buffer whose data ends at a multiple of 4, with three spare
  -- bytes behind it, become as many floats, each the conversion of its sample; no copy leaves the
  -- storage.
  pub int16_to_float-converted :
      (a : Allocator) (conf : AudioConf) {b : Buffer}
      → HasFourBytes
      → conf.codec ≡ AudioCodec.raw_int16
      → IsSound b
      → HasSlack b
      → IsAligned b
      → b.size % 2 ≡ 0
      → b.offset + b.size + b.size * 2 < 2 ^ 61
      → (c : Buffer) × (int16_to_float fc a conf b
          ≡ some (record conf { codec = AudioCodec.raw_float32 }, c))
        × (contents c ≡ converted (to_float fc) 2 (b.size / 2) (contents b))
  unfolding int16_to_float commit to_float codec_size
  int16_to_float-converted a conf {b} four raw v slack al whole small =
      let double : mul_size b.size 2 ≡ b.size * 2 = omega arith in
      let acq = acquire-Acquired a (b.size * 2) v slack al small in
      let b1 = acquire a (b.size * 2) b in
      let input : b.size / 2 * 2 ≡ b.size = omega arith in
      let output : b.size / 2 * 4 ≡ b.size * 2 = omega arith in
      let conv =
        conversion_in_buffer (to_float fc) 2 4 (b.size / 2) (b.size * 2)
          (λ x. four (fc.from_int16 (int16_of x))) acq input output in
      (
        record b1 { buffer = conv.after; offset = b1.acquired_offset; size = b.size * 2 },
        rw (double, raw, acq.size_kept, conv.runs, double) refl,
        conversion_result (to_float fc) 2 4 (b.size / 2) (b.size * 2) acq conv input output,
      )

  -- Floats in a sound buffer, with the same conditions, become as many 16-bit samples, each clamped: 32767 from 1 on,
  -- -32768 below -1.
  pub float_to_int16-converted :
      (a : Allocator) (conf : AudioConf) {b : Buffer}
      → conf.codec ≡ AudioCodec.raw_float32
      → IsSound b
      → HasSlack b
      → IsAligned b
      → b.size % 4 ≡ 0
      → b.offset + b.size + b.size < 2 ^ 61
      → (c : Buffer) × (float_to_int16 fc a conf b
          ≡ some (record conf { codec = AudioCodec.raw_int16 }, c))
        × (contents c ≡ converted (to_int16 fc) 4 (b.size / 4) (contents b))
  unfolding float_to_int16 commit to_int16 codec_size
  float_to_int16-converted a conf {b} raw v slack al whole small =
      let acq = acquire-Acquired a (b.size / 2) v slack al (omega arith) in
      let b1 = acquire a (b.size / 2) b in
      let input : b.size / 4 * 4 ≡ b.size = omega arith in
      let output : b.size / 4 * 2 ≡ b.size / 2 = omega arith in
      let conv =
        conversion_in_buffer (to_int16 fc) 4 2 (b.size / 4) (b.size / 2) (λ x. refl) acq input
          output in
      (
        record b1 { buffer = conv.after; offset = b1.acquired_offset; size = b.size / 2 },
        rw (raw, acq.size_kept, conv.runs) refl,
        conversion_result (to_int16 fc) 4 2 (b.size / 4) (b.size / 2) acq conv input output,
      )
