-- ===== src/Dsp/Crossover/Quad.antt =====
-- What the crossover puts into the four channels of its output.
use libcornrow.Base.{
  leb, Bool-cases, length, mul_size, ℕ, zero, suc, ◌+◌, ◌*◌, ◌/◌, ◌%◌, ◌^◌, ◌≤◌, ◌<◌, ◌≡◌, refl, ap,
  ◌∙◌, ◌⊎◌, inl, inr, true, map, arith,
}
use libcornrow.Audio.Types.Channels.{stereo, quad}
use libcornrow.Dsp.Numbers.{Double, Float, Samples}
use libcornrow.Dsp.Biquad.Columns.{column, column_ext}
use libcornrow.Dsp.Crossover.Gain.{gained, gain_column, gain_between, gain_other}
use libcornrow.Dsp.Crossover.{Crossover, apply_gain, split_bands, on_process}
use libcornrow.Audio.Types.{AudioConf, frame_size}
use libcornrow.Core.Buffer.Bounds.{
  IsSound, HasSlack, IsAligned, back_offset-aligned, acquire-Acquired,
}
use libcornrow.Dsp.Design.{is_valid_filter}
use libcornrow.Dsp.Biquad.{Biquad, is_valid, process}
use libcornrow.Dsp.Biquad.Filtered.{
  IsClear, responses, HasChannels, process-column, process_other, process_between,
}
use libcornrow.Core.Buffer.{Allocator, Buffer, size_at_back, back_offset, acquire, commit}

module _ {F D : Type 0} ⦃d : Double D⦄ (r : Float F D) where
  -- Both biquads are valid, with one cascade or more, for two channels.
  pub record IsStereo (s : Biquad F) : Type 0 where
    pub valid : is_valid r s ≡ true
    pub cascades : 0 < length s.history
    pub channels : HasChannels r 2 s.history

  -- The front channels: the low band, which the rear channels leave alone
  front_column :
      (x : Crossover F) (n i o c : ℕ) (m : Samples F)
      → n < 2 ^ 32
      → IsStereo x.lp
      → IsStereo x.hp
      → c < 2
      → IsClear 2 n i o 2 4
      → column (o + c) 4 n (split_bands r x i o n m).1
        ≡ map (gained r x.low_gain) (responses r x.lp.coeffs c x.lp.history (column (i + c) 2 n m))
  unfolding split_bands
  front_column x n i o c m few low high h a =
      column_ext (o + c) 4 n _ m2 kept
      ∙ gain_column r x.low_gain n o c m1 h
      ∙ ap (map (gained r x.low_gain)) (
          process-column r x.lp 2 n i o 4 c m low.valid low.cascades low.channels h (omega arith)
            (omega arith) few a)
    where
      m1 : Samples F
      m1 = (process r x.lp i o n 2 4 m).1

      m2 : Samples F
      m2 = apply_gain r x.low_gain n o m1

      m3 : Samples F
      m3 = (process r x.hp i (o + 2) n 2 4 m2).1

      kept :
          (j : ℕ)
          → j < n
          → apply_gain r x.high_gain n (o + 2) m3 (o + c + j * 4) ≡ m2 (o + c + j * 4)
      kept zero less =
          gain_other r x.high_gain n (o + 2) (o + c + 0 * 4) m3 (inl (omega arith))
          ∙ process_other r x.hp 2 n i (o + 2) 2 4 (o + c + 0 * 4) m2 high.channels (omega arith)
              (omega arith) few (inl (omega arith))
      kept (suc j) less =
          let e : o + c + suc j * 4 ≡ o + 2 + (c + 2) + j * 4 = omega arith in
          rw e (
            gain_between r x.high_gain n (o + 2) (c + 2) j m3 (omega arith) (omega arith)
            ∙ process_between r x.hp 2 n i (o + 2) 2 4 (c + 2) j m2 high.channels (omega arith)
                (omega arith) (omega arith) few)

  -- The rear channels: the high band of the same input
  rear_column :
      (x : Crossover F) (n i o c : ℕ) (m : Samples F)
      → n < 2 ^ 32
      → IsStereo x.lp
      → IsStereo x.hp
      → c < 2
      → (i + n * 2 ≤ o) ⊎ (o + n * 4 ≤ i)
      → column (o + 2 + c) 4 n (split_bands r x i o n m).1
        ≡ map (gained r x.high_gain) (responses r x.hp.coeffs c x.hp.history (column (i + c) 2 n m))
  unfolding split_bands
  rear_column x n i o c m few low high h a =
      gain_column r x.high_gain n (o + 2) c m3 h
      ∙ ap (map (gained r x.high_gain)) (
          process-column r x.hp 2 n i (o + 2) 4 c m2 high.valid high.cascades high.channels h
            (omega arith) (omega arith) few (inr (ground (arith, a)))
          ∙ ap (responses r x.hp.coeffs c x.hp.history) (column_ext (i + c) 2 n m2 m untouched))
    where
      m1 : Samples F
      m1 = (process r x.lp i o n 2 4 m).1

      m2 : Samples F
      m2 = apply_gain r x.low_gain n o m1

      m3 : Samples F
      m3 = (process r x.hp i (o + 2) n 2 4 m2).1

      untouched : (j : ℕ) → j < n → m2 (i + c + j * 2) ≡ m (i + c + j * 2)
      untouched j less =
          gain_other r x.low_gain n o (i + c + j * 2) m1 (ground (arith, a))
          ∙ process_other r x.lp 2 n i o 2 4 (i + c + j * 2) m low.channels (omega arith)
              (omega arith) few (ground (arith, a))

  -- Where the output has the low band in front and the high band in the rear: `i` and `o` are the input's and the
  -- output's first float, `n` the number of frames.
  pub record Bands (x : Crossover F) (n i o : ℕ) (m m' : Samples F) : Type 0 where
    pub front :
        (c : ℕ)
        → c < 2
        → column (o + c) 4 n m'
          ≡ map
              (gained r x.low_gain)
              (responses r x.lp.coeffs c x.lp.history (column (i + c) 2 n m))
    pub rear :
        (c : ℕ)
        → c < 2
        → column (o + 2 + c) 4 n m'
          ≡ map
              (gained r x.high_gain)
              (responses r x.hp.coeffs c x.hp.history (column (i + c) 2 n m))

  acquired_aligned :
      (a : Allocator) (n : ℕ) {b : Buffer}
      → IsSound b
      → HasSlack b
      → IsAligned b
      → (acquire a n b).acquired_offset % 4 ≡ 0
  unfolding acquire
  acquired_aligned a n {b} v slack al = elim (Bool-cases (leb n b.offset)) [
    | inl front ↦ rw front (omega arith)
    | inr behind ↦ elim (Bool-cases (leb n (size_at_back b))) [
      | inl back ↦ rw (behind, back) aligned_back
      | inr grown ↦ rw (behind, grown) aligned_back
    ]
  ]
    where
      aligned_back : back_offset b % 4 ≡ 0
      aligned_back = omega (arith, back_offset-aligned v al)

  -- With a valid filter and valid biquads for two channels, on stereo floats in a sound buffer whose data
  -- starts at a multiple of 4 bytes and is whole frames, shorter than 4 GiB: the crossover announces four channels, its buffer holds twice the
  -- bytes, and in each frame the two front channels are the low-passed input and the two rear ones the
  -- high-passed input, each with its gain where that is below 1.
  pub on_process-Bands :
      (a : Allocator) (conf : AudioConf) (x : Crossover F) {b : Buffer} (m : Samples F)
      → is_valid_filter r x.filter ≡ true
      → IsStereo x.lp
      → IsStereo x.hp
      → frame_size conf ≡ 8
      → IsSound b
      → HasSlack b
      → IsAligned b
      → b.offset % 4 ≡ 0
      → b.size % 8 ≡ 0
      → b.size < 2 ^ 32
      → b.offset + b.size + b.size * 2 < 2 ^ 61
      → ((on_process r a conf x b m).0.channels ≡ quad)
        × ((on_process r a conf x b m).2.size ≡ b.size * 2)
        × Bands x
            (b.size / 8)
            (b.offset / 4)
            ((on_process r a conf x b m).2.offset / 4)
            m
            (on_process r a conf x b m).3
  unfolding on_process commit
  on_process-Bands a conf x {b} m valid low high stereo v slack al start whole short small =
      let double : mul_size b.size 2 ≡ b.size * 2 = omega arith in
      let acq = acquire-Acquired a (b.size * 2) v slack al small in
      let few : b.size / 8 < 2 ^ 32 = omega arith in
      let spot = acquired_aligned a (b.size * 2) v slack al in
      let same = acq.size_kept in
      let offset_same = acq.offset_kept in
      let out = (acquire a (b.size * 2) b).acquired_offset in
      let clear : (b.offset / 4 + b.size / 8 * 2 ≤ out / 4)
          ⊎ (out / 4 + b.size / 8 * 4 ≤ b.offset / 4) =
        elim acq.apart [
          | inl p ↦ inr (omega (arith, p, spot, offset_same))
          | inr p ↦ inl (omega (arith, p, spot, offset_same, same))
        ] in
      rw (valid, double, stereo, same, offset_same)
        (
          refl,
          double,
          record {
            front = λ c h.
                front_column x (b.size / 8) (b.offset / 4) (out / 4) c m few low high h
                  (inr (ground (arith, clear)));
            rear =
                λ c h. rear_column x (b.size / 8) (b.offset / 4) (out / 4) c m few low high h clear;
          },
        )
