-- ===== src/Dsp/Biquad/Filtered.antt =====
-- `process` of a biquad, channel by channel: the recurrence, once for each cascade.
use libcornrow.Base.{
  Bool-cases, length, get_elem?, All, get_elem?_bound, ℕ, zero, suc, ◌+◌, ◌*◌, ◌%◌, ◌^◌, ◌≤◌, ◌<◌,
  ◌≡◌, refl, ap, ap₂, ◌∙◌, ◌⊎◌, inl, inr, true, Option, none, some, List, [], ◌∷◌, arith,
}
use libcornrow.Dsp.Numbers.{Double, Float, Samples}
use libcornrow.Dsp.Design.{Coeffs}
use libcornrow.Dsp.Biquad.{
  History, Biquad, is_valid, step, run_channels, run_frames, run_cascades, process,
}
use libcornrow.Dsp.Biquad.Columns.{
  column, column_ext, response, length-run_channels, channels_other, channels_step,
}
use native.Mathlib.Nat.{mul-le-mul_right}

-- The regions that are read and written: the same one from the start on, or one behind the other.
abbrev pub IsClear : ℕ → ℕ → ℕ → ℕ → ℕ → ℕ → Type 0
IsClear channels n i o is os =
    ((o ≤ i) × (os ≤ is)) ⊎ ((i + n * is ≤ o) ⊎ (o + channels + n * os ≤ i + os))

module _ {F D : Type 0} ⦃d : Double D⦄ (r : Float F D) where
  -- `n` frames write nothing outside of the channels in each of them.
  pub frames_other :
      (k : Coeffs F) (hs : List (History F)) (n i o is os q : ℕ) (m : Samples F)
      → length hs ≤ os
      → (q < o) ⊎ (o + n * os ≤ q)
      → (run_frames r k hs n i o is os m).1 q ≡ m q
  unfolding run_frames
  frames_other k hs zero i o is os q m fits a = refl
  frames_other k hs (suc n) i o is os q m fits a =
      let first = run_channels r k hs i o m in
      let same = length-run_channels r k hs i o m in
      frames_other k first.0 n (i + is) (o + os) is os q first.1 (omega (arith, same))
        (ground (arith, a))
      ∙ channels_other r k hs i o q m (ground (arith, a))

  frames_between :
      (k : Coeffs F) (hs : List (History F)) (n i o is os g j : ℕ) (m : Samples F)
      → length hs ≤ g
      → g < os
      → (run_frames r k hs n i o is os m).1 (o + g + j * os) ≡ m (o + g + j * os)
  unfolding run_frames
  frames_between k hs zero i o is os g j m low high = refl
  frames_between k hs (suc n) i o is os g zero m low high =
      let first = run_channels r k hs i o m in
      let same = length-run_channels r k hs i o m in
      let e : o + g + 0 * os ≡ o + g = omega arith in
      rw e (
        frames_other k first.0 n (i + is) (o + os) is os (o + g) first.1 (omega (arith, same))
          (inl (omega arith))
        ∙ channels_other r k hs i o (o + g) m (inr (omega arith)))
  frames_between k hs (suc n) i o is os g (suc j) m low high =
      let first = run_channels r k hs i o m in
      let same = length-run_channels r k hs i o m in
      let e : o + g + suc j * os ≡ o + os + g + j * os = omega arith in
      rw e (
        frames_between k first.0 n (i + is) (o + os) is os g j first.1 (omega (arith, same)) high
        ∙ channels_other r k hs i o (o + os + g + j * os) m (inr (omega arith)))

  frames_column :
      (k : Coeffs F) (hs : List (History F)) (n i o is os c : ℕ) (h : History F) (m : Samples F)
      → get_elem? hs c ≡ some h
      → length hs ≤ is
      → length hs ≤ os
      → IsClear (length hs) n i o is os
      → column (o + c) os n (run_frames r k hs n i o is os m).1
        ≡ response r k h (column (i + c) is n m)
  unfolding run_frames response column
  frames_column k hs zero i o is os c h m e fi fo a = refl
  frames_column k hs (suc n) i o is os c h m e fi fo a =
      let first = run_channels r k hs i o m in
      let same = length-run_channels r k hs i o m in
      let bound = get_elem?_bound hs c e in
      let stepped = channels_step r k hs i o c h m e (ground (arith, a)) in
      let out : o + c + os ≡ o + os + c = omega arith in
      let inp : i + is + c ≡ i + c + is = omega arith in
      ap₂ ◌∷◌
        (frames_other k first.0 n (i + is) (o + os) is os (o + c) first.1 (omega (arith, same))
            (inl (omega arith))
          ∙ stepped.0)
        (rw out (
          frames_column k first.0 n (i + is) (o + os) is os c (step r k h (m (i + c))).1 first.1
            stepped.1 (omega (arith, same)) (omega (arith, same)) (rw same (still a))
          ∙ ap (response r k (step r k h (m (i + c))).1) (
              column_ext (i + is + c) is n first.1 m (λ j less.
                channels_other r k hs i o (i + is + c + j * is) m
                  (let far = mul-le-mul_right is less in ground (arith, a, far, bound)))
              ∙ ap (λ x. column x is n m) inp)))
    where
      still : IsClear (length hs) (suc n) i o is os → IsClear (length hs) n (i + is) (o + os) is os
      still b = ground (arith, b)

  -- The recurrences of all cascades in a row, for channel `c`.
  unfoldable pub responses : Coeffs F → ℕ → List (List (History F)) → List F → List F
  unfolding response
  responses k c [] xs = xs
  responses k c (hs ∷ hss) xs = responses k c hss (once (get_elem? hs c))
    where
      once : Option (History F) → List F
      once none = xs
      once (some h) = response r k h xs

  -- All cascades have the same number of channels.
  abbrev pub HasChannels : ℕ → List (List (History F)) → Type 0
  HasChannels channels hss = All (λ hs. length hs ≡ channels) hss

  get_channel :
      (hs : List (History F)) (c : ℕ) → c < length hs → (h : History F) × (get_elem? hs c ≡ some h)
  get_channel [] c less = absurd (omega arith)
  get_channel (h ∷ hs) zero less = (h, refl)
  get_channel (h ∷ hs) (suc c) less = get_channel hs c (omega arith)

  pub cascades_other :
      (k : Coeffs F) (hss : List (List (History F))) (channels n i o is os q : ℕ) (m : Samples F)
      → HasChannels channels hss
      → channels ≤ os
      → (q < o) ⊎ (o + n * os ≤ q)
      → (run_cascades r k hss n i o is os m).1 q ≡ m q
  unfolding run_cascades
  cascades_other k [] channels n i o is os q m all fits a = refl
  cascades_other k (hs ∷ hss) channels n i o is os q m (one, all) fits a =
      cascades_other k hss channels n o o os os q (run_frames r k hs n i o is os m).1 all fits a
      ∙ frames_other k hs n i o is os q m (omega arith) a

  pub cascades_between :
      (k : Coeffs F) (hss : List (List (History F))) (channels n i o is os g j : ℕ) (m : Samples F)
      → HasChannels channels hss
      → channels ≤ g
      → g < os
      → (run_cascades r k hss n i o is os m).1 (o + g + j * os) ≡ m (o + g + j * os)
  unfolding run_cascades
  cascades_between k [] channels n i o is os g j m all low high = refl
  cascades_between k (hs ∷ hss) channels n i o is os g j m (one, all) low high =
      cascades_between k hss channels n o o os os g j (run_frames r k hs n i o is os m).1 all low
        high
      ∙ frames_between k hs n i o is os g j m (omega arith) high

  cascade_column :
      (k : Coeffs F) (hs : List (History F)) (hss : List (List (History F)))
      (channels n i o is os c : ℕ) (m : Samples F)
      → HasChannels channels (hs ∷ hss)
      → c < channels
      → channels ≤ is
      → channels ≤ os
      → IsClear channels n i o is os
      → column (o + c) os n (run_cascades r k (hs ∷ hss) n i o is os m).1
        ≡ responses k c (hs ∷ hss) (column (i + c) is n m)
  unfolding run_cascades responses
  cascade_column k hs [] channels n i o is os c m (one, all) less fi fo a =
      let found = get_channel hs c (omega arith) in
      rw found.1
        (frames_column k hs n i o is os c found.0 m found.1 (omega arith) (omega arith) (rw one a))
  cascade_column k hs (hs' ∷ hss) channels n i o is os c m (one, all) less fi fo a =
      let found = get_channel hs c (omega arith) in
      cascade_column k hs' hss channels n o o os os c (run_frames r k hs n i o is os m).1 all less
        fo fo (inl (omega arith, omega arith))
      ∙ rw found.1 (
          ap (responses k c (hs' ∷ hss)) (
            frames_column k hs n i o is os c found.0 m found.1 (omega arith) (omega arith)
              (rw one a)))

  cut_frames : (n : ℕ) → n < 2 ^ 32 → n % 2 ^ 32 ≡ n
  cut_frames n h = omega arith

  cut_spacing : (n : ℕ) → n < 2 ^ 8 → n % 2 ^ 8 ≡ n
  cut_spacing n h = omega arith

  -- A valid biquad with at least one cascade filters every channel on its own: the samples of channel
  -- `c` in the output are what the recurrence of the biquad, once for each cascade and from that
  -- channel's history on, makes of the samples of channel `c` in the input. The frames of the input are as long
  -- as the history has channels, which the code asserts, those of the output no shorter; the spacings fit 8
  -- bits and the count of frames 32. Input and output may be the same region, with frames of the output as long
  -- as those of the input, or two that are apart.
  pub process-column :
      (s : Biquad F) (channels n i o os c : ℕ) (m : Samples F)
      → is_valid r s ≡ true
      → 0 < length s.history
      → HasChannels channels s.history
      → c < channels
      → channels ≤ os
      → os < 2 ^ 8
      → n < 2 ^ 32
      → IsClear channels n i o channels os
      → column (o + c) os n (process r s i o n channels os m).1
        ≡ responses s.coeffs c s.history (column (i + c) channels n m)
  unfolding process
  process-column s channels n i o os c m valid some_cascade all less fo narrow small a =
      rw (valid, cut_frames n small, cut_spacing channels (omega arith), cut_spacing os narrow)
        (of_history s.history some_cascade all)
    where
      of_history :
          (hss : List (List (History F)))
          → 0 < length hss
          → HasChannels channels hss
          → column (o + c) os n (run_cascades r s.coeffs hss n i o channels os m).1
            ≡ responses s.coeffs c hss (column (i + c) channels n m)
      of_history [] h all = absurd (omega arith)
      of_history (hs ∷ hss) h all =
          cascade_column s.coeffs hs hss channels n i o channels os c m all less (omega arith) fo a

  -- `process` writes nothing but the channels of its frames.
  pub process_other :
      (s : Biquad F) (channels n i o is os q : ℕ) (m : Samples F)
      → HasChannels channels s.history
      → channels ≤ os
      → os < 2 ^ 8
      → n < 2 ^ 32
      → (q < o) ⊎ (o + n * os ≤ q)
      → (process r s i o n is os m).1 q ≡ m q
  unfolding process
  process_other s channels n i o is os q m all fits narrow small a =
      elim (Bool-cases (is_valid r s)) [
        | inl valid ↦
            rw (valid, cut_frames n small, cut_spacing os narrow)
              (cascades_other s.coeffs s.history channels n i o (is % 2 ^ 8) os q m all fits a)
        | inr not_valid ↦ rw not_valid refl
      ]

  pub process_between :
      (s : Biquad F) (channels n i o is os g j : ℕ) (m : Samples F)
      → HasChannels channels s.history
      → channels ≤ g
      → g < os
      → os < 2 ^ 8
      → n < 2 ^ 32
      → (process r s i o n is os m).1 (o + g + j * os) ≡ m (o + g + j * os)
  unfolding process
  process_between s channels n i o is os g j m all low high narrow small =
      elim (Bool-cases (is_valid r s)) [
        | inl valid ↦
            rw (valid, cut_frames n small, cut_spacing os narrow)
              (cascades_between s.coeffs s.history channels n i o (is % 2 ^ 8) os g j m all low
                high)
        | inr not_valid ↦ rw not_valid refl
      ]
