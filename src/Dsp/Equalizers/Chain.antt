-- ===== src/Dsp/Equalizers/Chain.antt =====
-- What the equalizers make of each channel.
use libcornrow.Base.{
  ltb, leb, ◌==◌, if◌then◌else◌, if_true, Bool-cases, length, All, ℕ, zero, suc, ◌+◌, ◌*◌, ◌/◌, ◌%◌,
  ◌^◌, ◌≤◌, ◌<◌, ◌≡◌, refl, sym, ap, ◌∙◌, inl, inr, ◌&&◌, List, [], ◌∷◌, map, arith,
}
use libcornrow.Audio.Types.{AudioCodec, rate_to_int, channel_count, AudioConf, frame_size}
use libcornrow.Dsp.Numbers.{Double, number, Float, Samples, store}
use libcornrow.Dsp.Biquad.{Biquad, update, set_rate, is_valid, process}
use libcornrow.Dsp.Biquad.Columns.{column, column_ext}
use libcornrow.Dsp.Biquad.Filtered.{responses, HasChannels, process-column}
use libcornrow.Dsp.Equalizers.{
  Peq, Loudness, run_biquads, peq_process, scale_all, lower_volume, loudness_process,
}
use libcornrow.Core.Buffer.{Buffer}
use libcornrow.Audio.Types.Laws.{channel_count-le}
use native.Mathlib.Nat.{mul-le-mul_right, div-le_self}

module _ {F D : Type 0} ⦃d : Double D⦄ (r : Float F D) where
  -- What one biquad at a rate makes of the samples of channel `c`; one that is not valid leaves them alone.
  abbrev pub filtered : ℕ → ℕ → Biquad F → List F → List F
  filtered rate c s xs =
      if is_valid r (set_rate r rate s)
      then responses r (set_rate r rate s).coeffs c s.history xs
      else xs

  unfoldable pub chain : ℕ → ℕ → List (Biquad F) → List F → List F
  chain rate c [] xs = xs
  chain rate c (s ∷ ss) xs = chain rate c ss (filtered rate c s xs)

  -- A biquad with one cascade or more, for so many channels
  abbrev pub IsFor : ℕ → Biquad F → Type 0
  IsFor channels s = (0 < length s.history) × HasChannels r channels s.history

  set_rate-history : (rate : ℕ) (s : Biquad F) → (set_rate r rate s).history ≡ s.history
  unfolding set_rate update
  set_rate-history rate s = elim (Bool-cases (s.rate == rate)) [
    | inl same ↦ rw same refl
    | inr other ↦ rw other refl
  ]

  in_place :
      (s : Biquad F) (rate i n channels c : ℕ) (m : Samples F)
      → IsFor channels s
      → c < channels
      → channels < 2 ^ 8
      → n < 2 ^ 32
      → column (i + c) channels n (process r (set_rate r rate s) i i n channels channels m).1
        ≡ filtered rate c s (column (i + c) channels n m)
  unfolding process
  in_place s rate i n channels c m ok less narrow few =
      elim (Bool-cases (is_valid r (set_rate r rate s))) [
        | inl valid ↦
            process-column r (set_rate r rate s) channels n i i channels c m valid
              (rw (set_rate-history rate s) ok.0) (rw (set_rate-history rate s) ok.1) less
              (omega arith) narrow few (inl (omega arith, omega arith))
            ∙ ap (λ h. responses r (set_rate r rate s).coeffs c h (column (i + c) channels n m))
                (set_rate-history rate s)
            ∙ sym (if_true _ _ valid)
        | inr not_valid ↦ rw (not_valid, process) refl
      ]

  pub run_biquads-chain :
      (ss : List (Biquad F)) (rate i n channels c : ℕ) (m : Samples F)
      → All (IsFor channels) ss
      → c < channels
      → channels < 2 ^ 8
      → n < 2 ^ 32
      → column (i + c) channels n (run_biquads r ss rate i n channels m).1
        ≡ chain rate c ss (column (i + c) channels n m)
  unfolding run_biquads chain
  run_biquads-chain [] rate i n channels c m all less narrow few = refl
  run_biquads-chain (s ∷ ss) rate i n channels c m (one, all) less narrow few =
      run_biquads-chain ss rate i n channels c
        (process r (set_rate r rate s) i i n channels channels m).1 all less narrow few
      ∙ ap (chain rate c ss) (in_place s rate i n channels c m one less narrow few)

  scale_all_at :
      (v : F) (n i q : ℕ) (m : Samples F)
      → scale_all r v n i m q ≡ (if leb i q && ltb q (i + n) then r.mul (m q) v else m q)
  unfolding scale_all store
  scale_all_at v zero i q m = ground arith
  scale_all_at v (suc n) i q m =
      ground (arith, scale_all_at v n (suc i) q (store i (r.mul (m i) v) m), same)
    where
      same : q ≡ i → m q ≡ m i
      same e = ap m e

  map-column :
      (p s n : ℕ) (f : F → F) (m : Samples F) → column p s n (λ q. f (m q)) ≡ map f (column p s n m)
  unfolding column
  map-column p s zero f m = refl
  map-column p s (suc n) f m = ap (◌∷◌ (f (m p))) (map-column (p + s) s n f m)

  scale_all-column :
      (v : F) (n i channels c : ℕ) (m : Samples F)
      → c < channels
      → column (i + c) channels n (scale_all r v (n * channels) i m)
        ≡ map (λ x. r.mul x v) (column (i + c) channels n m)
  scale_all-column v n i channels c m less =
      column_ext (i + c) channels n (scale_all r v (n * channels) i m) (λ q. r.mul (m q) v)
        (λ j before.
          let far : suc j * channels ≤ n * channels = mul-le-mul_right channels before in
          let inside : i + c + j * channels < i + n * channels = omega (arith, far) in
          ground (arith, scale_all_at v (n * channels) i (i + c + j * channels) m, inside))
      ∙ map-column (i + c) channels n (λ x. r.mul x v) m

  -- The equalizer filters each channel on its own: after `onProcess`, the samples of channel `c` are what
  -- the biquads make of them one after the other, each at the rate of the format, from that channel's history, and
  -- each that is not valid leaving them alone. Every biquad has a cascade and as many channels as the
  -- format.
  pub peq_process-chain :
      (conf : AudioConf) (x : Peq F) (b : Buffer) (c : ℕ) (m : Samples F)
      → All (IsFor (channel_count conf.channels)) x.biquads
      → c < channel_count conf.channels
      → column
          (b.offset / 4 + c)
          (channel_count conf.channels)
          (b.size / frame_size conf % 2 ^ 32)
          (peq_process r conf x b m).2
        ≡ chain (rate_to_int conf.rate) c x.biquads (
            column
              (b.offset / 4 + c)
              (channel_count conf.channels)
              (b.size / frame_size conf % 2 ^ 32)
              m)
  unfolding peq_process
  peq_process-chain conf x b c m all less =
      run_biquads-chain x.biquads (rate_to_int conf.rate) (b.offset / 4)
        (b.size / frame_size conf % 2 ^ 32) (channel_count conf.channels) c m all less
        (omega (arith, channel_count-le conf.channels)) (omega arith)

  -- Loudness on every branch, for each channel of floats in a buffer shorter than 4 GiB: at full volume without headroom the samples stay; without
  -- headroom they are only scaled, by the volume; else they are scaled by the lower of volume and headroom
  -- and pass the three filters. Every biquad has a cascade and as many channels as the format.
  pub loudness_process-chain :
      (conf : AudioConf) (x : Loudness F) (b : Buffer) (c : ℕ) (m : Samples F)
      → All (IsFor (channel_count conf.channels)) (x.tpk1 ∷ x.tpk2 ∷ x.ths ∷ [])
      → c < channel_count conf.channels
      → conf.codec ≡ AudioCodec.raw_float32
      → b.size < 2 ^ 32
      → (let samples =
            column (b.offset / 4 + c) (channel_count conf.channels) (b.size / frame_size conf) in
          let louder = map (λ y. r.mul y (lower_volume r x)) (samples m) in
          samples (loudness_process r conf x b m).2 ≡ (
            if r.eq (lower_volume r x) (r.narrow (number 1))
            then samples m
            else if r.eq x.headroom (r.narrow (number 1))
            then louder
            else chain (rate_to_int conf.rate) c (x.tpk1 ∷ x.tpk2 ∷ x.ths ∷ []) louder))
  unfolding loudness_process run_biquads
  loudness_process-chain conf x b c m all less floats short =
      elim (Bool-cases (r.eq v (r.narrow (number 1)))) [
        | inl full ↦ rw full refl
        | inr lower ↦ elim (Bool-cases (r.eq x.headroom (r.narrow (number 1)))) [
          | inl no_headroom ↦ rw (lower, no_headroom) scaled
          | inr headroom ↦
              rw (lower, headroom)
                (run_biquads-chain (x.tpk1 ∷ x.tpk2 ∷ x.ths ∷ []) rate i n channels c
                    (scale_all r v (n * channels) i m) all less
                    (omega (arith, channel_count-le conf.channels))
                    (omega (arith, div-le_self b.size (frame_size conf)))
                  ∙ ap (chain rate c (x.tpk1 ∷ x.tpk2 ∷ x.ths ∷ [])) scaled)
        ]
      ]
    where
      v : F
      v = lower_volume r x

      rate : ℕ
      rate = rate_to_int conf.rate

      i : ℕ
      i = b.offset / 4

      n : ℕ
      n = b.size / frame_size conf

      channels : ℕ
      channels = channel_count conf.channels

      scaled :
          column (i + c) channels n (scale_all r v (n * channels) i m)
          ≡ map (λ y. r.mul y v) (column (i + c) channels n m)
      scaled = scale_all-column v n i channels c m less
