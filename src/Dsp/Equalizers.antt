-- ===== src/Dsp/Equalizers.antt =====
-- src/audio/Peq.cpp and src/audio/Loudness.cpp. The floats of the buffer's storage are a parameter of
-- `onProcess`; `data` is an index into them. A frame size of 0 is undefined in the source, and with 2^32
-- floats or more the loop of the volume does not end, since its counter has 32 bits; the theorems are about the
-- other cases. The mutexes are left out.
pub mod Chain
pub mod Filters
use libcornrow.Base.{
  if◌then◌else◌, length, take, replicate, ℕ, zero, suc, ◌-◌, ◌*◌, ◌/◌, ◌%◌, ◌^◌, List, [], ◌∷◌,
  ◌++◌, map,
}
use libcornrow.Audio.Types.{rate_to_int, channel_count, AudioConf, no_conf, frame_size}
use libcornrow.Core.Buffer.{Buffer}
use libcornrow.Dsp.Numbers.{Double, ◌⊗◌, ◌⊘◌, number, Float, Samples, store}
use libcornrow.Dsp.Design.{FilterType, Filter}
use libcornrow.Dsp.Biquad.{Biquad, new_biquad, set_rate, set_filter, process}
use mathlib.Core.Option

pub record Peq (F : Type 0) : Type 0 where
  pub volume : F
  pub biquads : List (Biquad F)
  pub conf : AudioConf

pub record Loudness (F : Type 0) : Type 0 where
  pub headroom : F
  pub volume : F
  pub tpk1 : Biquad F
  pub tpk2 : Biquad F
  pub ths : Biquad F

module _ {F D : Type 0} ⦃d : Double D⦄ (r : Float F D) where
  abbrev one_float : F
  one_float = r.narrow (number 1)

  abbrev pub new_peq : Peq F
  new_peq = record { volume = one_float; biquads = []; conf = no_conf }

  unfoldable pub peq_set_volume : F → Peq F → Peq F
  peq_set_volume v x = record x { volume = v }

  -- The loop of `setFilters`; `at` does not throw, since there are as many biquads as filters.
  unfoldable pub assign_filters : List (Filter F) → List (Biquad F) → List (Biquad F)
  unfolding set_filter
  assign_filters [] ss = ss
  assign_filters (t ∷ ts) [] = []
  assign_filters (t ∷ ts) (s ∷ ss) = set_filter r t s ∷ assign_filters ts ss

  unfoldable pub set_filters : List (Filter F) → Peq F → Peq F
  unfolding assign_filters rate_to_int
  set_filters ts x =
      let n = length ts in
      let fresh = new_biquad r 2 1 (rate_to_int x.conf.rate) in
      record x {
        biquads = assign_filters ts (take n x.biquads ++ replicate (n - length x.biquads) fresh);
      }

  unfoldable pub filters : Peq F → List (Filter F)
  filters x = map (λ s. s.filter) x.biquads

  -- The loop of `Peq::onProcess`: every biquad in place, over frames of `channels` floats.
  unfoldable pub run_biquads :
      List (Biquad F) → ℕ → ℕ → ℕ → ℕ → Samples F → List (Biquad F) × Samples F
  unfolding set_rate process
  run_biquads [] rate i n channels m = ([], m)
  run_biquads (s ∷ ss) rate i n channels m =
      let (s', m') = process r (set_rate r rate s) i i n channels channels m in
      let (ss', m'') = run_biquads ss rate i n channels m' in (s' ∷ ss', m'')

  unfoldable pub peq_process :
      AudioConf → Peq F → Buffer → Samples F → AudioConf × Peq F × Samples F
  unfolding run_biquads frame_size channel_count rate_to_int
  peq_process conf x b m =
      let (ss, m') =
        run_biquads x.biquads (rate_to_int conf.rate) (b.offset / 4)
          (b.size / frame_size conf % 2 ^ 32) (channel_count conf.channels) m in
      (conf, record x { conf = conf; biquads = ss }, m')

  abbrev pub new_loudness : Loudness F
  new_loudness = record {
    headroom = one_float;
    volume = one_float;
    tpk1 = new_biquad r 2 1 44100;
    tpk2 = new_biquad r 2 1 44100;
    ths = new_biquad r 2 1 44100;
  }

  -- `phon` times a float literal
  abbrev level_gain : ℕ → D → F
  level_gain phon x = r.mul (r.narrow (number phon)) (r.narrow x)

  unfoldable pub set_level : ℕ → Loudness F → Loudness F
  unfolding set_filter
  set_level phon x = record x {
    tpk1 =
        set_filter r
          (record {
            type_of = FilterType.peak;
            f = r.narrow (d.literal 355 1);
            g = level_gain phon (d.literal 3 1);
            q = r.narrow (d.literal 56 2);
          })
          x.tpk1;
    tpk2 =
        set_filter r
          (record {
            type_of = FilterType.peak;
            f = r.narrow (number 100);
            g = level_gain phon (d.literal 225 3);
            q = r.narrow (d.literal 25 2);
          })
          x.tpk2;
    ths =
        set_filter r
          (record {
            type_of = FilterType.high_shelf;
            f = r.narrow (number 10000);
            g = level_gain phon (d.literal 225 3);
            q = r.narrow (d.literal 80 2);
          })
          x.ths;
    headroom = r.narrow (d.pow (number 10) (number phon ⊗ d.neg (d.literal 425 3) ⊘ number 20));
  }

  unfoldable pub set_volume : F → Loudness F → Loudness F
  set_volume v x = record x { volume = v }

  -- `data[i] *= volume` for `n` floats from `i` on
  unfoldable pub scale_all : F → ℕ → ℕ → Samples F → Samples F
  unfolding store
  scale_all v zero i m = m
  scale_all v (suc n) i m = scale_all v n (suc i) (store i (r.mul (m i) v) m)

  -- `std::min(m_volume, m_headroom)`
  abbrev pub lower_volume : Loudness F → F
  lower_volume x = if r.lt x.headroom x.volume then x.headroom else x.volume

  unfoldable pub loudness_process :
      AudioConf → Loudness F → Buffer → Samples F → AudioConf × Loudness F × Samples F
  unfolding set_rate process scale_all frame_size channel_count rate_to_int
  loudness_process conf x b m =
      let v = lower_volume x in
      let channels = channel_count conf.channels in
      let n = b.size / frame_size conf in
      let i = b.offset / 4 in
      let rate = rate_to_int conf.rate in
      let m1 = scale_all v (n * channels) i m in
      let (tpk1, m2) = process r (set_rate r rate x.tpk1) i i n channels channels m1 in
      let (tpk2, m3) = process r (set_rate r rate x.tpk2) i i n channels channels m2 in
      let (ths, m4) = process r (set_rate r rate x.ths) i i n channels channels m3 in
      if r.eq v one_float
      then (conf, x, m)
      else if r.eq x.headroom one_float
      then (conf, x, m1)
      else (conf, record x { tpk1 = tpk1; tpk2 = tpk2; ths = ths }, m4)
