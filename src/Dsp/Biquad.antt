-- ===== src/Dsp/Biquad.antt =====
-- include/TBiquad.h and src/audio/TBiquad.cpp (the instance `TBiquad<float, float>`, of which scaleDown does
-- nothing). The assertion in `process`, that a frame of the input is as long as the history has channels,
-- holds in the calls of the crossover and of the equalizers, and is not a step of the model: of other calls,
-- which end a build with assertions, it says nothing.
pub mod Columns
pub mod Filtered
use libcornrow.Base.{
  leb, ◌==◌, if◌then◌else◌, length, take, replicate, ℕ, zero, suc, ◌+◌, ◌-◌, ◌%◌, ◌^◌, Bool, not,
  ◌&&◌, Option, List, [], ◌∷◌, ◌++◌,
}
use libcornrow.Dsp.Numbers.{Double, Float, Samples, store}
use libcornrow.Dsp.Design.{
  Filter, Coeffs, nought, no_filter, is_valid_filter, filter_eq, new_coeffs,
}
use mathlib.Core.Option

pub record History (F : Type 0) : Type 0 where
  pub x1 : F
  pub x2 : F
  pub y1 : F
  pub y2 : F

pub record Biquad (F : Type 0) : Type 0 where
  pub channel_count : ℕ
  pub rate : ℕ
  pub filter : Filter F
  pub coeffs : Coeffs F
  pub history : List (List (History F))

module _ {F D : Type 0} ⦃d : Double D⦄ (r : Float F D) where
  abbrev pub new_history : History F
  new_history = record { x1 = nought r; x2 = nought r; y1 = nought r; y2 = nought r }

  -- `TBiquad(channelCount, cascadeCount, rate)`
  abbrev pub new_biquad : ℕ → ℕ → ℕ → Biquad F
  new_biquad channels cascades rate = record {
    channel_count = channels;
    rate = rate;
    filter = no_filter r;
    coeffs = record { b0 = nought r; b1 = nought r; b2 = nought r; a1 = nought r; a2 = nought r };
    history = replicate cascades (replicate channels new_history);
  }

  unfoldable pub set_cascade_count : ℕ → Biquad F → Biquad F
  set_cascade_count n s = record s {
    history =
        take n s.history
        ++ replicate (n - length s.history) (replicate s.channel_count new_history);
  }

  unfoldable pub update : Biquad F → Biquad F
  unfolding new_coeffs
  update s = record s { coeffs = Option.get_or (new_coeffs r s.rate s.filter) s.coeffs }

  unfoldable pub set_rate : ℕ → Biquad F → Biquad F
  unfolding update
  set_rate rate s = if s.rate == rate then s else update (record s { rate = rate })

  unfoldable pub set_filter : Filter F → Biquad F → Biquad F
  unfolding update filter_eq
  set_filter t s = if filter_eq r s.filter t then s else update (record s { filter = t })

  -- The test `m_rate >= 0` holds of every unsigned number.
  unfoldable pub is_valid : Biquad F → Bool
  unfolding is_valid_filter
  is_valid s = leb 0 s.rate && is_valid_filter r s.filter

  -- One sample of one channel
  unfoldable pub step : Coeffs F → History F → F → F × History F
  step k h x =
      let acc =
        r.sub
          (r.sub
            (r.add (r.add (r.add (nought r) (r.mul k.b0 x)) (r.mul k.b1 h.x1)) (r.mul k.b2 h.x2))
            (r.mul k.a1 h.y1))
          (r.mul k.a2 h.y2) in
      (acc, record { x1 = x; x2 = h.x1; y1 = acc; y2 = h.y1 })

  -- The loops of `process`: over the channels, the frames and the cascades. `i` and `o` are where `in`
  -- and `out` point, which a frame moves by the spacings.
  unfoldable pub run_channels :
      Coeffs F → List (History F) → ℕ → ℕ → Samples F → List (History F) × Samples F
  unfolding step store
  run_channels k [] i o m = ([], m)
  run_channels k (h ∷ hs) i o m =
      let (y, h') = step k h (m i) in
      let (hs', m') = run_channels k hs (suc i) (suc o) (store o y m) in (h' ∷ hs', m')

  unfoldable pub run_frames :
      Coeffs F → List (History F) → ℕ → ℕ → ℕ → ℕ → ℕ → Samples F → List (History F) × Samples F
  unfolding run_channels
  run_frames k hs zero i o is os m = (hs, m)
  run_frames k hs (suc n) i o is os m =
      let (hs', m') = run_channels k hs i o m in run_frames k hs' n (i + is) (o + os) is os m'

  unfoldable pub run_cascades :
      Coeffs F
      → List (List (History F))
      → ℕ
      → ℕ
      → ℕ
      → ℕ
      → ℕ
      → Samples F
      → List (List (History F)) × Samples F
  unfolding run_frames
  run_cascades k [] n i o is os m = ([], m)
  run_cascades k (hs ∷ hss) n i o is os m =
      let (hs', m') = run_frames k hs n i o is os m in
      let (hss', m'') = run_cascades k hss n o o os os m' in (hs' ∷ hss', m'')

  -- `process`: its parameters cut the frame count to 32 bits and the spacings to 8.
  unfoldable pub process : Biquad F → ℕ → ℕ → ℕ → ℕ → ℕ → Samples F → Biquad F × Samples F
  unfolding is_valid run_cascades
  process s i o n is os m =
      let (hss, m') =
        run_cascades s.coeffs s.history (n % 2 ^ 32) i o (is % 2 ^ 8) (os % 2 ^ 8) m in
      if not (is_valid s) then (s, m) else (record s { history = hss }, m')
