-- ===== src/Dsp/Crossover.antt =====
-- src/audio/Crossover.cpp. The floats of the buffer's storage are a parameter of `onProcess`: `inData` and
-- `outData` are indices into them. The mutex is left out. With 2^32 frames or more the loop of a gain does not
-- end, since its counter has 32 bits; the model of it counts on.
pub mod Gain
pub mod Quad
use libcornrow.Base.{if◌then◌else◌, mul_size, ℕ, zero, suc, ◌+◌, ◌/◌, Bool, false, not}
use libcornrow.Audio.Types.{AudioConf, frame_size}
use libcornrow.Audio.Types.Channels.{quad}
use libcornrow.Core.Buffer.{Allocator, Buffer, acquire, commit}
use libcornrow.Dsp.Numbers.{Double, ◌⊗◌, ◌⊘◌, number, Float, Samples, store}
use libcornrow.Dsp.Design.{FilterType, Filter, is_valid_filter, filter_eq}
use libcornrow.Dsp.Biquad.{Biquad, new_biquad, set_cascade_count, set_filter, process}

pub record Crossover (F : Type 0) : Type 0 where
  pub filter : Filter F
  pub lfe : Bool
  pub lp : Biquad F
  pub hp : Biquad F
  pub lfe_lp : Biquad F
  pub lfe_hp : Biquad F
  pub low_gain : F
  pub high_gain : F

module _ {F D : Type 0} ⦃d : Double D⦄ (r : Float F D) where
  abbrev pub pass_filter : FilterType → F → F → Filter F
  pass_filter t f q = record { type_of = t; f = f; g = r.narrow (number 0); q = q }

  abbrev half : D
  half = d.literal 5 1

  -- A filter of second order (LR2), of which the high signal is inverted
  abbrev is_lr2 : Filter F → Bool
  is_lr2 t = d.le (r.widen t.q) half

  abbrev pub low_gain_of : Filter F → F
  low_gain_of t = r.narrow (
      if d.lt (number 0) (r.widen t.g)
      then d.pow (number 10) (d.neg (r.widen t.g) ⊘ number 20)
      else number 1)

  abbrev pub high_gain_of : Filter F → F
  high_gain_of t = r.narrow (
      if d.lt (r.widen t.g) (number 0)
      then d.pow (number 10) (r.widen t.g ⊘ number 20)
      else number 1)

  unfoldable pub update_crossover : Crossover F → Crossover F
  unfolding set_filter set_cascade_count
  update_crossover x =
      let t = x.filter in
      let cascades = if is_lr2 t then 1 else 2 in
      record x {
        low_gain = low_gain_of t;
        high_gain =
            if is_lr2 t
            then r.narrow (r.widen (high_gain_of t) ⊗ d.neg (number 1))
            else high_gain_of t;
        lp =
            set_filter r (pass_filter FilterType.low_pass t.f t.q)
              (set_cascade_count r cascades x.lp);
        hp =
            set_filter r (pass_filter FilterType.high_pass t.f t.q)
              (set_cascade_count r cascades x.hp);
      }

  unfoldable pub update_lfe : Crossover F → Crossover F
  unfolding set_filter
  update_lfe x = record x {
    lfe_lp =
        set_filter r (pass_filter FilterType.low_pass (r.narrow (number 80)) (r.narrow d.sqrt1_2))
          x.lfe_lp;
    lfe_hp =
        set_filter r (pass_filter FilterType.high_pass (r.narrow (number 80)) (r.narrow d.sqrt1_2))
          x.lfe_hp;
  }

  unfoldable pub new_crossover : Crossover F
  unfolding update_lfe update_crossover
  new_crossover = update_lfe (
      update_crossover (record {
        filter = record {
          type_of = FilterType.crossover;
          f = r.narrow (number 3000);
          g = r.narrow (number 0);
          q = r.narrow half;
        };
        lfe = false;
        lp = new_biquad r 2 2 44100;
        hp = new_biquad r 2 2 44100;
        lfe_lp = new_biquad r 1 2 44100;
        lfe_hp = new_biquad r 2 2 44100;
        low_gain = r.narrow (number 1);
        high_gain = r.narrow (number 1);
      }))

  -- `setFilter`
  unfoldable pub set_crossover : Filter F → Crossover F → Crossover F
  unfolding update_crossover is_valid_filter filter_eq
  set_crossover t x =
      let y = record x { filter = t } in
      if filter_eq r x.filter t then x else if is_valid_filter r t then update_crossover y else y

  unfoldable pub set_lfe : Bool → Crossover F → Crossover F
  unfolding update_lfe
  set_lfe enable x = update_lfe (record x { lfe = enable })

  -- The loop of a gain, over frames of four channels of which it scales two
  unfoldable pub scale_frames : F → ℕ → ℕ → Samples F → Samples F
  unfolding store
  scale_frames gain zero p m = m
  scale_frames gain (suc n) p m =
      let m1 = store p (r.mul (m p) gain) m in
      scale_frames gain n (p + 4) (store (suc p) (r.mul (m1 (suc p)) gain) m1)

  unfoldable pub apply_gain : F → ℕ → ℕ → Samples F → Samples F
  unfolding scale_frames
  apply_gain gain n p m = if r.lt gain (r.narrow (number 1)) then scale_frames gain n p m else m

  -- The part of `onProcess` under the mutex: `i` and `o` are `inData` and `outData`.
  unfoldable pub split_bands : Crossover F → ℕ → ℕ → ℕ → Samples F → Crossover F × Samples F
  unfolding process apply_gain
  split_bands x i o n m =
      let (lp, m1) = process r x.lp i o n 2 4 m in
      let m2 = apply_gain x.low_gain n o m1 in
      let (hp, m3) = process r x.hp i (o + 2) n 2 4 m2 in
      let m4 = apply_gain x.high_gain n (o + 2) m3 in (record x { lp = lp; hp = hp }, m4)

  unfoldable pub on_process :
      Allocator
      → AudioConf
      → Crossover F
      → Buffer
      → Samples F
      → AudioConf × Crossover F × Buffer × Samples F
  unfolding split_bands acquire commit is_valid_filter frame_size
  on_process a conf x b m =
      let b1 = acquire a (mul_size b.size 2) b in
      let (x', m') =
        split_bands x (b1.offset / 4) (b1.acquired_offset / 4) (b1.size / frame_size conf) m in
      if not (is_valid_filter r x.filter)
      then (conf, x, b, m)
      else (record conf { channels = quad }, x', commit (mul_size b1.size 2) b1, m')
