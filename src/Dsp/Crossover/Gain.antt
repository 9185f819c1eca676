-- ===== src/Dsp/Crossover/Gain.antt =====
-- What the gains of the crossover do to a column of samples.
use libcornrow.Base.{
  if◌then◌else◌, if_true, if_false, Bool-cases, ℕ, zero, suc, ◌+◌, ◌*◌, ◌≤◌, ◌<◌, ◌≡◌, refl, sym,
  ap, ap₂, ◌∙◌, ◌≢◌, ◌⊎◌, inl, inr, Bool, true, false, List, [], ◌∷◌, map, arith,
}
use libcornrow.Dsp.Numbers.{Double, number, Float, Samples, store, store_at, store_apart}
use libcornrow.Dsp.Biquad.Columns.{column, column_ext}
use libcornrow.Dsp.Crossover.{scale_frames, apply_gain}

module _ {F D : Type 0} ⦃d : Double D⦄ (r : Float F D) where
  map_same : (xs : List F) → map (λ (x : F). x) xs ≡ xs
  map_same [] = refl
  map_same (x ∷ xs) = ap (◌∷◌ x) (map_same xs)

  map_if :
      (b : Bool) (gain : F) (xs : List F)
      → map (λ x. if b then r.mul x gain else x) xs ≡ (if b then map (λ x. r.mul x gain) xs else xs)
  map_if true gain xs = refl
  map_if false gain xs = map_same xs

  -- What a gain does to a sample
  abbrev pub gained : F → F → F
  gained gain x = if r.lt gain (r.narrow (number 1)) then r.mul x gain else x

  -- One round of the loop of a gain
  abbrev scaled : F → ℕ → Samples F → Samples F
  scaled gain p m =
      let m1 = store p (r.mul (m p) gain) m in store (suc p) (r.mul (m1 (suc p)) gain) m1

  scaled_other : (gain : F) (p q : ℕ) (m : Samples F) → q ≢ p → q ≢ suc p → scaled gain p m q ≡ m q
  scaled_other gain p q m h h' =
      let m1 = store p (r.mul (m p) gain) m in
      store_apart (suc p) q (r.mul (m1 (suc p)) gain) m1 h' ∙ store_apart p q (r.mul (m p) gain) m h

  scaled_at :
      (gain : F) (p c : ℕ) (m : Samples F)
      → c < 2
      → scaled gain p m (p + c) ≡ r.mul (m (p + c)) gain
  scaled_at gain p zero m h =
      let m1 = store p (r.mul (m p) gain) m in
      let e : p + 0 ≡ p = omega arith in
      rw e (
        store_apart (suc p) p (r.mul (m1 (suc p)) gain) m1 (λ x. omega (arith, x))
        ∙ store_at p (r.mul (m p) gain) m)
  scaled_at gain p (suc zero) m h =
      let m1 = store p (r.mul (m p) gain) m in
      let e : p + 1 ≡ suc p = omega arith in
      rw e (
        store_at (suc p) (r.mul (m1 (suc p)) gain) m1
        ∙ ap (λ x. r.mul x gain)
            (store_apart p (suc p) (r.mul (m p) gain) m (λ x. omega (arith, x))))
  scaled_at gain p (suc (suc c)) m h = absurd (omega arith)

  scale_other :
      (gain : F) (n p q : ℕ) (m : Samples F)
      → (q < p) ⊎ (p + n * 4 ≤ q)
      → scale_frames r gain n p m q ≡ m q
  unfolding scale_frames
  scale_other gain zero p q m a = refl
  scale_other gain (suc n) p q m a =
      scale_other gain n (p + 4) q (scaled gain p m) (ground (arith, a))
      ∙ scaled_other gain p q m (ground (arith, a)) (ground (arith, a))

  scale_between :
      (gain : F) (n p g j : ℕ) (m : Samples F)
      → 2 ≤ g
      → g < 4
      → scale_frames r gain n p m (p + g + j * 4) ≡ m (p + g + j * 4)
  unfolding scale_frames
  scale_between gain zero p g j m low high = refl
  scale_between gain (suc n) p g zero m low high =
      scale_other gain n (p + 4) (p + g + 0 * 4) (scaled gain p m) (inl (omega arith))
      ∙ scaled_other gain p (p + g + 0 * 4) m (λ e. omega (arith, e)) (λ e. omega (arith, e))
  scale_between gain (suc n) p g (suc j) m low high =
      let e : p + g + suc j * 4 ≡ p + 4 + g + j * 4 = omega arith in
      rw e (
        scale_between gain n (p + 4) g j (scaled gain p m) low high
        ∙ scaled_other gain p (p + 4 + g + j * 4) m (λ x. omega (arith, x)) (λ x. omega (arith, x)))

  scale_column :
      (gain : F) (n p c : ℕ) (m : Samples F)
      → c < 2
      → column (p + c) 4 n (scale_frames r gain n p m)
        ≡ map (λ x. r.mul x gain) (column (p + c) 4 n m)
  unfolding scale_frames column
  scale_column gain zero p c m h = refl
  scale_column gain (suc n) p c m h =
      let e : p + c + 4 ≡ p + 4 + c = omega arith in
      ap₂ ◌∷◌
        (scale_other gain n (p + 4) (p + c) (scaled gain p m) (inl (omega arith))
          ∙ scaled_at gain p c m h)
        (rw e (
          scale_column gain n (p + 4) c (scaled gain p m) h
          ∙ ap (map (λ x. r.mul x gain)) (
              column_ext (p + 4 + c) 4 n (scaled gain p m) m λ j less.
                scaled_other gain p (p + 4 + c + j * 4) m (λ x. omega (arith, x))
                  (λ x. omega (arith, x)))))

  pub gain_column :
      (gain : F) (n p c : ℕ) (m : Samples F)
      → c < 2
      → column (p + c) 4 n (apply_gain r gain n p m) ≡ map (gained gain) (column (p + c) 4 n m)
  unfolding apply_gain
  gain_column gain n p c m h = elim (Bool-cases (r.lt gain (r.narrow (number 1)))) [
    | inl lower ↦
        ap (column (p + c) 4 n) (if_true _ _ lower)
        ∙ scale_column gain n p c m h
        ∙ sym (
            map_if (r.lt gain (r.narrow (number 1))) gain (column (p + c) 4 n m)
            ∙ if_true _ _ lower)
    | inr higher ↦
        ap (column (p + c) 4 n) (if_false _ _ higher)
        ∙ sym (
            map_if (r.lt gain (r.narrow (number 1))) gain (column (p + c) 4 n m)
            ∙ if_false _ _ higher)
  ]

  -- Where two channels of four start at `p`, the other two keep what they have.
  pub gain_between :
      (gain : F) (n p g j : ℕ) (m : Samples F)
      → 2 ≤ g
      → g < 4
      → apply_gain r gain n p m (p + g + j * 4) ≡ m (p + g + j * 4)
  unfolding apply_gain
  gain_between gain n p g j m low high = elim (Bool-cases (r.lt gain (r.narrow (number 1)))) [
    | inl lower ↦ rw lower (scale_between gain n p g j m low high)
    | inr higher ↦ rw higher refl
  ]

  pub gain_other :
      (gain : F) (n p q : ℕ) (m : Samples F)
      → (q < p) ⊎ (p + n * 4 ≤ q)
      → apply_gain r gain n p m q ≡ m q
  unfolding apply_gain
  gain_other gain n p q m a = elim (Bool-cases (r.lt gain (r.narrow (number 1)))) [
    | inl lower ↦ rw lower (scale_other gain n p q m a)
    | inr higher ↦ rw higher refl
  ]
