-- ===== src/Dsp/Biquad/Columns.antt =====
-- The samples of a channel as a column of the storage, and what one cascade of a biquad does to it.
use libcornrow.Base.{
  length, get_elem?, get_elem?_bound, ℕ, zero, suc, ◌+◌, ◌*◌, ◌≤◌, ◌<◌, ◌≡◌, refl, ap, ap₂, subst,
  ◌∙◌, ◌⊎◌, inl, some, List, [], ◌∷◌, arith,
}
use libcornrow.Dsp.Numbers.{Double, Float, Samples, store, store_at, store_apart}
use libcornrow.Dsp.Design.{Coeffs}
use libcornrow.Dsp.Biquad.{History, step, run_channels}

module _ {F : Type 0} where
  -- `n` samples from `p` on, `s` apart
  unfoldable pub column : ℕ → ℕ → ℕ → Samples F → List F
  column p s zero m = []
  column p s (suc n) m = m p ∷ column (p + s) s n m

  pub column_ext :
      (p s n : ℕ) (m m' : Samples F)
      → ((j : ℕ) → j < n → m (p + j * s) ≡ m' (p + j * s))
      → column p s n m ≡ column p s n m'
  unfolding column
  column_ext p s zero m m' h = refl
  column_ext p s (suc n) m m' h =
      ap₂ ◌∷◌ (let e : p + 0 * s ≡ p = omega arith in subst (λ x. m x ≡ m' x) e (h 0 (omega arith)))
        (column_ext (p + s) s n m m' λ j less.
          let e : p + suc j * s ≡ p + s + j * s = omega arith in
          subst (λ x. m x ≡ m' x) e (h (suc j) (omega arith)))

module _ {F D : Type 0} ⦃d : Double D⦄ (r : Float F D) where
  -- The recurrence of a biquad on the samples of one channel, from a history on.
  unfoldable pub response : Coeffs F → History F → List F → List F
  unfolding step
  response k h [] = []
  response k h (x ∷ xs) = (step r k h x).0 ∷ response k (step r k h x).1 xs

  pub length-run_channels :
      (k : Coeffs F) (hs : List (History F)) (i o : ℕ) (m : Samples F)
      → length (run_channels r k hs i o m).0 ≡ length hs
  unfolding run_channels
  length-run_channels k [] i o m = refl
  length-run_channels k (h ∷ hs) i o m =
      ap suc (length-run_channels k hs (suc i) (suc o) (store o (step r k h (m i)).0 m))

  -- A frame writes nothing outside of its channels.
  pub channels_other :
      (k : Coeffs F) (hs : List (History F)) (i o q : ℕ) (m : Samples F)
      → (q < o) ⊎ (o + length hs ≤ q)
      → (run_channels r k hs i o m).1 q ≡ m q
  unfolding run_channels
  channels_other k [] i o q m a = refl
  channels_other k (h ∷ hs) i o q m a =
      channels_other k hs (suc i) (suc o) q (store o (step r k h (m i)).0 m) (ground (arith, a))
      ∙ store_apart o q (step r k h (m i)).0 m (ground (arith, a))

  -- Where no read is behind a write of the same frame, each channel makes one step.
  pub channels_step :
      (k : Coeffs F) (hs : List (History F)) (i o c : ℕ) (h : History F) (m : Samples F)
      → get_elem? hs c ≡ some h
      → (o ≤ i) ⊎ (i + length hs ≤ o)
      → ((run_channels r k hs i o m).1 (o + c) ≡ (step r k h (m (i + c))).0)
        × (get_elem? (run_channels r k hs i o m).0 c ≡ some (step r k h (m (i + c))).1)
  unfolding run_channels
  channels_step k [] i o c h m e a = cc e
  channels_step k (h' ∷ hs) i o zero h m e a =
      let same : h ≡ h' = cc e in
      let e0 : o + 0 ≡ o = omega arith in
      let e1 : i + 0 ≡ i = omega arith in
      let y = (step r k h' (m i)).0 in
      rw (e0, e1, same)
        (
          channels_other k hs (suc i) (suc o) o (store o y m) (inl (omega arith)) ∙ store_at o y m,
          refl,
        )
  channels_step k (h' ∷ hs) i o (suc c) h m e a =
      let y = (step r k h' (m i)).0 in
      let e0 : o + suc c ≡ suc o + c = omega arith in
      let e1 : i + suc c ≡ suc i + c = omega arith in
      let bound = get_elem?_bound hs c e in
      let read : store o y m (suc i + c) ≡ m (suc i + c) =
        store_apart o (suc i + c) y m (ground (arith, a, bound)) in
      rw (e0, e1)
        (subst
          (λ x.
            ((run_channels r k hs (suc i) (suc o) (store o y m)).1 (suc o + c) ≡ (step r k h x).0)
            × (get_elem? (run_channels r k hs (suc i) (suc o) (store o y m)).0 c
                ≡ some (step r k h x).1))
          read (channels_step k hs (suc i) (suc o) c h (store o y m) e (ground (arith, a))))
