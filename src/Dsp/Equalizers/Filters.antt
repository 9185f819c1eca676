-- ===== src/Dsp/Equalizers/Filters.antt =====
-- The filters that the parametric equalizer has after they were set.
use libcornrow.Base.{
  Bool-cases, length, take, replicate, length-append, length-take, length-replicate, ◌-◌, ◌≡◌, refl,
  ◌⊎◌, inl, inr, true, List, [], ◌∷◌, map, arith,
}
use libcornrow.Audio.Types.{rate_to_int}
use libcornrow.Dsp.Numbers.{Double, Float}
use libcornrow.Dsp.Design.{Filter, filter_eq}
use libcornrow.Dsp.Biquad.{Biquad, new_biquad, update, set_filter}
use libcornrow.Dsp.Equalizers.{Peq, assign_filters, set_filters, filters}

module _ {F D : Type 0} ⦃d : Double D⦄ (r : Float F D) where
  -- A filter that was set: the one asked for, or one that the code takes for equal to it
  abbrev pub IsTaken : Filter F → Filter F → Type 0
  IsTaken t u = (u ≡ t) ⊎ (filter_eq r u t ≡ true)

  abbrev pub AreTaken : List (Filter F) → List (Filter F) → Type 0
  AreTaken [] [] = Unit
  AreTaken [] (u ∷ us) = ⊥
  AreTaken (t ∷ ts) [] = ⊥
  AreTaken (t ∷ ts) (u ∷ us) = IsTaken t u × AreTaken ts us

  set_filter-IsTaken : (t : Filter F) (s : Biquad F) → IsTaken t (set_filter r t s).filter
  unfolding set_filter update
  set_filter-IsTaken t s = elim (Bool-cases (filter_eq r s.filter t)) [
    | inl same ↦ rw same (inr same)
    | inr other ↦ rw other (inl refl)
  ]

  assign_filters-AreTaken :
      (ts : List (Filter F)) (ss : List (Biquad F))
      → length ss ≡ length ts
      → AreTaken ts (map (λ s. s.filter) (assign_filters r ts ss))
  unfolding assign_filters
  assign_filters-AreTaken [] [] e = tt
  assign_filters-AreTaken [] (s ∷ ss) e = absurd (omega (arith, e))
  assign_filters-AreTaken (t ∷ ts) [] e = absurd (omega (arith, e))
  assign_filters-AreTaken (t ∷ ts) (s ∷ ss) e =
      (set_filter-IsTaken t s, assign_filters-AreTaken ts ss (omega (arith, e)))

  -- After `setFilters`, whatever filters there were before, `filters` returns as many filters as were
  -- set, in the same order: each is the one that was set, or one that the code's comparison took for equal
  -- to it.
  pub filters-AreTaken :
      (ts : List (Filter F)) (x : Peq F) → AreTaken ts (filters r (set_filters r ts x))
  unfolding filters set_filters
  filters-AreTaken ts x = assign_filters-AreTaken ts _ (
      omega (
        arith,
        length-append (take (length ts) x.biquads) (replicate (length ts - length x.biquads) fresh),
        length-take (length ts) x.biquads,
        length-replicate (length ts - length x.biquads) fresh,
      ))
    where
      fresh : Biquad F
      fresh = new_biquad r 2 1 (rate_to_int x.conf.rate)
