-- ===== src/Dsp/Design.antt =====
-- `Filter` of include/Types.h, and the coefficients that `TBiquad::update` of src/audio/TBiquad.cpp makes of
-- it (scaleUp rounds to a float).
use libcornrow.Base.{◌==◌, ℕ, Bool, not, ◌&&◌, Option, none, some}
use libcornrow.Dsp.Numbers.{Double, ◌⊕◌, ◌⊖◌, ◌⊗◌, ◌⊘◌, number, Float}

pub data FilterType : Type 0 where
  invalid peak low_pass high_pass low_shelf high_shelf all_pass crossover : FilterType

abbrev pub filter_value : FilterType → ℕ
filter_value FilterType.invalid = 0
filter_value FilterType.peak = 1
filter_value FilterType.low_pass = 2
filter_value FilterType.high_pass = 3
filter_value FilterType.low_shelf = 4
filter_value FilterType.high_shelf = 5
filter_value FilterType.all_pass = 6
filter_value FilterType.crossover = 7

pub record Filter (F : Type 0) : Type 0 where
  pub type_of : FilterType
  pub f : F
  pub g : F
  pub q : F

pub record Coeffs (F : Type 0) : Type 0 where
  pub b0 : F
  pub b1 : F
  pub b2 : F
  pub a1 : F
  pub a2 : F

module _ {F D : Type 0} ⦃d : Double D⦄ (r : Float F D) where
  abbrev pub nought : F
  nought = r.narrow (number 0)

  abbrev pub no_filter : Filter F
  no_filter = record { type_of = FilterType.invalid; f = nought; g = nought; q = nought }

  unfoldable pub is_valid_filter : Filter F → Bool
  is_valid_filter s =
      not (filter_value s.type_of == 0)
      && d.le (number 20) (r.widen s.f)
      && d.le (r.widen s.f) (number 20000)
      && not (d.eq (r.widen s.q) (number 0))

  unfoldable pub filter_eq : Filter F → Filter F → Bool
  filter_eq s t =
      (filter_value s.type_of == filter_value t.type_of)
      && r.eq s.f t.f
      && r.eq s.g t.g
      && r.eq s.q t.q

  abbrev coeffs_of : D → D → D → D → D → Coeffs F
  coeffs_of b0 b1 b2 a1 a2 = record {
    b0 = r.narrow b0;
    b1 = r.narrow b1;
    b2 = r.narrow b2;
    a1 = r.narrow a1;
    a2 = r.narrow a2;
  }

  -- `A`, `w0` and `alpha` of `update`
  abbrev amplitude : Filter F → D
  amplitude s = d.pow (number 10) (r.widen s.g ⊘ number 40)

  abbrev omega0 : ℕ → Filter F → D
  omega0 rate s = number 2 ⊗ d.pi ⊗ r.widen s.f ⊘ number rate

  abbrev alpha_of : ℕ → Filter F → D
  alpha_of rate s = d.sin (omega0 rate s) ⊗ d.literal 5 1 ⊘ r.widen s.q

  unfoldable pub peak_coeffs : ℕ → Filter F → Coeffs F
  peak_coeffs rate s =
      let a = amplitude s in
      let w0 = omega0 rate s in
      let alpha = alpha_of rate s in
      let alpha1 = alpha ⊗ a in
      let alpha2 = alpha ⊘ a in
      let a0 = number 1 ⊕ alpha2 in
      let b1 = d.neg (number 2) ⊗ d.cos w0 ⊘ a0 in
      coeffs_of ((number 1 ⊕ alpha1) ⊘ a0) b1 ((number 1 ⊖ alpha1) ⊘ a0) b1
        ((number 1 ⊖ alpha2) ⊘ a0)

  unfoldable pub low_pass_coeffs : ℕ → Filter F → Coeffs F
  low_pass_coeffs rate s =
      let w0 = omega0 rate s in
      let alpha = alpha_of rate s in
      let a0 = number 1 ⊕ alpha in
      let b1 = (number 1 ⊖ d.cos w0) ⊘ a0 in
      let b0 = b1 ⊗ d.literal 5 1 in
      coeffs_of b0 b1 b0 (d.neg (number 2) ⊗ d.cos w0 ⊘ a0) ((number 1 ⊖ alpha) ⊘ a0)

  unfoldable pub high_pass_coeffs : ℕ → Filter F → Coeffs F
  high_pass_coeffs rate s =
      let w0 = omega0 rate s in
      let alpha = alpha_of rate s in
      let a0 = number 1 ⊕ alpha in
      let b1 = d.neg (number 1 ⊕ d.cos w0) ⊘ a0 in
      let b0 = b1 ⊗ d.neg (d.literal 5 1) in
      coeffs_of b0 b1 b0 (d.neg (number 2) ⊗ d.cos w0 ⊘ a0) ((number 1 ⊖ alpha) ⊘ a0)

  unfoldable pub low_shelf_coeffs : ℕ → Filter F → Coeffs F
  low_shelf_coeffs rate s =
      let a = amplitude s in
      let c = d.cos (omega0 rate s) in
      let root = number 2 ⊗ d.sqrt a ⊗ alpha_of rate s in
      let up = a ⊕ number 1 in
      let down = a ⊖ number 1 in
      let a0 = up ⊕ down ⊗ c ⊕ root in
      coeffs_of (a ⊗ (up ⊖ down ⊗ c ⊕ root) ⊘ a0) (number 2 ⊗ a ⊗ (down ⊖ up ⊗ c) ⊘ a0)
        (a ⊗ (up ⊖ down ⊗ c ⊖ root) ⊘ a0) (d.neg (number 2) ⊗ (down ⊕ up ⊗ c) ⊘ a0)
        ((up ⊕ down ⊗ c ⊖ root) ⊘ a0)

  unfoldable pub high_shelf_coeffs : ℕ → Filter F → Coeffs F
  high_shelf_coeffs rate s =
      let a = amplitude s in
      let c = d.cos (omega0 rate s) in
      let root = number 2 ⊗ d.sqrt a ⊗ alpha_of rate s in
      let up = a ⊕ number 1 in
      let down = a ⊖ number 1 in
      let a0 = up ⊖ down ⊗ c ⊕ root in
      coeffs_of (a ⊗ (up ⊕ down ⊗ c ⊕ root) ⊘ a0) (d.neg (number 2) ⊗ a ⊗ (down ⊕ up ⊗ c) ⊘ a0)
        (a ⊗ (up ⊕ down ⊗ c ⊖ root) ⊘ a0) (number 2 ⊗ (down ⊖ up ⊗ c) ⊘ a0)
        ((up ⊖ down ⊗ c ⊖ root) ⊘ a0)

  unfoldable pub new_coeffs : ℕ → Filter F → Option (Coeffs F)
  unfolding peak_coeffs low_pass_coeffs high_pass_coeffs low_shelf_coeffs high_shelf_coeffs
  new_coeffs rate s = of_type s.type_of
    where
      of_type : FilterType → Option (Coeffs F)
      of_type FilterType.peak = some (peak_coeffs rate s)
      of_type FilterType.low_pass = some (low_pass_coeffs rate s)
      of_type FilterType.high_pass = some (high_pass_coeffs rate s)
      of_type FilterType.low_shelf = some (low_shelf_coeffs rate s)
      of_type FilterType.high_shelf = some (high_shelf_coeffs rate s)
      of_type FilterType.invalid = none
      of_type FilterType.all_pass = none
      of_type FilterType.crossover = none
