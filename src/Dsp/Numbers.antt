-- ===== src/Dsp/Numbers.antt =====
-- What the filters do with `float` (`F`) and `double` (`D`). No law of arithmetic is used.
use libcornrow.Base.{◌==◌, if◌then◌else◌, ℕ, ◌≡◌, ◌≢◌, Bool, arith}

pub record Double (D : Type 0) : Type 0 where
  pub add : D → D → D
  pub sub : D → D → D
  pub mul : D → D → D
  pub div : D → D → D
  pub neg : D → D
  pub sin : D → D
  pub cos : D → D
  pub sqrt : D → D
  pub pow : D → D → D
  pub pi : D
  pub sqrt1_2 : D
  -- `literal n k` is n / 10 ^ k.
  pub literal : ℕ → ℕ → D
  pub le : D → D → Bool
  pub lt : D → D → Bool
  pub eq : D → D → Bool

infixl 60 ◌⊕◌ ◌⊖◌
infixl 70 ◌⊗◌ ◌⊘◌
module _ {D : Type 0} ⦃d : Double D⦄ where
  abbrev pub ◌⊕◌ : D → D → D
  ◌⊕◌ = d.add

  abbrev pub ◌⊖◌ : D → D → D
  ◌⊖◌ = d.sub

  abbrev pub ◌⊗◌ : D → D → D
  ◌⊗◌ = d.mul

  abbrev pub ◌⊘◌ : D → D → D
  ◌⊘◌ = d.div

  abbrev pub number : ℕ → D
  number n = d.literal n 0

-- `narrow` rounds a double; a float is widened where an expression has a double.
pub record Float (F D : Type 0) : Type 0 where
  pub add : F → F → F
  pub sub : F → F → F
  pub mul : F → F → F
  pub eq : F → F → Bool
  pub lt : F → F → Bool
  pub narrow : D → F
  pub widen : F → D

-- The floats that a pointer to `float` reaches, by their index in the storage.
abbrev pub Samples : Type 0 → Type 0
Samples F = ℕ → F

module _ {F : Type 0} where
  unfoldable pub store : ℕ → F → Samples F → Samples F
  store i x m k = if k == i then x else m k

  pub store_at : (i : ℕ) (x : F) (m : Samples F) → store i x m i ≡ x
  unfolding store
  store_at i x m = ground arith

  pub store_apart : (i k : ℕ) (x : F) (m : Samples F) → k ≢ i → store i x m k ≡ m k
  unfolding store
  store_apart i k x m h = ground (arith, h)
