-- ===== src/Base/Texts.antt =====
-- Texts as lists of bytes, compared as `std::string` compares them.
use Prim.Native.Nat.{ℕ}
use Prim.Native.String.{String}
use Prim.Native.Char.{code}
use mathlib.Core.Path.{◌≡◌, refl, ap₂}
use mathlib.Core.Bool.{Bool, true, false, ◌&&◌}
use mathlib.Core.List.{List, [], ◌∷◌}
use native.Mathlib.Omega.{arith}
use libcornrow.Base.Tests.{ltb, ◌==◌, if◌then◌else◌}

abbrev pub Text : Type 0
Text = List ℕ

abbrev pub codes : String → Text
codes String.[] = []
codes (String.◌∷◌ c s) = code c ∷ codes s

abbrev pub text_eq : Text → Text → Bool
text_eq [] [] = true
text_eq [] (b ∷ ys) = false
text_eq (a ∷ xs) [] = false
text_eq (a ∷ xs) (b ∷ ys) = (a == b) && text_eq xs ys

abbrev pub text_lt : Text → Text → Bool
text_lt xs [] = false
text_lt [] (b ∷ ys) = true
text_lt (a ∷ xs) (b ∷ ys) = if ltb a b then true else if a == b then text_lt xs ys else false

-- `s.rfind(prefix, 0) == 0`
abbrev pub starts_with : Text → Text → Bool
starts_with [] s = true
starts_with (a ∷ xs) [] = false
starts_with (a ∷ xs) (b ∷ ys) = (a == b) && starts_with xs ys

pub text_eq_refl : (s : Text) → text_eq s s ≡ true
text_eq_refl [] = refl
text_eq_refl (a ∷ xs) =
    let e : (a == a) ≡ true = ground arith in ap₂ (λ p q. p && q) e (text_eq_refl xs)

pub text_eq→≡ : (s t : Text) → text_eq s t ≡ true → s ≡ t
text_eq→≡ [] [] h = refl
text_eq→≡ [] (b ∷ ys) h = cc
text_eq→≡ (a ∷ xs) [] h = cc
text_eq→≡ (a ∷ xs) (b ∷ ys) h =
    let heads : a ≡ b = ground (arith, h) in ap₂ ◌∷◌ heads (text_eq→≡ xs ys (ground (arith, h)))
