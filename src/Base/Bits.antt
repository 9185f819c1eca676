-- ===== src/Base/Bits.antt =====
-- Laws of the masks that the code uses, over a small range: every value is checked by evaluation.
use Prim.Native.Nat.{ℕ, zero, suc, ◌*◌, ◌/◌, ◌%◌, ◌<◌, bit_and}
use mathlib.Core.Path.{◌≡◌, refl}
use mathlib.Core.Bool.{Bool, true, ◌&&◌}
use native.Mathlib.Omega.{arith}
use libcornrow.Base.Tests.{◌==◌, ==_iff}

unfoldable pub all_below : ℕ → (ℕ → Bool) → Bool
all_below zero p = true
all_below (suc n) p = p n && all_below n p

pub all_below_lem : (n : ℕ) (p : ℕ → Bool) → all_below n p ≡ true → (x : ℕ) → x < n → p x ≡ true
unfolding all_below
all_below_lem zero p h x lt = absurd (omega arith)
all_below_lem (suc n) p h x lt = ground (arith, all_below_lem n p (ground arith) x)

-- A mask that keeps the bits above the lowest ones, or the lowest ones, of a byte.
agree : (n : ℕ) (f g : ℕ → ℕ) → all_below n (λ x. f x == g x) ≡ true → (x : ℕ) → x < n → f x ≡ g x
agree n f g h x lt = (==_iff (f x) (g x)).0 (all_below_lem n (λ x. f x == g x) h x lt)

pub mask_fc : (x : ℕ) → x < 256 → bit_and x 0xfc ≡ x / 4 * 4
unfolding all_below
mask_fc = agree 256 _ _ refl

pub mask_f0 : (x : ℕ) → x < 256 → bit_and x 0xf0 ≡ x / 16 * 16
unfolding all_below
mask_f0 = agree 256 _ _ refl

pub mask_c0 : (x : ℕ) → x < 256 → bit_and x 0xc0 ≡ x / 64 * 64
unfolding all_below
mask_c0 = agree 256 _ _ refl

pub mask_3f : (x : ℕ) → x < 256 → bit_and x 0x3f ≡ x % 64
unfolding all_below
mask_3f = agree 256 _ _ refl

pub mask_0f : (x : ℕ) → x < 256 → bit_and x 0x0f ≡ x % 16
unfolding all_below
mask_0f = agree 256 _ _ refl

pub mask_07 : (x : ℕ) → x < 256 → bit_and x 0x07 ≡ x % 8
unfolding all_below
mask_07 = agree 256 _ _ refl

pub mask_03 : (x : ℕ) → x < 256 → bit_and x 0x03 ≡ x % 4
unfolding all_below
mask_03 = agree 256 _ _ refl

pub mask_30 : (x : ℕ) → x < 64 → bit_and x 0x30 ≡ x / 16 * 16
unfolding all_below
mask_30 = agree 64 _ _ refl

pub mask_3c : (x : ℕ) → x < 64 → bit_and x 0x3c ≡ x / 4 * 4
unfolding all_below
mask_3c = agree 64 _ _ refl
