-- ===== src/Base/Memory.antt =====
-- Memory as a list of bytes: `slice` reads a range, `overwrite` is a `memcpy` into it.
use Prim.Native.Nat.{ℕ, zero, suc, ◌+◌, ◌-◌, ◌≤◌, ◌<◌, min}
use mathlib.Core.Path.{◌≡◌, refl, ap}
use mathlib.Core.Bool.{◌&&◌}
use mathlib.Core.List.{List, [], ◌∷◌, ◌++◌}
use mathlib.Core.Option.{Option, none, some}
use mathlib.Core.Logic.{◌⊎◌}
use native.Mathlib.Decide.{dec_lt}
use native.Mathlib.Omega.{arith}
use libcornrow.Base.Tests.{ltb, leb, if◌then◌else◌}
use libcornrow.Base.Lists.{
  length, get_elem?, take, drop, length-take, length-drop, list_ext, get_elem?-take, get_elem?-drop,
  get_elem?-out, get_elem?-append,
}

module _ {A : Type 0} where
  -- `n` entries from index `i` on.
  abbrev pub slice : ℕ → ℕ → List A → List A
  slice i n xs = take n (drop i xs)

  -- The entries of `src` in place of those from index `i` on; nothing is written past the end.
  unfoldable pub overwrite : ℕ → List A → List A → List A
  overwrite zero [] dst = dst
  overwrite zero (y ∷ src) [] = []
  overwrite zero (y ∷ src) (x ∷ dst) = y ∷ overwrite zero src dst
  overwrite (suc i) src [] = []
  overwrite (suc i) src (x ∷ dst) = x ∷ overwrite i src dst

  -- A copy that leaves the storage is undefined behaviour: `none`.
  abbrev pub memcpy : ℕ → List A → List A → Option (List A)
  memcpy i src dst = if leb (i + length src) (length dst) then some (overwrite i src dst) else none

  pub length-slice : (i n : ℕ) (xs : List A) → length (slice i n xs) ≡ min n (length xs - i)
  length-slice i n xs = omega (arith, length-take n (drop i xs), length-drop i xs)

  pub length-overwrite : (i : ℕ) (src dst : List A) → length (overwrite i src dst) ≡ length dst
  unfolding overwrite
  length-overwrite zero [] dst = refl
  length-overwrite zero (y ∷ src) [] = refl
  length-overwrite zero (y ∷ src) (x ∷ dst) = ap suc (length-overwrite zero src dst)
  length-overwrite (suc i) src [] = refl
  length-overwrite (suc i) src (x ∷ dst) = ap suc (length-overwrite i src dst)

  pub get_elem?-slice :
      (i n : ℕ) (xs : List A) (k : ℕ)
      → get_elem? (slice i n xs) k ≡ (if ltb k n then get_elem? xs (i + k) else none)
  get_elem?-slice i n xs k = ground (arith, get_elem?-take n (drop i xs) k, get_elem?-drop i xs k)

  pub get_elem?-overwrite :
      (i : ℕ) (src dst : List A) (k : ℕ)
      → i + length src ≤ length dst
      → get_elem? (overwrite i src dst) k
        ≡ (if leb i k && ltb k (i + length src) then get_elem? src (k - i) else get_elem? dst k)
  unfolding overwrite
  get_elem?-overwrite zero [] dst k h = ground arith
  get_elem?-overwrite zero (y ∷ src) [] k h = absurd (omega arith)
  get_elem?-overwrite zero (y ∷ src) (x ∷ dst) zero h = ground arith
  get_elem?-overwrite zero (y ∷ src) (x ∷ dst) (suc k) h =
      ground (arith, get_elem?-overwrite zero src dst k (omega arith))
  get_elem?-overwrite (suc i) src [] k h = absurd (omega arith)
  get_elem?-overwrite (suc i) src (x ∷ dst) zero h = ground arith
  get_elem?-overwrite (suc i) src (x ∷ dst) (suc k) h =
      ground (arith, get_elem?-overwrite i src dst k (omega arith))

  -- Two ranges with the same entries are the same bytes.
  pub slice_ext :
      (i j n : ℕ) (xs ys : List A)
      → ((k : ℕ) → k < n → get_elem? xs (i + k) ≡ get_elem? ys (j + k))
      → slice i n xs ≡ slice j n ys
  slice_ext i j n xs ys h = list_ext _ _ λ k. elim (dec_lt k n) [
    | yes p ↦ ground (arith, get_elem?-slice i n xs k, get_elem?-slice j n ys k, h k p)
    | no p ↦ ground (arith, get_elem?-slice i n xs k, get_elem?-slice j n ys k)
  ]

  -- What a copy wrote is read back.
  pub slice-overwrite :
      (i : ℕ) (src dst : List A)
      → i + length src ≤ length dst
      → slice i (length src) (overwrite i src dst) ≡ src
  slice-overwrite i src dst h = list_ext _ _ λ k. elim (dec_lt k (length src)) [
    | yes p ↦
        let e : i + k - i ≡ k = omega arith in
        ground (
          arith,
          get_elem?-slice i (length src) (overwrite i src dst) k,
          get_elem?-overwrite i src dst (i + k) h,
          ap (get_elem? src) e,
        )
    | no p ↦ ground (
      arith,
      get_elem?-slice i (length src) (overwrite i src dst) k,
      get_elem?-out src k (omega arith),
    )
  ]

  -- A range apart from the copy keeps its bytes.
  pub slice-overwrite_apart :
      (i j n : ℕ) (src dst : List A)
      → i + length src ≤ length dst
      → (j + n ≤ i) ⊎ (i + length src ≤ j)
      → slice j n (overwrite i src dst) ≡ slice j n dst
  slice-overwrite_apart i j n src dst h d =
      slice_ext j j n (overwrite i src dst) dst
        λ k p. ground (arith, get_elem?-overwrite i src dst (j + k) h)

  pub slice-append :
      (i m n : ℕ) (xs : List A)
      → i + m ≤ length xs
      → slice i (m + n) xs ≡ slice i m xs ++ slice (i + m) n xs
  slice-append i m n xs h = list_ext _ _ λ k. ground (
    arith,
    get_elem?-slice i (m + n) xs k,
    get_elem?-append (slice i m xs) (slice (i + m) n xs) k,
    length-slice i m xs,
    get_elem?-slice i m xs k,
    get_elem?-slice (i + m) n xs (k - m),
    shift k,
  )
    where
      shift : (k : ℕ) → m ≤ k → get_elem? xs (i + m + (k - m)) ≡ get_elem? xs (i + k)
      shift k h = ap (get_elem? xs) (omega arith)

  -- A copy right before a range makes one longer range.
  pub slice-overwrite_before :
      (i j n : ℕ) (src dst : List A)
      → j ≡ i + length src
      → j + n ≤ length dst
      → slice i (length src + n) (overwrite i src dst) ≡ src ++ slice j n dst
  slice-overwrite_before i j n src dst e h = list_ext _ _ λ k. ground (
    arith,
    get_elem?-slice i (length src + n) (overwrite i src dst) k,
    get_elem?-overwrite i src dst (i + k) (omega arith),
    get_elem?-append src (slice j n dst) k,
    get_elem?-slice j n dst (k - length src),
    (λ (p : i + k - i ≡ k). ap (get_elem? src) p) (omega arith),
    shift k,
  )
    where
      shift :
          (k : ℕ) → length src ≤ k → get_elem? dst (j + (k - length src)) ≡ get_elem? dst (i + k)
      shift k h = ap (get_elem? dst) (omega arith)
