-- ===== src/Audio/Alsa/Swap.antt =====
-- The loop of `doAc3Payload`, byte by byte.
use libcornrow.Base.{
  length, get_elem?, overwrite, length-overwrite, get_elem?-overwrite, ℕ, zero, suc, ◌+◌, ◌-◌, ◌*◌,
  ◌≤◌, ◌<◌, ◌≡◌, refl, sym, ap, ◌∙◌, ◌⊎◌, inl, inr, some, List, [], ◌∷◌, arith,
}
use libcornrow.Audio.Alsa.{swap_pairs}

pub found : (xs : List ℕ) (i : ℕ) → i < length xs → (x : ℕ) × (get_elem? xs i ≡ some x)
found [] i h = absurd (omega arith)
found (x ∷ xs) zero h = (x, refl)
found (x ∷ xs) (suc i) h = found xs i (omega arith)

-- `n` pairs from `i` on are swapped, and the rest is as it was.
pub record Swapped (n i : ℕ) (s after : List ℕ) : Type 0 where
  pub long : length after ≡ length s
  pub first : (j : ℕ) → j < n → get_elem? after (i + 2 * j) ≡ get_elem? s (i + 2 * j + 1)
  pub second : (j : ℕ) → j < n → get_elem? after (i + 2 * j + 1) ≡ get_elem? s (i + 2 * j)
  pub kept : (k : ℕ) → (k < i) ⊎ (i + 2 * n ≤ k) → get_elem? after k ≡ get_elem? s k

-- One pair
abbrev swap_at : ℕ → ℕ → ℕ → List ℕ → List ℕ
swap_at i x y s = overwrite i (y ∷ x ∷ []) s

swap_at-kept :
    (i x y : ℕ) (s : List ℕ) (k : ℕ)
    → i + 1 < length s
    → (k < i) ⊎ (i + 2 ≤ k)
    → get_elem? (swap_at i x y s) k ≡ get_elem? s k
swap_at-kept i x y s k h apart =
    ground (arith, get_elem?-overwrite i (y ∷ x ∷ []) s k (omega arith))

swap_at-first : (i x y : ℕ) (s : List ℕ) → i + 1 < length s → get_elem? (swap_at i x y s) i ≡ some y
swap_at-first i x y s h =
    let z : i - i ≡ 0 = omega arith in
    ground
      (arith, get_elem?-overwrite i (y ∷ x ∷ []) s i (omega arith), ap (get_elem? (y ∷ x ∷ [])) z)

swap_at-second :
    (i x y : ℕ) (s : List ℕ) → i + 1 < length s → get_elem? (swap_at i x y s) (i + 1) ≡ some x
swap_at-second i x y s h =
    let z : i + 1 - i ≡ 1 = omega arith in
    ground (
      arith,
      get_elem?-overwrite i (y ∷ x ∷ []) s (i + 1) (omega arith),
      ap (get_elem? (y ∷ x ∷ [])) z,
    )

round-Swapped :
    (n i x y : ℕ) (s : List ℕ) {after : List ℕ}
    → i + 1 < length s
    → get_elem? s i ≡ some x
    → get_elem? s (i + 1) ≡ some y
    → Swapped n (i + 2) (swap_at i x y s) after
    → Swapped (suc n) i s after
round-Swapped n i x y s {after} h ex ey ih = record {
  long = ih.long ∙ length-overwrite i (y ∷ x ∷ []) s;
  first = first;
  second = second;
  kept = λ k apart.
      ih.kept k (ground (arith, apart)) ∙ swap_at-kept i x y s k h (ground (arith, apart));
}
  where
    first : (j : ℕ) → j < suc n → get_elem? after (i + 2 * j) ≡ get_elem? s (i + 2 * j + 1)
    first zero p =
        let e : i + 2 * 0 ≡ i = omega arith in
        rw e (ih.kept i (inl (omega arith)) ∙ swap_at-first i x y s h ∙ sym ey)
    first (suc j) p =
        let e : i + 2 * suc j ≡ i + 2 + 2 * j = omega arith in
        rw e (
          ih.first j (omega arith) ∙ swap_at-kept i x y s (i + 2 + 2 * j + 1) h (inr (omega arith)))

    second : (j : ℕ) → j < suc n → get_elem? after (i + 2 * j + 1) ≡ get_elem? s (i + 2 * j)
    second zero p =
        let e : i + 2 * 0 ≡ i = omega arith in
        rw e (ih.kept (i + 1) (inl (omega arith)) ∙ swap_at-second i x y s h ∙ sym ex)
    second (suc j) p =
        let e : i + 2 * suc j ≡ i + 2 + 2 * j = omega arith in
        rw e
          (ih.second j (omega arith) ∙ swap_at-kept i x y s (i + 2 + 2 * j) h (inr (omega arith)))

pub swap_pairs-Swapped :
    (n i : ℕ) (s : List ℕ)
    → i + 2 * n ≤ length s
    → (after : List ℕ) × (swap_pairs n i s ≡ some after) × Swapped n i s after
unfolding swap_pairs
swap_pairs-Swapped zero i s h = (
  s,
  refl,
  record {
    long = refl;
    first = λ j p. absurd (omega arith);
    second = λ j p. absurd (omega arith);
    kept = λ k p. refl;
  },
)
swap_pairs-Swapped (suc n) i s h =
    let (x, ex) = found s i (omega arith) in
    let (y, ey) = found s (i + 1) (omega arith) in
    let (after, e, sw) =
      swap_pairs-Swapped n (i + 2) (swap_at i x y s)
        (omega (arith, length-overwrite i (y ∷ x ∷ []) s)) in
    (after, rw (ex, ey) e, round-Swapped n i x y s (omega arith) ex ey sw)
