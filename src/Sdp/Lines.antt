-- ===== src/Sdp/Lines.antt =====
-- Lines with and without a second `a=`.
use libcornrow.Base.{
  Bool-cases, Option-cases, drop, Text, codes, starts_with, ℕ, zero, suc, ◌≡◌, refl, inl, inr, true,
  false, none, some, [], ◌∷◌,
}
use libcornrow.Rtsp.Headers.{Regex}
use libcornrow.Sdp.{Media, rfind, is_zero, with_attribute}

rfind_here :
    (pattern : Text) (c : ℕ) (s : Text)
    → is_zero (rfind pattern (c ∷ s)) ≡ true
    → rfind pattern s ≡ none
unfolding rfind is_zero
rfind_here pattern c s h = elim (Option-cases (rfind pattern s)) [
  | inl missed ↦ missed
  | inr (i, hit) ↦ cc (rw hit at h)
]

rfind_missing :
    (pattern : Text) (c : ℕ) (s : Text)
    → rfind pattern (c ∷ s) ≡ none
    → (rfind pattern s ≡ none) × (starts_with pattern (c ∷ s) ≡ false)
unfolding rfind
rfind_missing pattern c s h = elim (Option-cases (rfind pattern s)) [
  | inr (i, hit) ↦ cc (rw hit at h)
  | inl missed ↦ elim (Bool-cases (starts_with pattern (c ∷ s))) [
    | inl hit ↦ cc (rw (missed, hit) at h)
    | inr miss ↦ (missed, miss)
  ]
]

rfind_empty : (pattern : Text) → rfind pattern [] ≡ none → starts_with pattern [] ≡ false
unfolding rfind
rfind_empty pattern h = elim (Bool-cases (starts_with pattern [])) [
  | inl hit ↦ cc (rw hit at h)
  | inr miss ↦ miss
]

never :
    (pattern : Text) (k : ℕ) (s : Text)
    → rfind pattern s ≡ none
    → starts_with pattern (drop k s) ≡ false
never pattern zero [] h = rfind_empty pattern h
never pattern (suc k) [] h = rfind_empty pattern h
never pattern zero (c ∷ s) h = (rfind_missing pattern c s h).1
never pattern (suc k) (c ∷ s) h = never pattern k s (rfind_missing pattern c s h).0

rfind_once :
    (pattern : Text) (c : ℕ) (s : Text) (k : ℕ)
    → is_zero (rfind pattern (c ∷ s)) ≡ true
    → starts_with pattern (drop k s) ≡ false
rfind_once pattern c s k h = never pattern k s (rfind_here pattern c s h)

-- A line with `a=` behind its first byte adds no attribute to the medium, even if it starts with `a=`.
pub with_attribute_second :
    (rx : Regex) (c : ℕ) (s : Text) (k : ℕ) (m : Media)
    → starts_with (codes "a=") (drop k s) ≡ true
    → with_attribute rx (c ∷ s) (some m) ≡ some m
unfolding with_attribute
with_attribute_second rx c s k m second = elim (Bool-cases (is_zero (rfind (codes "a=") (c ∷ s)))) [
  | inl once ↦ cc (second, rfind_once (codes "a=") c s k once)
  | inr more ↦ rw (more, with_attribute) refl
]
