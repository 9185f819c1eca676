-- ===== src/Audio/Caps/Laws.antt =====
-- When two nodes can be linked.
use libcornrow.Base.{
  Bool-cases, get_elem?, ℕ, zero, suc, ◌≡◌, refl, ap, ◌∙◌, ◌↔◌, inl, inr, Bool, true, some, List,
  [], ◌∷◌, arith,
}
use libcornrow.Audio.Caps.{Cap, fits, fits_any, can_intersect}

-- Some entry of a list satisfies `p`.
abbrev pub Some : {A : Type 0} → (A → Bool) → List A → Type 0
Some {A} p xs = (i : ℕ) × (x : A) × (get_elem? xs i ≡ some x) × (p x ≡ true)

Some-cons : {A : Type 0} (p : A → Bool) (y : A) (ys : List A) → Some p ys → Some p (y ∷ ys)
Some-cons p y ys (i, x, at, holds) = (suc i, x, at, holds)

fits_any-Some :
    (o : Cap) (ins : List (Cap × Cap)) → fits_any o ins ≡ true → Some (λ n. fits o n.0) ins
unfolding fits_any
fits_any-Some o [] h = cc
fits_any-Some o ((i, x) ∷ ins) h = elim (Bool-cases (fits o i)) [
  | inl hit ↦ (0, (i, x), refl, hit)
  | inr miss ↦ Some-cons _ _ ins (fits_any-Some o ins (rw miss at h))
]

fits_any_found :
    (o : Cap) (ins : List (Cap × Cap)) (k : ℕ) (n : Cap × Cap)
    → get_elem? ins k ≡ some n
    → fits o n.0 ≡ true
    → fits_any o ins ≡ true
unfolding fits_any
fits_any_found o [] k n at hit = cc
fits_any_found o ((i, x) ∷ ins) zero n at hit =
    let e : (i, x) ≡ n = cc at in rw (ap (λ (q : Cap × Cap). fits o q.0) e ∙ hit) refl
fits_any_found o ((i, x) ∷ ins) (suc k) n at hit = ground (arith, fits_any_found o ins k n at hit)

-- The nested loops find a link exactly if some output of the one node fits some input of the other.
abbrev pub Linked : List (Cap × Cap) → List (Cap × Cap) → Type 0
Linked outs ins =
    (k : ℕ) × (o : Cap × Cap) × (get_elem? outs k ≡ some o) × Some (λ n. fits o.1 n.0) ins

can_intersect-link : (outs ins : List (Cap × Cap)) → can_intersect outs ins ≡ true → Linked outs ins
unfolding can_intersect
can_intersect-link [] ins h = cc
can_intersect-link ((x, o) ∷ outs) ins h = elim (Bool-cases (fits_any o ins)) [
  | inl hit ↦ (0, (x, o), refl, fits_any-Some o ins hit)
  | inr miss ↦
      let (k, q, at, found) = can_intersect-link outs ins (rw miss at h) in (suc k, q, at, found)
]

can_intersect_found :
    (outs ins : List (Cap × Cap)) (k : ℕ) (o : Cap × Cap)
    → get_elem? outs k ≡ some o
    → Some (λ n. fits o.1 n.0) ins
    → can_intersect outs ins ≡ true
unfolding can_intersect
can_intersect_found [] ins k o at found = cc
can_intersect_found ((x, y) ∷ outs) ins zero o at (j, n, there, hit) =
    let e : (x, y) ≡ o = cc at in
    let f : fits_any y ins ≡ true =
      ap (λ (q : Cap × Cap). fits_any q.1 ins) e ∙ fits_any_found o.1 ins j n there hit in
    rw f refl
can_intersect_found ((x, y) ∷ outs) ins (suc k) o at found =
    ground (arith, can_intersect_found outs ins k o at found)

-- Two nodes can be linked exactly if some output of the first fits some input of the second.
pub can_intersect-Linked :
    (outs ins : List (Cap × Cap)) → (can_intersect outs ins ≡ true) ↔ Linked outs ins
can_intersect-Linked outs ins =
    (can_intersect-link outs ins, λ (k, o, at, found). can_intersect_found outs ins k o at found)
