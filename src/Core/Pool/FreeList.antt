-- ===== src/Core/Pool/FreeList.antt =====
-- What `first_fit` finds in a free list, and what `remove` leaves of it.
use libcornrow.Base.{
  leb, ◌==◌, Bool-cases, All, ℕ, ◌≤◌, ◌≡◌, refl, ap, subst, ◌≢◌, inl, inr, true, false, some, List,
  [], ◌∷◌, arith,
}
use libcornrow.Core.Pool.{Entry, first_fit, remove}
use libcornrow.Core.Buffer.{capacity}
use mathlib.Core.List.Perm
use mathlib.Core.List.{Perm}

-- No address of the list is `p`.
abbrev pub Absent : ℕ → List Entry → Type 0
Absent p = All λ e. e.address ≢ p

abbrev pub IsDistinct : List Entry → Type 0
IsDistinct [] = Unit {0}
IsDistinct (e ∷ es) = Absent e.address es × IsDistinct es

pub first_fit-fits :
    (n : ℕ) (es : List Entry) {e : Entry} → first_fit n es ≡ some e → n ≤ capacity e.object
unfolding first_fit
first_fit-fits n [] h = cc
first_fit-fits n (x ∷ es) {e} h = ground (arith, first_fit-fits n es {e = e})

pub first_fit-All :
    (P : Entry → Type 0) (n : ℕ) (es : List Entry) {e : Entry}
    → first_fit n es ≡ some e
    → All P es
    → P e
unfolding first_fit
first_fit-All P n [] h all = cc
first_fit-All P n (x ∷ es) {e} h all = elim (Bool-cases (leb n (capacity x.object))) [
  | inl fit ↦ subst P (cc (h, fit)) all.0
  | inr miss ↦ first_fit-All P n es (rw miss at h) all.1
]

pub remove-All : (P : Entry → Type 0) (p : ℕ) (es : List Entry) → All P es → All P (remove p es)
unfolding remove
remove-All P p [] all = tt
remove-All P p (x ∷ es) all = elim (Bool-cases (x.address == p)) [
  | inl hit ↦ rw hit (remove-All P p es all.1)
  | inr miss ↦ rw miss (all.0, remove-All P p es all.1)
]

pub remove-Absent : (p : ℕ) (es : List Entry) → Absent p (remove p es)
unfolding remove
remove-Absent p [] = tt
remove-Absent p (x ∷ es) = elim (Bool-cases (x.address == p)) [
  | inl hit ↦ rw hit (remove-Absent p es)
  | inr miss ↦ rw miss ((λ e. ground arith), remove-Absent p es)
]

pub remove-IsDistinct : (p : ℕ) (es : List Entry) → IsDistinct es → IsDistinct (remove p es)
unfolding remove
remove-IsDistinct p [] d = tt
remove-IsDistinct p (x ∷ es) d = elim (Bool-cases (x.address == p)) [
  | inl hit ↦ rw hit (remove-IsDistinct p es d.1)
  | inr miss ↦
      rw miss (remove-All (λ e. e.address ≢ x.address) p es d.0, remove-IsDistinct p es d.1)
]

pub remove_kept : (p : ℕ) (es : List Entry) → Absent p es → remove p es ≡ es
unfolding remove
remove_kept p [] h = refl
remove_kept p (x ∷ es) h =
    let miss : (x.address == p) ≡ false = ground (arith, h.0) in
    rw miss (ap (◌∷◌ x) (remove_kept p es h.1))

-- With distinct addresses `remove` takes out the entry that was found and no other.
pub first_fit-perm :
    (n : ℕ) (es : List Entry) {e : Entry}
    → IsDistinct es
    → first_fit n es ≡ some e
    → Perm es (e ∷ remove e.address es)
unfolding first_fit remove
first_fit-perm n [] d h = cc
first_fit-perm n (x ∷ es) {e} d h = elim (Bool-cases (leb n (capacity x.object))) [
  | inl fit ↦
      let same : x ≡ e = cc (h, fit) in
      let hit : (x.address == x.address) ≡ true = ground arith in
      subst (λ (y : Entry). Perm (x ∷ es) (y ∷ remove y.address (x ∷ es))) same
        (unfold remove in rw (hit, remove_kept x.address es d.0) (Perm.refl (x ∷ es)))
  | inr miss ↦
      let h' : first_fit n es ≡ some e = rw miss at h in
      let other : e.address ≢ x.address = first_fit-All (λ y. y.address ≢ x.address) n es h' d.0 in
      let off : (x.address == e.address) ≡ false = ground (arith, other) in
      rw off (
        Perm.trans (Perm.cons x (first_fit-perm n es d.1 h')) (Perm.swap e x (remove e.address es)))
]
