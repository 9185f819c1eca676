-- ===== src/Core/Pool/Laws.antt =====
-- The pool's invariant, and what a client gets from it.
use libcornrow.Core.Pool.FreeList.{
  Absent, IsDistinct, first_fit-fits, first_fit-All, remove-All, remove-Absent, remove-IsDistinct,
  first_fit-perm,
}
use libcornrow.Base.{
  leb, Option-cases, All, ℕ, suc, ◌*◌, ◌^◌, ◌≤◌, ◌<◌, ◌≡◌, refl, sym, ◌≢◌, inl, inr, false, Option,
  none, some, List, [], ◌∷◌, ◌++◌, map, append-nil, arith,
}
use libcornrow.Core.Pool.{Entry, Pool, first_fit, remove, acquire, release}
use libcornrow.Core.Buffer.{Allocator, resize, new_buffer, capacity, clear}
use libcornrow.Core.Buffer.Bounds.{IsSound, new_buffer-IsSound, clear-IsSound}
use mathlib.Core.List.{map-append, perm_middle}
use mathlib.Core.List.Perm
use mathlib.Core.List.{Perm}

-- A free buffer is empty, starts at its storage, and is sound.
pub record IsFree (e : Entry) : Type 0 where
  pub sound : IsSound e.object
  pub no_data : e.object.size ≡ 0
  pub at_start : e.object.offset ≡ 0

pub record IsPool (p : Pool) : Type 0 where
  pub distinct : IsDistinct p.buffers
  pub below : All (λ e. e.address < p.next) p.buffers
  pub free : All IsFree p.buffers

-- What the client of `acquire` holds.
pub record Served (n : ℕ) (p : Pool) (r : Entry × Pool) : Type 0 where
  pub free : IsFree r.0
  pub large : n ≤ 4 * r.0.object.reserved
  pub known : r.0.address < r.1.next
  pub taken : Absent r.0.address r.1.buffers
  pub pool : IsPool r.1

below-Absent : (k : ℕ) (es : List Entry) → All (λ e. e.address < k) es → Absent k es
below-Absent k [] h = tt
below-Absent k (x ∷ es) h = (let lt = h.0 in omega arith, below-Absent k es h.1)

below_mono :
    (k : ℕ) (es : List Entry) → All (λ e. e.address < k) es → All (λ e. e.address < suc k) es
below_mono k [] h = tt
below_mono k (x ∷ es) h = (let lt = h.0 in omega arith, below_mono k es h.1)

found-Served :
    (n : ℕ) {p : Pool} {e : Entry}
    → IsPool p
    → first_fit n p.buffers ≡ some e
    → Served n p (e, record p { buffers = remove e.address p.buffers })
found-Served n {p} {e} v h = record {
  free = first_fit-All IsFree n p.buffers h v.free;
  large = let fit = first_fit-fits n p.buffers h in unfold capacity in omega (arith, fit);
  known = first_fit-All (λ x. x.address < p.next) n p.buffers h v.below;
  taken = remove-Absent e.address p.buffers;
  pool = record {
    distinct = remove-IsDistinct e.address p.buffers v.distinct;
    below = remove-All (λ x. x.address < p.next) e.address p.buffers v.below;
    free = remove-All IsFree e.address p.buffers v.free;
  };
}

new-Served :
    (a : Allocator) (n : ℕ) {p : Pool}
    → IsPool p
    → n < 2 ^ 61
    → Served n p
        (record { address = p.next; object = new_buffer a n }, record p { next = suc p.next })
new-Served a n {p} v small =
    let (sound, room, none_yet) = new_buffer-IsSound a n small in
    record {
      free = record {
        sound = sound;
        no_data = none_yet;
        at_start = unfold new_buffer resize in refl;
      };
      large = omega arith;
      known = omega arith;
      taken = below-Absent p.next p.buffers v.below;
      pool = record {
        distinct = v.distinct;
        below = below_mono p.next p.buffers v.below;
        free = v.free;
      };
    }

-- `acquire` of a pool in order, called by a node, hands out an empty, sound buffer of the size asked
-- for that is in the pool no more, and leaves the pool in order.
pub acquire-Served :
    {Node : Type 0} (a : Allocator) (n : ℕ) (caller : Node) {p : Pool}
    → IsPool p
    → n < 2 ^ 61
    → (r : Entry × Pool) × (acquire a n (some caller) p ≡ some r) × Served n p r
unfolding acquire
acquire-Served a n caller {p} v small = elim (Option-cases (first_fit n p.buffers)) [
  | inl missed ↦ (_, rw (missed, acquire), new-Served a n v small)
  | inr (e, found) ↦ (_, rw (found, acquire), found-Served n v found)
]

-- Without a caller, the default of `Buffer::create`, a request that no free buffer can hold reads the
-- name of a null pointer.
pub acquire-null :
    (Node : Type 0) (a : Allocator) (n : ℕ) (p : Pool)
    → All (λ e. capacity e.object < n) p.buffers
    → acquire {Node = Node} a n none p ≡ none
unfolding acquire first_fit
acquire-null Node a n p h = rw (misses p.buffers h, acquire)
  where
    misses : (es : List Entry) → All (λ e. capacity e.object < n) es → first_fit n es ≡ none
    misses [] all = refl
    misses (x ∷ es) all =
        let e : leb n (capacity x.object) ≡ false = ground (arith, all.0) in rw e (misses es all.1)

append-All : (P : Entry → Type 0) (xs ys : List Entry) → All P xs → All P ys → All P (xs ++ ys)
append-All P [] ys h h' = h'
append-All P (x ∷ xs) ys h h' = (h.0, append-All P xs ys h.1 h')

append-IsDistinct :
    (es : List Entry) (x : Entry) → IsDistinct es → Absent x.address es → IsDistinct (es ++ x ∷ [])
append-IsDistinct [] x d h = (tt, tt)
append-IsDistinct (y ∷ es) x d h = (
  append-All (λ e. e.address ≢ y.address) es (x ∷ []) d.0 ((λ e. h.0 (sym e)), tt),
  append-IsDistinct es x d.1 h.1,
)

-- The deleter puts a sound buffer of a known address that is not in the pool back at its end, emptied, behind all that
-- were there, and leaves a pool in order.
pub release-IsPool :
    {p : Pool} {e : Entry}
    → IsPool p
    → Absent e.address p.buffers
    → e.address < p.next
    → IsSound e.object
    → IsPool (release (some e) p)
      × ((release (some e) p).buffers ≡ p.buffers ++ record e { object = clear e.object } ∷ [])
unfolding release
release-IsPool {p} {e} v absent known sound =
    let free : IsFree (record e { object = clear e.object }) = record {
      sound = clear-IsSound sound;
      no_data = unfold clear in refl;
      at_start = unfold clear in refl;
    } in
    (
      record {
        distinct = append-IsDistinct p.buffers _ v.distinct absent;
        below = append-All (λ x. x.address < p.next) p.buffers _ v.below (known, tt);
        free = append-All IsFree p.buffers _ v.free (free, tt);
      },
      refl,
    )

abbrev pub addresses : Pool → List ℕ
addresses p = map (λ e. e.address) p.buffers

-- In a pool in order, a buffer that was found in the free list, taken and given back: no buffer is
-- lost, and none is doubled.
pub release-acquire-perm :
    {Node : Type 0} (a : Allocator) (n : ℕ) (caller : Option Node) {p : Pool} {e : Entry}
    → IsPool p
    → first_fit n p.buffers ≡ some e
    → (r : Entry × Pool) × (acquire a n caller p ≡ some r)
      × Perm (addresses (release (some r.0) r.1)) (addresses p)
unfolding acquire release
release-acquire-perm a n caller {p} {e} v h = (
  (e, record p { buffers = remove e.address p.buffers }),
  rw (h, acquire),
  rw (map-append address_of (remove e.address p.buffers) (emptied ∷ [])) (
      Perm.trans (perm_middle (map address_of (remove e.address p.buffers)) []) (
        rw append-nil (Perm.symm (Perm.map address_of (first_fit-perm n p.buffers v.distinct h))))),
)
  where
    address_of : Entry → ℕ
    address_of x = x.address

    emptied : Entry
    emptied = record e { object = clear e.object }
