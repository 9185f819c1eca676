-- ===== src/Core/Node/Pooled.antt =====
-- The buffer pool as the interface that nodes use: `Buffer::create(sizeHint, this)`.
use libcornrow.Base.{Option-cases, All, ℕ, suc, ◌≡◌, refl, inl, inr, Option, some}
use libcornrow.Core.Pool.{Entry, Pool, first_fit, remove}
use libcornrow.Core.Pool.FreeList.{first_fit-All, remove-All}
use libcornrow.Core.Buffer.{Allocator, resize, new_buffer}
use libcornrow.Core.Node.{Buffers}
use mathlib.Core.Option
use libcornrow.Core.Pool

-- The free buffers are empty.
abbrev pub AllEmpty : Pool → Type 0
AllEmpty p = All (λ e. e.object.size ≡ 0) p.buffers

module _ (a : Allocator) (S : Type 0) where
  unfoldable pub create_pooled : ℕ → Pool × S → Option (Entry × (Pool × S))
  create_pooled n (p, s) = Option.map (λ r. (r.0, (r.1, s))) (Pool.acquire a n (some tt) p)

  -- A pool whose free buffers are empty hands a node a buffer, not a null pointer, that is empty, and
  -- its free buffers are empty still.
  pub create_pooled-empty :
      (n : ℕ) (w : Pool × S)
      → AllEmpty w.0
      → (r : Entry × (Pool × S)) × (create_pooled n w ≡ some r)
        × (r.0.object.size ≡ 0)
        × AllEmpty r.1.0
  unfolding create_pooled Pool.acquire
  create_pooled-empty n (p, s) good = elim (Option-cases (first_fit n p.buffers)) [
    | inl missed ↦ (
      (record { address = p.next; object = new_buffer a n }, (record p { next = suc p.next }, s)),
      rw (missed, Pool.acquire),
      unfold new_buffer resize in refl,
      good,
    )
    | inr (e, found) ↦ (
      (e, (record p { buffers = remove e.address p.buffers }, s)),
      rw (found, Pool.acquire),
      first_fit-All (λ x. x.object.size ≡ 0) n p.buffers found good,
      remove-All (λ x. x.object.size ≡ 0) e.address p.buffers good,
    )
  ]

  -- A node is the caller, so the pool always has a name to log.
  abbrev pub pooled : Buffers (Pool × S)
  pooled = record {
    create = create_pooled;
    IsGood = λ w. AllEmpty w.0;
    create_empty = create_pooled-empty;
  }
