-- ===== src/Core/Pool.antt =====
-- src/core/BufferPool.cpp: the free list `s_buffers`, first-fit `acquire`, and `BufferDeleter`.
-- A `Buffer*` is an address with the object that stands there; `next` is the address that `new`
-- returns next.
pub mod FreeList
pub mod Laws
mod Runs
use libcornrow.Base.{leb, ◌==◌, if◌then◌else◌, ℕ, suc, Option, none, some, List, [], ◌∷◌, ◌++◌}
use libcornrow.Core.Buffer.{Allocator, Buffer, new_buffer, capacity, clear}

pub record Entry : Type 0 where
  pub address : ℕ
  pub object : Buffer

pub record Pool : Type 0 where
  pub buffers : List Entry
  pub next : ℕ

-- The loop of `acquire`: the first buffer that can hold `n` bytes.
unfoldable pub first_fit : ℕ → List Entry → Option Entry
unfolding capacity
first_fit n [] = none
first_fit n (e ∷ es) = if leb n (capacity e.object) then some e else first_fit n es

-- `std::list::remove`: every element equal to the pointer
unfoldable pub remove : ℕ → List Entry → List Entry
remove p [] = []
remove p (e ∷ es) = if e.address == p then remove p es else e ∷ remove p es

-- `caller` is `none` for a null pointer, whose name the log line of a new buffer would read; then the
-- result is `none`.
unfoldable pub acquire :
    {Node : Type 0} → Allocator → ℕ → Option Node → Pool → Option (Entry × Pool)
acquire {Node} a n caller p = serve (first_fit n p.buffers)
  where
    create : Option Node → Option (Entry × Pool)
    create none = none
    create (some _) =
        some (record { address = p.next; object = new_buffer a n }, record p { next = suc p.next })

    serve : Option Entry → Option (Entry × Pool)
    serve (some e) = some (e, record p { buffers = remove e.address p.buffers })
    serve none = create caller

-- `BufferDeleter::operator()`: nothing for a null pointer
unfoldable pub release : Option Entry → Pool → Pool
unfolding clear
release none p = p
release (some e) p = record p { buffers = p.buffers ++ (record e { object = clear e.object } ∷ []) }
