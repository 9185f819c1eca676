-- ===== src/Core/Buffer/Room.antt =====
-- Where `acquire` finds room without growing the storage.
use libcornrow.Base.{leb, le→leb, length, ℕ, ◌+◌, ◌%◌, ◌≤◌, ◌≡◌, refl, false, arith}
use libcornrow.Core.Buffer.{Allocator, Buffer, size_at_back, acquire}
use libcornrow.Core.Buffer.Bounds.{IsSound, IsAligned}
use native.Mathlib.Decide.{dec_lt}

-- With room behind the data the storage stays, and three bytes are left behind the region.
pub acquire-roomy :
    (a : Allocator) (n : ℕ) {b : Buffer}
    → IsSound b
    → IsAligned b
    → b.offset + b.size + n + 3 ≤ length b.buffer
    → ((acquire a n b).buffer ≡ b.buffer)
      × ((acquire a n b).acquired_offset % 4 ≡ 0)
      × ((acquire a n b).acquired_offset + n + 3 ≤ length b.buffer)
unfolding acquire
acquire-roomy a n {b} v al room = elim (dec_lt b.offset n) [
  | no front ↦ rw (le→leb n b.offset (omega arith)) (refl, refl, omega arith)
  | yes h ↦
      let e : leb n b.offset ≡ false = ground arith in
      rw (e, le→leb n (size_at_back b) (omega arith)) (refl, omega arith, omega arith)
]
