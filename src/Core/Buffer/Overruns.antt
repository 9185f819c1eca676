-- ===== src/Core/Buffer/Overruns.antt =====
-- Where the arithmetic of `Buffer` leaves the storage or misplaces data.
use libcornrow.Base.{
  leb, le→leb, length, get_elem?, slice, overwrite, get_elem?-slice, get_elem?-overwrite, add_size,
  ℕ, ◌+◌, ◌-◌, ◌*◌, ◌%◌, ◌^◌, ◌≤◌, ◌<◌, ◌≡◌, ap, ◌⊎◌, inl, inr, true, false, none, some, List,
  arith,
}
use libcornrow.Core.Buffer.{
  Allocator, Buffer, contents, size_at_back, back_offset, acquire, write_acquired, prepend, grow,
}
use libcornrow.Core.Buffer.Bounds.{IsSound, length-resize, HasSlack, grown_words}
use libcornrow.Core.Buffer.Contents.{produce}
use native.Mathlib.Decide.{dec_lt}

-- On a sound buffer with fewer than three bytes behind the data the space at the back wraps below
-- zero: for three bytes or more, which do not fit in front, `acquire` takes it for enough, does not
-- grow the storage, and filling the region that it returns leaves the storage.
pub acquire-overrun :
    (a : Allocator) (bytes : List ℕ) {b : Buffer}
    → IsSound b
    → length b.buffer < b.offset + b.size + 3
    → b.offset < length bytes
    → 3 ≤ length bytes
    → length bytes < 2 ^ 61
    → ((acquire a (length bytes) b).buffer ≡ b.buffer) × (produce a (length bytes) bytes b ≡ none)
unfolding produce acquire write_acquired
acquire-overrun a bytes {b} v tight h three small =
    let front : leb (length bytes) b.offset ≡ false = ground arith in
    let wrapped : leb (length bytes) (size_at_back b) ≡ true = le→leb _ _ (omega arith) in
    let out : leb (back_offset b + length bytes) (length b.buffer) ≡ false = ground arith in
    (rw (front, wrapped), rw (front, wrapped, out))

-- The storage that `acquire` grows is two bytes short where the data of a sound buffer with three
-- spare bytes ends three bytes past a multiple of 4, and the request is a multiple of 4 that fits
-- neither in front nor behind.
pub acquire-short :
    (a : Allocator) (n : ℕ) {b : Buffer}
    → IsSound b
    → HasSlack b
    → (b.offset + b.size) % 4 ≡ 3
    → n % 4 ≡ 0
    → b.offset + b.size + n < 2 ^ 61
    → b.offset < n
    → size_at_back b < n
    → (acquire a n b).acquired_offset + n ≡ length (acquire a n b).buffer + 2
unfolding acquire
acquire-short a n {b} v slack three whole small h h' =
    let front : leb n b.offset ≡ false = ground arith in
    let back : leb n (size_at_back b) ≡ false = ground arith in
    let len = length-resize a b (grown_words n b) in rw (front, back) (omega (arith, len))

-- On a sound buffer with more than the size of a header that is not empty free in front, `prepend`
-- writes the header at four times the new offset: outside the storage, or elsewhere in it, so that
-- the first byte of the new contents is the stale byte of the storage and not the header's.
pub prepend-misplaced :
    (a : Allocator) (bytes : List ℕ) {b : Buffer}
    → IsSound b
    → 0 < length bytes
    → length bytes < b.offset
    → let i = b.offset - length bytes in
      ((length b.buffer < 4 * i + length bytes) × (prepend a bytes b ≡ none))
      ⊎ ((c : Buffer) × (prepend a bytes b ≡ some c)
          × (get_elem? (contents c) 0 ≡ get_elem? b.buffer i))
unfolding prepend
prepend-misplaced a bytes {b} v pos h =
    let n = length bytes in
    let i = b.offset - n in
    let front : leb n b.offset ≡ true = le→leb _ _ (omega arith) in
    elim (dec_lt (length b.buffer) (4 * i + n)) [
      | yes out ↦
          let e : leb (4 * i + n) (length b.buffer) ≡ false = ground arith in
          inl (out, rw (front, e))
      | no fits ↦
          let e : leb (4 * i + n) (length b.buffer) ≡ true = le→leb _ _ (omega arith) in
          inr (
            record b {
              buffer = overwrite (4 * i) bytes b.buffer;
              offset = i;
              size = add_size b.size n;
            },
            rw (front, e),
            stale i n (omega arith) (omega arith) (omega arith),
          )
    ]
  where
    stale :
        (i n : ℕ)
        → i < 4 * i
        → 0 < add_size b.size n
        → 4 * i + length bytes ≤ length b.buffer
        → get_elem? (slice i (add_size b.size n) (overwrite (4 * i) bytes b.buffer)) 0
          ≡ get_elem? b.buffer i
    stale i n h h' fits =
        let e : i + 0 ≡ i = omega arith in
        ground (
          arith,
          get_elem?-slice i (add_size b.size n) (overwrite (4 * i) bytes b.buffer) 0,
          get_elem?-overwrite (4 * i) bytes b.buffer (i + 0) fits,
          ap (get_elem? b.buffer) e,
        )

-- `grow` does not count the offset: to the full storage, with the data not at its start, it declares
-- bytes behind the storage to be contents.
pub grow-escapes :
    (n : ℕ) {b : Buffer} → IsSound b → 0 < b.offset → length b.buffer ≤ n → ¬ IsSound (grow n b)
unfolding grow
grow-escapes n v h full w = omega arith

-- `grow` reaches its size and keeps the invariant while the new data ends in the storage.
pub grow-IsSound :
    (n : ℕ) {b : Buffer}
    → IsSound b
    → b.offset + n ≤ length b.buffer
    → IsSound (grow n b) × ((grow n b).size ≡ n)
unfolding grow
grow-IsSound n v h = omega arith
