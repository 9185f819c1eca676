-- ===== src/Core/Buffer/Prepend.antt =====
-- `Buffer::prepend`: where the header lands in front of the data, and where it does not.
use libcornrow.Base.{
  leb, le→leb, length, slice, overwrite, length-slice, length-overwrite, slice-overwrite,
  slice-overwrite_apart, slice-append, slice-overwrite_before, add_size, ℕ, ◌+◌, ◌-◌, ◌*◌, ◌^◌, ◌≤◌,
  ◌<◌, ◌≡◌, ap, ap₂, subst, ◌∙◌, ◌⊎◌, inl, inr, true, false, Option, some, List, ◌++◌, arith,
}
use libcornrow.Core.Buffer.{
  Allocator, Buffer, contents, commit, write_acquired, copy_within, element_offset, prepend,
}
use libcornrow.Core.Buffer.Bounds.{IsSound, HasSlack, IsAligned, Acquired, acquire-Acquired}
use mathlib.Core.Option
use native.Mathlib.Decide.{dec_lt}

-- The header and the old data are the new contents of a sound buffer.
abbrev pub Prepended : List ℕ → Buffer → Option Buffer → Type 0
Prepended bytes b r = (c : Buffer) × (r ≡ some c) × (contents c ≡ bytes ++ contents b) × IsSound c

prepend_fit :
    (a : Allocator) (bytes : List ℕ) {b : Buffer}
    → IsSound b
    → b.offset ≡ length bytes
    → Prepended bytes b (prepend a bytes b)
unfolding prepend
prepend_fit a bytes {b} v e =
    let zero_offset : b.offset - length bytes ≡ 0 = omega arith in
    let front : leb (length bytes) b.offset ≡ true = le→leb _ _ (omega arith) in
    let fits : leb (4 * (b.offset - length bytes) + length bytes) (length b.buffer) ≡ true =
      le→leb _ _ (omega arith) in
    let sum : add_size b.size (length bytes) ≡ length bytes + b.size = omega arith in
    let keep = length-overwrite 0 bytes b.buffer in
    (
      record b {
        buffer = overwrite (4 * (b.offset - length bytes)) bytes b.buffer;
        offset = b.offset - length bytes;
        size = add_size b.size (length bytes);
      },
      rw (front, fits),
      rw (zero_offset, sum, e)
          (slice-overwrite_before 0 (length bytes) b.size bytes b.buffer (omega arith)
            (omega arith)),
      rw zero_offset (record {
        whole = omega (arith, keep);
        inside = omega (arith, keep);
        small = omega (arith, keep);
        backed = omega (arith, keep);
      }),
    )

-- The bytes of the region after both copies.
copied_twice :
    (p size : ℕ) (bytes s : List ℕ)
    → size ≤ p
    → p + (length bytes + size) ≤ length s
    → let w = overwrite p bytes s in
      slice p (length bytes + size) (overwrite (p + length bytes) (slice 0 size w) w)
      ≡ bytes ++ slice 0 size s
copied_twice p size bytes s h room =
    let w = overwrite p bytes s in
    let lw = length-overwrite p bytes s in
    let n = length bytes in
    let old = slice 0 size w in
    let len : length old ≡ size = omega (arith, length-slice 0 size w) in
    let lo = length-overwrite (p + n) old w in
    slice-append p n size (overwrite (p + n) old w) (omega arith)
    ∙ ap₂ ◌++◌
        (slice-overwrite_apart (p + n) p n old w (omega arith) (inl (omega arith))
          ∙ slice-overwrite p bytes s (omega arith))
        (subst (λ k. slice (p + n) k (overwrite (p + n) old w) ≡ old) len
            (slice-overwrite (p + n) old w (omega arith))
          ∙ slice-overwrite_apart p 0 size bytes s (omega arith) (inl (omega arith)))

commit-Prepended :
    (bytes : List ℕ) {b r : Buffer}
    → Acquired (add_size b.size (length bytes)) b r
    → b.offset ≡ 0
    → r.offset ≡ 0
    → b.size + length bytes < 2 ^ 61
    → r.size ≤ r.acquired_offset
    → Prepended bytes b (
        Option.bind (write_acquired bytes r) λ w.
          Option.map
            (λ s. commit (add_size b.size (length bytes)) (record w { buffer = s }))
            (copy_within
              (w.acquired_offset + length bytes)
              (element_offset w.offset)
              w.size
              w.buffer))
unfolding write_acquired copy_within commit Option.bind
commit-Prepended bytes {b} {r} acq e e' small behind =
    let n = length bytes in
    let p = r.acquired_offset in
    let v = acq.sound in
    let sum : add_size b.size n ≡ n + b.size = omega arith in
    let same = acq.size_kept in
    let fits : p + n + r.size ≤ length r.buffer = omega arith in
    let w = overwrite p bytes r.buffer in
    let lw = length-overwrite p bytes r.buffer in
    let from = element_offset r.offset in
    let z : from ≡ 0 = omega arith in
    let old = slice from r.size w in
    let len : length old ≡ r.size = omega (arith, length-slice from r.size w) in
    let lo = length-overwrite (p + n) old w in
    let first : leb (p + n) (length r.buffer) ≡ true = le→leb _ _ (omega arith) in
    let source : leb (from + r.size) (length w) ≡ true = le→leb _ _ (omega arith) in
    let before : leb (from + r.size) (p + n) ≡ true = le→leb _ _ (omega arith) in
    let second : leb (p + n + length old) (length w) ≡ true = le→leb _ _ (omega arith) in
    (
      record r { buffer = overwrite (p + n) old w; offset = p; size = add_size b.size n },
      rw (first, source, before, second),
      rw (sum, ← same, z) (copied_twice p r.size bytes r.buffer behind (omega arith))
          ∙ ap (◌++◌ bytes) (subst (λ i. slice i r.size r.buffer ≡ contents b) e' acq.kept),
      record {
        whole = omega (arith, lw, lo);
        inside = omega (arith, lw, lo);
        small = omega (arith, lw, lo);
        backed = omega (arith, lw, lo);
      },
    )

-- `prepend` puts the header before the data, in a sound buffer and with no write out of bounds: with
-- exactly the header's size free in front; and with the data at the start of the storage where
-- `acquire` is in bounds for the header and the data.
pub prepend-Prepended :
    (a : Allocator) (bytes : List ℕ) {b : Buffer}
    → IsSound b
    → (b.offset ≡ length bytes)
      ⊎ ((b.offset ≡ 0) × HasSlack b × IsAligned b × (b.size + b.size + length bytes < 2 ^ 61))
    → Prepended bytes b (prepend a bytes b)
unfolding prepend
prepend-Prepended a bytes v (inl e) = prepend_fit a bytes v e
prepend-Prepended a bytes {b} v (inr (e, slack, al, small)) = elim (dec_lt 0 (length bytes)) [
  | no empty ↦ prepend_fit a bytes v (omega arith)
  | yes pos ↦
      let sum : add_size b.size (length bytes) ≡ b.size + length bytes = omega arith in
      let acq = acquire-Acquired a (add_size b.size (length bytes)) v slack al (omega arith) in
      let still = acq.offset_kept in
      let back : leb (length bytes) b.offset ≡ false = ground arith in
      rw back (commit-Prepended bytes acq e (omega arith) (omega arith) (omega arith))
]
