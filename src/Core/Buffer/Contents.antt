-- ===== src/Core/Buffer/Contents.antt =====
-- What the operations of a buffer do to its contents.
use libcornrow.Base.{
  ltb, leb, if◌then◌else◌, lt→ltb, le→leb, length, get_elem?, take, drop, list_ext, get_elem?-take,
  get_elem?-drop, slice, overwrite, length-slice, length-overwrite, get_elem?-slice,
  slice-overwrite, add_size, ℕ, ◌+◌, ◌-◌, ◌^◌, ◌≤◌, ◌<◌, min, ◌≡◌, sym, ap, true, false, Option,
  some, List, arith,
}
use libcornrow.Core.Buffer.{
  Allocator, Buffer, contents, acquire, commit, write_acquired, shrink, trim_front, trim_back,
}
use libcornrow.Core.Buffer.Bounds.{IsSound, HasSlack, IsAligned, Acquired, acquire-Acquired}
use mathlib.Core.Option
use native.Mathlib.Decide.{dec_lt}

pub drop_of_slice :
    (i n k : ℕ) (xs : List ℕ) → k ≤ n → drop k (slice i n xs) ≡ slice (i + k) (n - k) xs
drop_of_slice i n k xs h = list_ext _ _ λ j. ground (
  arith,
  get_elem?-drop k (slice i n xs) j,
  get_elem?-slice i n xs (k + j),
  get_elem?-slice (i + k) (n - k) xs j,
  shift j,
)
  where
    shift : (j : ℕ) → get_elem? xs (i + (k + j)) ≡ get_elem? xs (i + k + j)
    shift j = ap (get_elem? xs) (omega arith)

pub take_of_slice : (i n k : ℕ) (xs : List ℕ) → take k (slice i n xs) ≡ slice i (min n k) xs
take_of_slice i n k xs = list_ext _ _ λ j. ground (
  arith,
  get_elem?-take k (slice i n xs) j,
  get_elem?-slice i n xs j,
  get_elem?-slice i (min n k) xs j,
)

pub length-contents : {b : Buffer} → IsSound b → length (contents b) ≡ b.size
length-contents {b} v = omega (arith, length-slice b.offset b.size b.buffer)

-- `trimFront` drops `n` bytes, and does nothing if there are fewer.
pub contents-trim_front :
    (n : ℕ) {b : Buffer}
    → IsSound b
    → contents (trim_front n b) ≡ (if leb n b.size then drop n (contents b) else contents b)
unfolding trim_front
contents-trim_front n {b} v = elim (dec_lt b.size n) [
  | yes h ↦
      let e : ltb b.size n ≡ true = lt→ltb _ _ h in
      let e' : leb n b.size ≡ false = ground arith in rw (e, e')
  | no h ↦
      let e : ltb b.size n ≡ false = ground arith in
      let fits : n ≤ b.size = omega arith in
      let sum : add_size b.offset n ≡ b.offset + n = omega arith in
      rw (e, le→leb _ _ fits, sum) (sym (drop_of_slice b.offset b.size n b.buffer fits))
]

-- `trimBack` keeps all but `n` bytes, and does nothing if there are fewer.
pub contents-trim_back :
    (n : ℕ) {b : Buffer}
    → IsSound b
    → contents (trim_back n b)
      ≡ (if leb n b.size then take (b.size - n) (contents b) else contents b)
unfolding trim_back
contents-trim_back n {b} v = elim (dec_lt b.size n) [
  | yes h ↦ let e' : leb n b.size ≡ false = ground arith in rw (lt→ltb _ _ h, e')
  | no h ↦
      let e : ltb b.size n ≡ false = ground arith in
      let fits : n ≤ b.size = omega arith in
      let m : min b.size (b.size - n) ≡ b.size - n = omega arith in
      rw (e, le→leb _ _ fits, take_of_slice b.offset b.size (b.size - n) b.buffer, m)
]

-- `shrink` keeps the first `n` bytes.
pub contents-shrink : (n : ℕ) (b : Buffer) → contents (shrink n b) ≡ take n (contents b)
unfolding shrink
contents-shrink n b = sym (take_of_slice b.offset b.size n b.buffer)

-- What every producer does: room for `n` bytes, fewer or as many written, and committed.
unfoldable pub produce : Allocator → ℕ → List ℕ → Buffer → Option Buffer
unfolding write_acquired commit
produce a n bytes b = Option.map (commit (length bytes)) (write_acquired bytes (acquire a n b))

pub commit_written :
    (n : ℕ) (bytes : List ℕ) {b b' : Buffer}
    → Acquired n b b'
    → length bytes ≤ n
    → (c : Buffer) × (Option.map (commit (length bytes)) (write_acquired bytes b') ≡ some c)
      × (contents c ≡ bytes)
      × IsSound c
unfolding write_acquired commit
commit_written n bytes {b} {b'} acq h =
    let keep = length-overwrite b'.acquired_offset bytes b'.buffer in
    let v = acq.sound in
    (
      record b' {
        buffer = overwrite b'.acquired_offset bytes b'.buffer;
        offset = b'.acquired_offset;
        size = length bytes;
      },
      rw (le→leb (b'.acquired_offset + length bytes) (length b'.buffer) (omega arith)),
      slice-overwrite b'.acquired_offset bytes b'.buffer (omega arith),
      record {
        whole = omega (arith, keep);
        inside = omega (arith, keep);
        small = omega (arith, keep);
        backed = omega (arith, keep);
      },
    )

-- Where `acquire` is in bounds (a sound buffer whose data ends at a multiple of 4, with three spare
-- bytes behind it), the bytes that a producer writes and commits, no more than it asked for, are
-- the contents of a sound buffer: no write leaves the storage.
pub contents-produce :
    (a : Allocator) (n : ℕ) (bytes : List ℕ) {b : Buffer}
    → IsSound b
    → HasSlack b
    → IsAligned b
    → b.offset + b.size + n < 2 ^ 61
    → length bytes ≤ n
    → (c : Buffer) × (produce a n bytes b ≡ some c) × (contents c ≡ bytes) × IsSound c
unfolding produce
contents-produce a n bytes v slack al small h =
    commit_written n bytes (acquire-Acquired a n v slack al small) h
