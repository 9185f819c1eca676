-- ===== src/Core/Buffer/Bounds.antt =====
-- The invariant of a buffer, and which operations keep it.
use native.Mathlib.Decide.{dec_lt}
use libcornrow.Base.{
  leb, le→leb, length, get_elem?, take, replicate, length-append, length-take, length-replicate,
  get_elem?-take, get_elem?-append, slice_ext, add_size, sub_size, ℕ, ◌+◌, ◌-◌, ◌*◌, ◌/◌, ◌%◌, ◌^◌,
  ◌≤◌, ◌<◌, ◌≡◌, refl, ◌⊎◌, inl, inr, false, arith,
}
use libcornrow.Core.Buffer.{
  Allocator, Buffer, words, resize, blank, new_buffer, contents, size_at_back, back_offset, acquire,
  shrink, clear, trim_front, trim_back,
}

-- The data lies in the storage, whose length is a whole number of elements and far from the limit
-- of `size_t`.
pub record IsSound (b : Buffer) : Type 0 where
  pub whole : length b.buffer % 4 ≡ 0
  pub inside : b.offset + b.size ≤ length b.buffer
  pub small : length b.buffer < 2 ^ 62
  pub backed : length b.buffer ≤ 4 * b.reserved

pub length-resize : (a : Allocator) (b : Buffer) (n : ℕ) → length (resize a b n).buffer ≡ 4 * n
unfolding resize
length-resize a b n = omega (
  arith,
  length-append (take (4 * n) b.buffer) (replicate {A = ℕ} (4 * n - length b.buffer) 0),
  length-take (4 * n) b.buffer,
  length-replicate {A = ℕ} (4 * n - length b.buffer) 0,
)

resize-backed : (a : Allocator) (b : Buffer) (n : ℕ) → 4 * n ≤ 4 * (resize a b n).reserved
unfolding resize
resize-backed a b n = ground (arith, a.growth_enough b.reserved n)

-- A fresh buffer of `n` bytes is empty, sound, and has room for at least `n` bytes.
pub new_buffer-IsSound :
    (a : Allocator) (n : ℕ)
    → n < 2 ^ 61
    → IsSound (new_buffer a n) × (n ≤ length (new_buffer a n).buffer) × ((new_buffer a n).size ≡ 0)
unfolding new_buffer
new_buffer-IsSound a n h = (
  record {
    whole = omega (arith, grown);
    inside = unfold resize in omega arith;
    small = omega (arith, grown);
    backed = omega (arith, grown, resize-backed a blank (add_size n 3 / 4));
  },
  omega (arith, grown),
  unfold resize in refl,
)
  where
    grown : length (resize a blank (add_size n 3 / 4)).buffer ≡ 4 * (add_size n 3 / 4)
    grown = length-resize a blank (add_size n 3 / 4)

-- Cutting, clearing and shrinking keep the invariant.
pub trim_front-IsSound : (n : ℕ) {b : Buffer} → IsSound b → IsSound (trim_front n b)
unfolding trim_front
trim_front-IsSound n v = ground arith

pub trim_back-IsSound : (n : ℕ) {b : Buffer} → IsSound b → IsSound (trim_back n b)
unfolding trim_back
trim_back-IsSound n v = ground arith

pub shrink-IsSound : (n : ℕ) {b : Buffer} → IsSound b → IsSound (shrink n b)
unfolding shrink
shrink-IsSound n v = omega arith

pub clear-IsSound : {b : Buffer} → IsSound b → IsSound (clear b)
unfolding clear
clear-IsSound v = omega arith

-- The three bytes that `acquire` takes off the space at the back are there.
abbrev pub HasSlack : Buffer → Type 0
HasSlack b = b.offset + b.size + 3 ≤ length b.buffer

abbrev pub IsAligned : Buffer → Type 0
IsAligned b = (b.offset + b.size) % 4 ≡ 0

pub record Acquired (n : ℕ) (b b' : Buffer) : Type 0 where
  pub sound : IsSound b'
  pub room : b'.acquired_offset + n ≤ length b'.buffer
  pub apart : (b'.acquired_offset + n ≤ b'.offset) ⊎ (b'.offset + b'.size ≤ b'.acquired_offset)
  pub kept : contents b' ≡ contents b
  pub size_kept : b'.size ≡ b.size
  pub offset_kept : b'.offset ≡ b.offset

get_elem?-resize :
    (a : Allocator) (b : Buffer) (n k : ℕ)
    → k < 4 * n
    → k < length b.buffer
    → get_elem? (resize a b n).buffer k ≡ get_elem? b.buffer k
unfolding resize
get_elem?-resize a b n k h h' = ground (
  arith,
  get_elem?-append (take (4 * n) b.buffer) (replicate (4 * n - length b.buffer) 0) k,
  get_elem?-take (4 * n) b.buffer k,
  length-take (4 * n) b.buffer,
)

-- The number of elements that `acquire` resizes to.
abbrev pub grown_words : ℕ → Buffer → ℕ
grown_words n b = add_size (words b) (sub_size n (size_at_back b) / 4)

grown_words-enough :
    (n : ℕ) {b : Buffer}
    → IsSound b
    → HasSlack b
    → b.offset + b.size + n < 2 ^ 61
    → size_at_back b < n
    → (b.offset + b.size + n ≤ 4 * grown_words n b)
      × (length b.buffer ≤ 4 * grown_words n b)
      × (4 * grown_words n b < 2 ^ 62)
grown_words-enough n v slack hn h = omega arith

pub back_offset-aligned : {b : Buffer} → IsSound b → IsAligned b → back_offset b ≡ b.offset + b.size
back_offset-aligned v al = omega arith

size_at_back-sub :
    {b : Buffer} → IsSound b → HasSlack b → size_at_back b ≡ length b.buffer - b.offset - b.size - 3
size_at_back-sub v slack = omega arith

acquire-front :
    (a : Allocator) (n : ℕ) {b : Buffer} → IsSound b → n ≤ b.offset → Acquired n b (acquire a n b)
unfolding acquire
acquire-front a n v h = rw (le→leb _ _ h) (record {
  sound = omega arith;
  room = omega arith;
  apart = inl (omega arith);
  kept = refl;
  size_kept = refl;
  offset_kept = refl;
})

acquire-back :
    (a : Allocator) (n : ℕ) {b : Buffer}
    → IsSound b
    → HasSlack b
    → IsAligned b
    → b.offset < n
    → n ≤ size_at_back b
    → Acquired n b (acquire a n b)
unfolding acquire
acquire-back a n {b} v slack al h h' =
    let e : leb n b.offset ≡ false = ground arith in
    rw (e, le→leb _ _ h')
      (record {
        sound = omega arith;
        room = omega arith;
        apart = inr (omega arith);
        kept = refl;
        size_kept = refl;
        offset_kept = refl;
      })

acquire-resize :
    (a : Allocator) (n : ℕ) {b : Buffer}
    → IsSound b
    → HasSlack b
    → IsAligned b
    → b.offset + b.size + n < 2 ^ 61
    → b.offset < n
    → size_at_back b < n
    → Acquired n b (acquire a n b)
unfolding acquire
acquire-resize a n {b} v slack al small h h' =
    let e : leb n b.offset ≡ false = ground arith in
    let e' : leb n (size_at_back b) ≡ false = ground arith in
    let (fit, more, less) = grown_words-enough n v slack small h' in
    let len = length-resize a b (grown_words n b) in
    rw (e, e')
      (record {
        sound = record {
          whole = omega (arith, len);
          inside = omega (arith, len);
          small = omega (arith, len);
          backed = omega (arith, len, resize-backed a b (grown_words n b));
        };
        room = omega (arith, len);
        apart = inr (omega arith);
        kept = slice_ext b.offset b.offset b.size _ _ λ k p.
            get_elem?-resize a b (grown_words n b) (b.offset + k) (omega arith) (omega arith);
        size_kept = refl;
        offset_kept = refl;
      })

-- On a sound buffer whose data ends at a multiple of 4, with the three spare bytes behind it,
-- `acquire` returns a region of `n` bytes inside the storage and apart from the data, keeps the
-- data, and keeps the buffer sound.
pub acquire-Acquired :
    (a : Allocator) (n : ℕ) {b : Buffer}
    → IsSound b
    → HasSlack b
    → IsAligned b
    → b.offset + b.size + n < 2 ^ 61
    → Acquired n b (acquire a n b)
acquire-Acquired a n {b} v slack al small = elim (dec_lt b.offset n) [
  | no front ↦ acquire-front a n v (omega arith)
  | yes h ↦ elim (dec_lt (size_at_back b) n) [
    | yes grown ↦ acquire-resize a n v slack al small h grown
    | no back ↦ acquire-back a n v slack al h (omega arith)
  ]
]
