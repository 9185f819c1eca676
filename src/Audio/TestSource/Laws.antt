-- ===== src/Audio/TestSource/Laws.antt =====
-- What the test source hands to its chain.
use libcornrow.Base.{
  leb, le→leb, Bool-cases, length, take, take_all, overwrite, length-overwrite, slice-overwrite,
  add_size, sub_size, ℕ, ◌+◌, ◌-◌, ◌*◌, ◌/◌, ◌%◌, ◌≤◌, ◌<◌, ◌≡◌, refl, sym, ap, ◌∙◌, inl, inr, true,
  Option, some, List, ◌∷◌, append-nil, arith,
}
use libcornrow.Core.Buffer.{
  Allocator, Buffer, words, resize, contents, is_valid, capacity, size_at_back, back_offset,
  acquire, commit, write_acquired,
}
use libcornrow.Core.Buffer.Bounds.{IsSound}
use libcornrow.Core.Pool.{Entry}
use libcornrow.Core.Node.{Node, Buffers, apply, process}
use libcornrow.Core.Node.Laws.{process_step}
use libcornrow.Audio.TestSource.{fill, after_fill, on_process, test_node}

-- An empty buffer whose storage has `n` bytes, and three at least, and no capacity beyond its bytes
pub record IsIdle (n : ℕ) (b : Buffer) : Type 0 where
  pub sound : IsSound b
  pub first : b.offset ≡ 0
  pub is_empty : b.size ≡ 0
  pub full : 4 * b.reserved ≡ length b.buffer
  pub slack : 3 ≤ length b.buffer
  pub fits : n ≤ length b.buffer

resize_same :
    (a : Allocator) (b : Buffer)
    → length b.buffer % 4 ≡ 0
    → length b.buffer ≤ 4 * b.reserved
    → resize a b (length b.buffer / 4) ≡ b
unfolding resize
resize_same a b whole backed =
    let none_left : 4 * (length b.buffer / 4) - length b.buffer ≡ 0 = omega arith in
    let kept : leb (length b.buffer / 4) b.reserved ≡ true = ground arith in
    rw
      (
        none_left,
        kept,
        take_all (4 * (length b.buffer / 4)) b.buffer (omega arith),
        append-nil b.buffer,
      )
      refl

-- `acquire` leaves such a buffer as it is, and gives its start.
acquire-idle :
    (a : Allocator) (n : ℕ) {b : Buffer}
    → IsIdle n b
    → acquire a n b ≡ record b { acquired_offset = 0 }
unfolding acquire
acquire-idle a n {b} i =
    let v = i.sound in
    let start : back_offset b ≡ 0 = omega (arith, i.first, i.is_empty) in
    elim (Bool-cases (leb n b.offset)) [
      | inl front ↦ rw front refl
      | inr front ↦ elim (Bool-cases (leb n (size_at_back b))) [
        | inl back ↦ rw (front, back, start) refl
        | inr back ↦
            let same : add_size (words b) (sub_size n (size_at_back b) / 4) ≡ length b.buffer / 4 =
              ground (arith, back, i.first, i.is_empty, i.fits, i.slack, v.small, v.whole) in
            rw (front, back, start, same)
              (ap (λ (c : Buffer). record c { acquired_offset = 0 })
                (resize_same a b v.whole v.backed))
      ]
    ]

-- As many bytes as the buffer has capacity are written in bounds; the first `n` of them are committed.
pub fill-contents :
    (a : Allocator) (n : ℕ) (bytes : List ℕ) {b : Buffer}
    → IsIdle n b
    → length bytes ≡ capacity b
    → (c : Buffer) × (fill a n bytes b ≡ some c)
      × (contents c ≡ take n bytes)
      × (c.size ≡ n)
      × IsSound c
unfolding fill write_acquired commit capacity
fill-contents a n bytes {b} i long =
    let v = i.sound in
    let all : length bytes ≡ length b.buffer = omega (arith, long, i.full, v.small) in
    let keep = length-overwrite 0 bytes b.buffer in
    (
      record b { buffer = overwrite 0 bytes b.buffer; offset = 0; size = n; acquired_offset = 0 },
      rw (acquire-idle a n i, le→leb (0 + length bytes) (length b.buffer) (omega arith)) refl,
      ap (take n) (
          sym (take_all (length bytes) (overwrite 0 bytes b.buffer) (omega (arith, keep)))
          ∙ slice-overwrite 0 bytes b.buffer (omega arith)),
      refl,
      record {
        whole = omega (arith, keep);
        inside = omega (arith, keep, i.fits);
        small = omega (arith, keep);
        backed = omega (arith, keep);
      },
    )

module _ {V : Type 0} (a : Allocator) (rand : ℕ → V → List ℕ × V) where
  on_process_filled :
      (n : ℕ) (e : Entry) (v : V) {c : Buffer}
      → capacity (acquire a n e.object) ≡ capacity e.object
      → fill a n ((rand (capacity e.object) v).0) e.object ≡ some c
      → on_process a rand n e (some v)
        ≡ (some (record e { object = c }), some ((rand (capacity e.object) v).1))
  unfolding on_process
  on_process_filled n e v size filled =
      ap (λ k. after_fill e ((rand k v).1) (fill a n ((rand k v).0) e.object)) size
      ∙ ap (after_fill e ((rand (capacity e.object) v).1)) filled

  -- Where `rand` draws as many bytes as it is asked for: with an empty buffer of the source's size, without spare
  -- capacity, the next node gets the first bytes that were drawn, as many as the source's buffers have, one at least.
  pub process-filled :
      (pool : Buffers (Option V)) (stop_loop : V → V) (n : ℕ) (next : Node (Option V))
      (rest : List (Node (Option V))) (e : Entry) (v : V)
      → IsIdle n e.object
      → 0 < n
      → ((k : ℕ) (v : V) → length ((rand k v).0) ≡ k)
      → (c : Buffer) × (process pool (test_node a rand stop_loop n) (next ∷ rest) e (some v)
          ≡ process pool next rest
              (record e { object = c })
              (some ((rand (capacity e.object) v).1)))
        × (contents c ≡ take n ((rand (capacity e.object) v).0))
        × IsSound c
  unfolding test_node apply
  process-filled pool stop_loop n next rest e v i pos draws =
      let size : capacity (acquire a n e.object) ≡ capacity e.object =
        ap capacity (acquire-idle a n i) ∙ unfold capacity in refl in
      let (c, filled, taken, count, sound) =
        fill-contents a n ((rand (capacity e.object) v).0) i (draws (capacity e.object) v) in
      let some_left : is_valid c ≡ true = unfold is_valid in ground (arith, count, pos) in
      (
        c,
        process_step pool (test_node a rand stop_loop n) next rest e (some v)
            (on_process_filled n e v size filled) some_left,
        taken,
        sound,
      )
