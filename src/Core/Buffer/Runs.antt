-- ===== src/Core/Buffer/Runs.antt =====
-- Runs of a buffer, and the theorems on buffers at concrete inputs.
use libcornrow.Base.{length, overwrite, ℕ, ◌≡◌, refl, inr, none, some, [], ◌∷◌, arith}
use libcornrow.Core.Buffer.{Allocator, Buffer, resize, blank, contents, acquire, prepend}
use libcornrow.Core.Buffer.Bounds.{IsSound, Acquired, acquire-Acquired}
use libcornrow.Core.Buffer.Contents.{produce, contents-produce}
use libcornrow.Core.Buffer.Prepend.{Prepended, prepend-Prepended}
use libcornrow.Core.Buffer.Overruns.{acquire-overrun}
use mathlib.Core.Option

-- A vector that grows to what is needed.
abbrev exact : Allocator
exact = record { growth = λ c n. n; growth_enough = λ c n. omega arith }

-- Sixteen bytes of storage, with `n` bytes of data from `i` on.
abbrev sixteen : ℕ → ℕ → Buffer
sixteen i n = record blank {
  buffer = 0 ∷ 1 ∷ 2 ∷ 3 ∷ 4 ∷ 5 ∷ 6 ∷ 7 ∷ 8 ∷ 9 ∷ 10 ∷ 11 ∷ 12 ∷ 13 ∷ 14 ∷ 15 ∷ [];
  reserved = 4;
  offset = i;
  size = n;
}

sixteen_4_4-IsSound : IsSound (sixteen 4 4)
sixteen_4_4-IsSound = record {
  whole = refl;
  inside = omega arith;
  small = omega arith;
  backed = omega arith;
}

sixteen_0_4-IsSound : IsSound (sixteen 0 4)
sixteen_0_4-IsSound = record {
  whole = refl;
  inside = omega arith;
  small = omega arith;
  backed = omega arith;
}

sixteen_4_10-IsSound : IsSound (sixteen 4 10)
sixteen_4_10-IsSound = record {
  whole = refl;
  inside = omega arith;
  small = omega arith;
  backed = omega arith;
}

sixteen_4_7-IsSound : IsSound (sixteen 4 7)
sixteen_4_7-IsSound = record {
  whole = refl;
  inside = omega arith;
  small = omega arith;
  backed = omega arith;
}

-- The largest region that fits behind the data
acquire_back : (acquire exact 5 (sixteen 4 4)).acquired_offset ≡ 8
unfolding acquire
acquire_back = refl

acquire_grows : length (acquire exact 12 (sixteen 4 4)).buffer ≡ 20
unfolding acquire resize
acquire_grows = refl

prepend_front :
    Option.map contents (prepend exact (21 ∷ 22 ∷ 23 ∷ 24 ∷ []) (sixteen 4 4))
    ≡ some (21 ∷ 22 ∷ 23 ∷ 24 ∷ 4 ∷ 5 ∷ 6 ∷ 7 ∷ [])
unfolding prepend overwrite
prepend_front = refl

acquire-Acquired_example : Acquired 12 (sixteen 4 4) (acquire exact 12 (sixteen 4 4))
acquire-Acquired_example =
    acquire-Acquired exact 12 sixteen_4_4-IsSound (omega arith) refl (omega arith)

contents-produce_example :
    (c : Buffer) × (produce exact 12 (7 ∷ 8 ∷ 9 ∷ []) (sixteen 4 4) ≡ some c)
    × (contents c ≡ 7 ∷ 8 ∷ 9 ∷ [])
    × IsSound c
contents-produce_example =
    contents-produce exact 12 (7 ∷ 8 ∷ 9 ∷ []) sixteen_4_4-IsSound (omega arith) refl (omega arith)
      (omega arith)

prepend-Prepended_example :
    Prepended (7 ∷ 8 ∷ 9 ∷ []) (sixteen 0 4) (prepend exact (7 ∷ 8 ∷ 9 ∷ []) (sixteen 0 4))
prepend-Prepended_example =
    prepend-Prepended exact (7 ∷ 8 ∷ 9 ∷ []) sixteen_0_4-IsSound
      (inr (refl, omega arith, refl, omega arith))

acquire-overrun_example :
    ((acquire exact 5 (sixteen 4 10)).buffer ≡ (sixteen 4 10).buffer)
    × (produce exact 5 (1 ∷ 2 ∷ 3 ∷ 4 ∷ 5 ∷ []) (sixteen 4 10) ≡ none)
acquire-overrun_example =
    acquire-overrun exact (1 ∷ 2 ∷ 3 ∷ 4 ∷ 5 ∷ []) sixteen_4_10-IsSound (omega arith) (omega arith)
      (omega arith) (omega arith)
