-- ===== src/Core/Pool/Runs.antt =====
-- Runs of the pool, and the theorems on it at concrete inputs.
use libcornrow.Base.{replicate, ℕ, ◌*◌, ◌≡◌, refl, some, [], ◌∷◌, ◌++◌, arith}
use libcornrow.Core.Pool.{Entry, Pool, first_fit, acquire, release}
use libcornrow.Core.Buffer.{Allocator, Buffer, blank, capacity, clear}
use libcornrow.Core.Buffer.Bounds.{IsSound}
use libcornrow.Core.Pool.Laws.{
  IsFree, IsPool, Served, acquire-Served, release-IsPool, addresses, release-acquire-perm,
}
use mathlib.Core.List.{Perm}

abbrev exact : Allocator
exact = record { growth = λ c n. n; growth_enough = λ c n. omega arith }

-- Free buffers of 4 and of 8 bytes at the addresses 1 and 2, and one of 8 bytes that is in use.
abbrev words_of : ℕ → Buffer
words_of n = record blank { buffer = replicate (4 * n) 0; reserved = n }

abbrev small_buffer : Entry
small_buffer = record { address = 1; object = words_of 1 }

abbrev large_buffer : Entry
large_buffer = record { address = 2; object = words_of 2 }

abbrev used_buffer : Entry
used_buffer = record { address = 3; object = record (words_of 2) { size = 5; offset = 1 } }

abbrev two_free : Pool
two_free = record { buffers = small_buffer ∷ large_buffer ∷ []; next = 4 }

used_buffer-IsSound : IsSound used_buffer.object
used_buffer-IsSound = record {
  whole = refl;
  inside = omega arith;
  small = omega arith;
  backed = omega arith;
}

small_buffer-IsFree : IsFree small_buffer
small_buffer-IsFree = record {
  sound = record { whole = refl; inside = omega arith; small = omega arith; backed = omega arith };
  no_data = refl;
  at_start = refl;
}

large_buffer-IsFree : IsFree large_buffer
large_buffer-IsFree = record {
  sound = record { whole = refl; inside = omega arith; small = omega arith; backed = omega arith };
  no_data = refl;
  at_start = refl;
}

two_free-IsPool : IsPool two_free
two_free-IsPool = record {
  distinct = (((λ e. omega arith), tt), (tt, tt));
  below = (omega arith, (omega arith, tt));
  free = (small_buffer-IsFree, (large_buffer-IsFree, tt));
}

first_fit_two : first_fit 6 two_free.buffers ≡ some large_buffer
unfolding first_fit capacity
first_fit_two = refl

release_last :
    (release (some used_buffer) two_free).buffers
    ≡ small_buffer ∷ large_buffer ∷ record { address = 3; object = words_of 2 } ∷ []
unfolding release clear
release_last = refl

acquire-Served_example :
    (r : Entry × Pool) × (acquire {Node = ℕ} exact 6 (some 0) two_free ≡ some r)
    × Served 6 two_free r
acquire-Served_example = acquire-Served exact 6 0 two_free-IsPool (omega arith)

release-IsPool_example :
    IsPool (release (some used_buffer) two_free)
    × ((release (some used_buffer) two_free).buffers
        ≡ two_free.buffers ++ record used_buffer { object = clear used_buffer.object } ∷ [])
release-IsPool_example =
    release-IsPool two_free-IsPool ((λ e. omega arith), ((λ e. omega arith), tt)) (omega arith)
      used_buffer-IsSound

release-acquire-perm_example :
    (r : Entry × Pool) × (acquire {Node = ℕ} exact 6 (some 0) two_free ≡ some r)
    × Perm (addresses (release (some r.0) r.1)) (addresses two_free)
release-acquire-perm_example = release-acquire-perm exact 6 (some 0) two_free-IsPool first_fit_two
