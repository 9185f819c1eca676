-- ===== src/Core/Buffer.antt =====
-- include/coro/core/Buffer.h and src/core/Buffer.cpp. A buffer is its private part; the storage,
-- `std::vector<int32_t>`, is the list of its bytes. Pointers into the storage are byte offsets.
pub mod Bounds
pub mod Contents
pub mod Prepend
pub mod Overruns
pub mod Room
mod Runs
use libcornrow.Base.{
  ltb, leb, if◌then◌else◌, length, take, replicate, slice, memcpy, add_size, sub_size, mul_size, ℕ,
  ◌+◌, ◌-◌, ◌*◌, ◌/◌, ◌%◌, ◌≤◌, min, max, Bool, ◌&&◌, ◌||◌, Option, none, List, [], ◌++◌,
}
use mathlib.Core.Option
use libcornrow.Audio.Types.{AudioConf, no_conf}

-- `std::vector` chooses the new capacity when it has to grow: old capacity, elements needed.
pub record Allocator : Type 0 where
  pub growth : ℕ → ℕ → ℕ
  pub growth_enough : (c n : ℕ) → n ≤ growth c n

pub record Buffer : Type 0 where
  pub buffer : List ℕ
  pub reserved : ℕ
  pub size : ℕ
  pub offset : ℕ
  pub acquired_offset : ℕ
  pub audio_conf : AudioConf

-- `d->buffer.size()`, in elements of four bytes, and `d->buffer.size() * 4`
abbrev pub words : Buffer → ℕ
words b = length b.buffer / 4

abbrev pub storage_size : Buffer → ℕ
storage_size b = mul_size (words b) 4

-- `std::vector::resize`: what is kept, then zeros
unfoldable pub resize : Allocator → Buffer → ℕ → Buffer
resize a b n = record b {
  buffer = take (4 * n) b.buffer ++ replicate (4 * n - length b.buffer) 0;
  reserved = if leb n b.reserved then b.reserved else a.growth b.reserved n;
}

abbrev pub blank : Buffer
blank = record {
  buffer = [];
  reserved = 0;
  size = 0;
  offset = 0;
  acquired_offset = 0;
  audio_conf = no_conf;
}

-- `Buffer(size_t reservedSize)`
unfoldable pub new_buffer : Allocator → ℕ → Buffer
new_buffer a reserved_size = resize a blank (add_size reserved_size 3 / 4)

-- `Buffer(const char* data, size_t size, size_t reservedSize, size_t offset)`; `none` if the copy
-- would leave the storage.
unfoldable pub new_buffer_of : Allocator → List ℕ → ℕ → ℕ → Option Buffer
new_buffer_of a bytes reserved_size off =
    let b = resize a blank (add_size (max (add_size (length bytes) off) reserved_size / 4) 1) in
    Option.map (λ s. record b { buffer = s; size = length bytes; offset = off })
      (memcpy off bytes b.buffer)

-- The bytes at `data()`, `size()` of them.
abbrev pub contents : Buffer → List ℕ
contents b = slice b.offset b.size b.buffer

unfoldable pub is_valid : Buffer → Bool
is_valid b = ltb 0 b.size

unfoldable pub capacity : Buffer → ℕ
capacity b = mul_size b.reserved 4

-- `d->buffer.size() * 4 - d->offset - d->size - 3`
abbrev pub size_at_back : Buffer → ℕ
size_at_back b = sub_size (sub_size (sub_size (storage_size b) b.offset) b.size) 3

-- `acquiredOffset = offset + size; acquiredOffset += acquiredOffset % 4`
abbrev pub back_offset : Buffer → ℕ
back_offset b = let e = add_size b.offset b.size in add_size e (e % 4)

-- The new state; the pointer that `acquire` returns is its `acquired_offset`.
unfoldable pub acquire : Allocator → ℕ → Buffer → Buffer
unfolding resize
acquire a n b =
    if leb n b.offset
    then record b { acquired_offset = 0 }
    else if leb n (size_at_back b)
    then record b { acquired_offset = back_offset b }
    else record (resize a b (add_size (words b) (sub_size n (size_at_back b) / 4))) {
      acquired_offset = back_offset b;
    }

unfoldable pub commit : ℕ → Buffer → Buffer
commit n b = record b { offset = b.acquired_offset; size = n }

-- A producer writes through the pointer that `acquire` returned.
unfoldable pub write_acquired : List ℕ → Buffer → Option Buffer
write_acquired bytes b =
    Option.map (λ s. record b { buffer = s }) (memcpy b.acquired_offset bytes b.buffer)

-- `memcpy` inside the storage: undefined where a range leaves the storage, or where the two overlap.
unfoldable pub copy_within : ℕ → ℕ → ℕ → List ℕ → Option (List ℕ)
copy_within to from n s =
    if leb (from + n) (length s) && (leb (from + n) to || leb (to + n) from)
    then memcpy to (slice from n s) s
    else none

-- `d->buffer.data() + d->offset` steps over elements of four bytes.
abbrev pub element_offset : ℕ → ℕ
element_offset i = 4 * i

unfoldable pub prepend : Allocator → List ℕ → Buffer → Option Buffer
unfolding write_acquired copy_within acquire commit Option.bind
prepend a bytes b =
    if leb n b.offset
    then Option.map (λ s. record b { buffer = s; offset = b.offset - n; size = add_size b.size n })
        (memcpy (element_offset (b.offset - n)) bytes b.buffer)
    else Option.bind (write_acquired bytes room) λ w.
      Option.map (λ s. commit (add_size b.size n) (record w { buffer = s }))
        (copy_within (w.acquired_offset + n) (element_offset w.offset) w.size w.buffer)
  where
    n : ℕ
    n = length bytes

    room : Buffer
    room = acquire a (add_size b.size n) b

unfoldable pub grow : ℕ → Buffer → Buffer
grow n b = record b { size = min (storage_size b) n }

unfoldable pub shrink : ℕ → Buffer → Buffer
shrink n b = record b { size = min b.size n }

unfoldable pub clear : Buffer → Buffer
clear b = record b { offset = 0; size = 0 }

unfoldable pub trim_front : ℕ → Buffer → Buffer
trim_front n b =
    if ltb b.size n then b else record b { offset = add_size b.offset n; size = b.size - n }

unfoldable pub trim_back : ℕ → Buffer → Buffer
trim_back n b = if ltb b.size n then b else record b { size = b.size - n }
