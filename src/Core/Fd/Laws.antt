-- ===== src/Core/Fd/Laws.antt =====
-- What is read is what is pushed.
use libcornrow.Base.{
  le→leb, length, overwrite, length-overwrite, slice-overwrite, ℕ, ◌+◌, ◌^◌, ◌≤◌, ◌<◌, min, ◌≡◌,
  refl, false, some, List, arith,
}
use libcornrow.Core.Buffer.{Allocator, Buffer, contents, commit, shrink}
use libcornrow.Core.Buffer.Bounds.{IsSound, HasSlack, IsAligned, Acquired, acquire-Acquired}
use libcornrow.Core.Pool.{Entry}
use libcornrow.Core.Node.{Buffers}
use libcornrow.Core.Selector.{System, push_buffer}
use libcornrow.Core.Udp.{unknown_conf}
use libcornrow.Core.Fd.{FdSource, receive, read_into, do_read, on_read}
use mathlib.Core.Option

receive-Acquired :
    (n : ℕ) (bytes : List ℕ) {b b1 : Buffer}
    → Acquired n b b1
    → length bytes ≤ n
    → (c : Buffer) × (receive bytes (commit n b1) ≡ some c)
      × (contents c ≡ bytes)
      × (c.audio_conf ≡ unknown_conf)
      × IsSound c
unfolding receive commit shrink
receive-Acquired n bytes {b} {b1} acq h =
    let v = acq.sound in
    let keep = length-overwrite b1.acquired_offset bytes b1.buffer in
    let cut : min n (length bytes) ≡ length bytes = omega (arith, h) in
    (
      record b1 {
        buffer = overwrite b1.acquired_offset bytes b1.buffer;
        offset = b1.acquired_offset;
        size = length bytes;
        audio_conf = unknown_conf;
      },
      rw
          (
            le→leb (b1.acquired_offset + length bytes) (length b1.buffer)
                (omega (arith, acq.room, h)),
            cut,
          )
          refl,
      slice-overwrite b1.acquired_offset bytes b1.buffer (omega (arith, acq.room, h)),
      refl,
      record {
        whole = omega (arith, v, keep);
        inside = omega (arith, acq.room, h, keep);
        small = omega (arith, v, keep);
        backed = omega (arith, v, keep);
      },
    )

module _ {W : Type 0} (pool : Buffers W) (a : Allocator) (me : ℕ) where
  -- A block that is read into a sound buffer, whose data ends at a multiple of 4, with three spare bytes behind it, is
  -- pushed byte for byte, as a buffer of unknown format; then the source reads again, into what the chain has left it.
  pub on_read-pushed :
      (bytes : List ℕ) (u : FdSource) (e : Entry) (sys : System W)
      → u.buffer ≡ some e
      → IsSound e.object
      → HasSlack e.object
      → IsAligned e.object
      → e.object.offset + e.object.size + u.block_size < 2 ^ 61
      → length bytes ≤ u.block_size
      → (c : Buffer) × ((Option.bind
            (do_read pool a me u sys)
            λ r. on_read pool a me (some bytes) r.0 r.1)
          ≡ (Option.bind
              (push_buffer pool me (record e { object = c }) sys)
              λ r. do_read pool a me (record u { is_reading = false; buffer = some r.0 }) r.1))
        × (contents c ≡ bytes)
        × (c.audio_conf ≡ unknown_conf)
        × IsSound c
  unfolding on_read do_read read_into Option.bind
  on_read-pushed bytes u e sys has v slack al small fits =
      let (c, runs, whole, conf, w) =
        receive-Acquired u.block_size bytes (acquire-Acquired a u.block_size v slack al small)
          fits in
      (c, rw (has, runs) refl, whole, conf, w)
