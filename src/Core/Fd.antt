-- ===== src/Core/Fd.antt =====
-- src/core/FdSource.cpp. The descriptor is a source of events: it writes what it reads into the memory that it was given.
pub mod Laws
mod Runs
use libcornrow.Base.{length, memcpy, ℕ, Bool, true, false, Option, none, some, List}
use libcornrow.Core.Buffer.{Allocator, Buffer, acquire, commit, shrink}
use libcornrow.Core.Pool.{Entry}
use libcornrow.Core.Node.{Buffers}
use libcornrow.Core.Selector.{System, stop, push_buffer}
use libcornrow.Core.Udp.{ℤ, unknown_conf}
use mathlib.Core.Option

-- `is_reading` says that a read is outstanding.
pub record FdSource : Type 0 where
  pub block_size : ℕ
  pub buffer : Option Entry
  pub is_open : Bool
  pub is_reading : Bool

abbrev pub new_fd_source : FdSource
new_fd_source = record { block_size = 0; buffer = none; is_open = false; is_reading = false }

-- What the descriptor has written to `data()`, cut to it; `none` if it leaves the storage.
unfoldable pub receive : List ℕ → Buffer → Option Buffer
unfolding shrink
receive bytes b =
    Option.map
      (λ s. record (shrink (length bytes) (record b { buffer = s })) { audio_conf = unknown_conf })
      (memcpy b.offset bytes b.buffer)

module _ {W : Type 0} (pool : Buffers W) (a : Allocator) (me : ℕ) where
  -- `doRead` with the buffer that is there
  unfoldable pub read_into : FdSource → Entry → FdSource
  unfolding acquire commit
  read_into u e = record u {
    is_reading = true;
    buffer = some (record e { object = commit u.block_size (acquire a u.block_size e.object) });
  }

  unfoldable pub do_read : FdSource → System W → Option (FdSource × System W)
  unfolding read_into
  do_read u sys = have u.buffer
    where
      have : Option Entry → Option (FdSource × System W)
      have (some e) = some (read_into u e, sys)
      have none =
          Option.map (λ r. (read_into u r.0, record sys { world = r.1 }))
            (pool.create u.block_size sys.world)

  -- `onRead`: an error stops the source.
  unfoldable pub on_read : Option (List ℕ) → FdSource → System W → Option (FdSource × System W)
  unfolding Option.bind receive do_read
  on_read none u sys = some (record u { is_reading = false }, stop me sys)
  on_read (some bytes) u sys = Option.bind u.buffer λ e. Option.bind (receive bytes e.object) λ b.
      Option.bind (push_buffer pool me (record e { object = b }) sys)
        λ r. do_read (record u { is_reading = false; buffer = some r.0 }) r.1

  -- `init`; closing a descriptor ends its reads.
  unfoldable pub init : ℤ → ℕ → FdSource → System W → Option (FdSource × System W)
  unfolding do_read
  init (ℤ.negsuc n) block_size u sys =
      some (record u { is_open = false; is_reading = false }, stop me sys)
  init (ℤ.pos n) block_size u sys =
      do_read (record u { is_open = true; is_reading = false; block_size = block_size }) sys
