-- ===== src/Core/Fd/Runs.antt =====
-- A block of three bytes, read for a block size of eight.
use libcornrow.Base.{replicate, ℕ, ◌≡◌, refl, true, false, some, List, [], ◌∷◌, arith}
use libcornrow.Core.Buffer.{Allocator, Buffer, blank, contents}
use libcornrow.Core.Buffer.Bounds.{IsSound}
use libcornrow.Core.Pool.{Entry, Pool}
use libcornrow.Core.Node.{Node}
use libcornrow.Core.Node.Pooled.{pooled}
use libcornrow.Core.Source.{new_source}
use libcornrow.Core.Selector.{System, push_buffer}
use libcornrow.Core.Udp.{unknown_conf}
use libcornrow.Core.Fd.{FdSource, do_read, on_read}
use libcornrow.Core.Fd.Laws.{on_read-pushed}
use mathlib.Core.Option

abbrev exact : Allocator
exact = record { growth = λ c n. n; growth_enough = λ c n. omega arith }

abbrev World : Type 0
World = Pool × List ℕ

abbrev silent : Node World
silent = record {
  is_bypassed = false;
  on_start = λ w. w;
  on_stop = λ w. w;
  on_config = λ c w. w;
  on_process = λ e w. (some e, w);
  on_process_conf = λ c b w. (c, b, w);
}

abbrev system : System World
system = record {
  source = λ i. new_source silent [];
  sources = 0 ∷ [];
  world = (record { buffers = []; next = 1 }, []);
}

abbrev lent : Entry
lent = record { address = 0; object = record blank { buffer = replicate 16 0; reserved = 4 } }

abbrev eight : FdSource
eight = record { block_size = 8; buffer = some lent; is_open = true; is_reading = false }

lent-IsSound : IsSound lent.object
lent-IsSound = record {
  whole = refl;
  inside = omega arith;
  small = omega arith;
  backed = omega arith;
}

on_read-pushed_example :
    (c : Buffer) × ((Option.bind
        (do_read (pooled exact (List ℕ)) exact 0 eight system)
        λ r. on_read (pooled exact (List ℕ)) exact 0 (some (1 ∷ 2 ∷ 3 ∷ [])) r.0 r.1)
      ≡ (Option.bind
          (push_buffer (pooled exact (List ℕ)) 0 (record lent { object = c }) system)
          λ r.
            do_read
              (pooled exact (List ℕ))
              exact
              0
              (record eight { is_reading = false; buffer = some r.0 })
              r.1))
    × (contents c ≡ 1 ∷ 2 ∷ 3 ∷ [])
    × (c.audio_conf ≡ unknown_conf)
    × IsSound c
on_read-pushed_example =
    on_read-pushed (pooled exact (List ℕ)) exact 0 (1 ∷ 2 ∷ 3 ∷ []) eight lent system refl
      lent-IsSound (omega arith) refl (omega arith) (omega arith)
