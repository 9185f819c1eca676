-- ===== src/Core/Node/Runs.antt =====
-- Chains over a pool, and the theorems on them at concrete inputs. The world beside the pool is a
-- trace of the nodes that were called.
use libcornrow.Base.{replicate, ℕ, ◌≡◌, refl, true, false, Option, none, some, List, [], ◌∷◌, arith}
use libcornrow.Audio.Types.{AudioCodec, SampleRate, conf_of}
use libcornrow.Core.Pool.{Entry, Pool, first_fit, acquire}
use libcornrow.Core.Buffer.{Allocator, resize, blank, new_buffer, is_valid, capacity}
use libcornrow.Core.Node.{Node, Buffers, apply, hand_on, process}
use libcornrow.Core.Node.Laws.{Keeps, Returned, process-Returned, process_without_bypassed}
use libcornrow.Core.Node.Pooled.{create_pooled, pooled}

abbrev exact : Allocator
exact = record { growth = λ c n. n; growth_enough = λ c n. omega arith }

abbrev World : Type 0
World = Pool × List ℕ

abbrev note : ℕ → World → World
note i (p, trace) = (p, i ∷ trace)

abbrev node : ℕ → (Entry → Option Entry) → Node World
node i f = record {
  is_bypassed = false;
  on_start = λ w. w;
  on_stop = λ w. w;
  on_config = λ c w. w;
  on_process = λ e w. (f e, note i w);
  on_process_conf = λ c b w. (c, b, w);
}

-- A node that passes its buffer on, one that takes it away, and a bypassed one.
abbrev through : Node World
through = node 1 λ e. some e

abbrev taker : Node World
taker = node 2 λ e. none

abbrev skipped : Node World
skipped = record through { is_bypassed = true }

abbrev lent : Entry
lent = record {
  address = 0;
  object = record blank {
    buffer = replicate 8 7;
    reserved = 2;
    size = 5;
    audio_conf = conf_of AudioCodec.raw_int16 SampleRate.rate44100 0;
  };
}

abbrev start_world : World
start_world = (record { buffers = []; next = 1 }, [])

abbrev pool_of : Buffers World
pool_of = pooled exact (List ℕ)

through-Keeps : Keeps pool_of through
through-Keeps = record { ptr = λ e w g. g; conf = λ c b w g. g }

taker-Keeps : Keeps pool_of taker
taker-Keeps = record { ptr = λ e w g. g; conf = λ c b w g. g }

-- The buffer that the second node takes away is replaced by a new one.
outcome : Option (Entry × World) → Option (ℕ × ℕ × List ℕ)
outcome none = none
outcome (some (e, w)) = some (e.address, e.object.size, w.1)

process_takes :
    outcome (process pool_of through (taker ∷ []) lent start_world) ≡ some (1, 0, 2 ∷ 1 ∷ [])
unfolding outcome process hand_on apply is_valid capacity create_pooled first_fit new_buffer resize
    acquire
process_takes = refl

process-Returned_example : Returned pool_of (process pool_of through (taker ∷ []) lent start_world)
process-Returned_example =
    process-Returned pool_of through (taker ∷ []) lent start_world through-Keeps (taker-Keeps, tt)
      tt

process_without_bypassed_example :
    process pool_of through (through ∷ skipped ∷ taker ∷ []) lent start_world
    ≡ process pool_of through (through ∷ taker ∷ []) lent start_world
process_without_bypassed_example =
    process_without_bypassed pool_of through (through ∷ []) skipped taker [] lent start_world refl
