-- ===== src/Audio/TestSource/Runs.antt =====
-- Two buffers of four bytes through a chain of one node that keeps a log.
use libcornrow.Base.{
  replicate, overwrite, codes, ℕ, ◌≡◌, refl, false, Option, some, List, [], ◌∷◌, arith,
}
use libcornrow.Audio.Types.{AudioCodec, codec_size, SampleRate, channel_count, conf_of}
use libcornrow.Audio.Types.Channels.{stereo}
use libcornrow.Core.Buffer.{Allocator, blank, contents, is_valid, capacity, clear}
use libcornrow.Core.Flags.{test_flag}
use libcornrow.Core.Pool.{Entry}
use libcornrow.Core.Node.{Node, Buffers, apply, process}
use libcornrow.Core.Source.{new_source, start_chain, stop_chain}
use libcornrow.Core.Selector.{System, set_ready}
use libcornrow.Audio.TestSource.{
  AudioTestSource, buf_size, fill, test_node, process_times, start_test,
}
use libcornrow.Audio.TestSource.Start.{start_test-start_chain}
use libcornrow.Core.Node.Laws.{Keeps}
use libcornrow.Core.Selector.Flags.{started}
use mathlib.Core.Option

abbrev exact : Allocator
exact = record { growth = λ c n. n; growth_enough = λ c n. omega arith }

abbrev World : Type 0
World = List (List ℕ)

abbrev four : Entry
four = record { address = 0; object = record blank { buffer = 0 ∷ 0 ∷ 0 ∷ 0 ∷ []; reserved = 1 } }

abbrev four_bytes : Buffers (Option World)
four_bytes = record {
  create = λ n w. some (four, w);
  IsGood = λ w. Unit;
  create_empty = λ n w g. ((four, w), refl, refl, tt);
}

-- It draws the byte 7 alone.
abbrev sevens : ℕ → World → List ℕ × World
sevens n v = (replicate n 7, v)

abbrev logger : Node (Option World)
logger = record {
  is_bypassed = false;
  on_start = Option.map λ v. codes "start" ∷ v;
  on_stop = Option.map λ v. codes "stop" ∷ v;
  on_config = λ c w. w;
  on_process = λ e w. (some e, Option.map (λ v. contents e.object ∷ v) w);
  on_process_conf = λ c b w. (c, b, w);
}

abbrev system : System (Option World)
system = record {
  source = λ i. new_source (test_node exact sevens (λ v. v) 4) (logger ∷ []);
  sources = [];
  world = some [];
}

abbrev source : AudioTestSource
source = record {
  num_frames_per_buffer = 1;
  num_buffers = 2;
  audio_config = conf_of AudioCodec.raw_int16 SampleRate.rate44100 stereo;
  buffer = four;
}

sizes : buf_size 1 source.audio_config ≡ 4
unfolding buf_size codec_size channel_count test_flag
sizes = refl

-- The node behind the source gets both buffers before it is started, and is started after it was stopped; the log has
-- its last entry first.
starts_last :
    Option.map (λ r. (r.1).world) (start_test four_bytes 0 source system)
    ≡ some (some (codes "start" ∷ codes "stop" ∷ replicate 4 7 ∷ replicate 4 7 ∷ []))
unfolding start_test process_times test_node process apply Option.bind fill capacity is_valid clear
    overwrite set_ready stop_chain
starts_last = refl

always : {n : Node (Option World)} → Keeps four_bytes n
always = record { ptr = λ e w g. tt; conf = λ c b w g. tt }

start_test-start_chain_example :
    (e : Entry) × (w : Option World) × (r : AudioTestSource × System (Option World))
    × (process_times four_bytes (test_node exact sevens (λ v. v) 4) (logger ∷ []) 2 four (some [])
        ≡ some (e, w))
    × (start_test four_bytes 0 source system ≡ some r)
    × (r.0.buffer ≡ e)
    × ((r.1).world
        ≡ start_chain
            (logger ∷ [])
            (stop_chain (test_node exact sevens (λ v. v) 4 ∷ logger ∷ []) w))
    × (started (r.1) 0 ≡ false)
unfolding test_node
start_test-start_chain_example =
    start_test-start_chain four_bytes 0 source system always (always, tt) tt refl refl
