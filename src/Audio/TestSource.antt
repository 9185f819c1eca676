-- ===== src/Audio/TestSource.antt =====
-- include/coro/audio/AudioTestSource.h and .cpp: a source that pushes buffers of random bytes when it is started. The
-- world is `none` once a byte was written out of a buffer's storage or a null pointer was read.
pub mod Laws
pub mod Start
mod Runs
use libcornrow.Base.{if◌then◌else◌, ℕ, zero, suc, ◌*◌, true, false, Option, none, some, List}
use libcornrow.Audio.Types.{codec_size, channel_count, AudioConf}
use libcornrow.Core.Buffer.{Allocator, Buffer, capacity, acquire, commit, write_acquired}
use libcornrow.Core.Pool.{Entry}
use libcornrow.Core.Node.{Node, Buffers, process}
use libcornrow.Core.Source.{start_chain}
use libcornrow.Core.Selector.{System, update, stop}
use mathlib.Core.Option

-- The configuration, and `m_buffer`
pub record AudioTestSource : Type 0 where
  pub num_frames_per_buffer : ℕ
  pub num_buffers : ℕ
  pub audio_config : AudioConf
  pub buffer : Entry

-- The size that the constructor and `onProcess` compute
unfoldable pub buf_size : ℕ → AudioConf → ℕ
buf_size frames c = frames * channel_count c.channels * codec_size c.codec

-- The constructor, with the default number of buffers. `create` is `Buffer::create` without a caller: `none` where the
-- pool has no buffer to give, and reads the name of a null pointer.
unfoldable pub new_test_source :
    {W : Type 0} → (ℕ → W → Option (Entry × W)) → ℕ → AudioConf → W → Option (AudioTestSource × W)
unfolding buf_size
new_test_source create frames c w =
    Option.map
      (λ r. (
        record {
          num_frames_per_buffer = frames;
          num_buffers = 125;
          audio_config = c;
          buffer = record r.0 { object = record r.0.object { audio_conf = c } };
        },
        r.1,
      ))
      (create (buf_size frames c) w)

-- The bytes that were drawn, written to the acquired region, of which `n` are committed
unfoldable pub fill : Allocator → ℕ → List ℕ → Buffer → Option Buffer
unfolding write_acquired acquire commit
fill a n bytes b = Option.map (commit n) (write_acquired bytes (acquire a n b))

abbrev pub after_fill : {V : Type 0} → Entry → V → Option Buffer → Option Entry × Option V
after_fill e v none = (some e, none)
after_fill e v (some b) = (some (record e { object = b }), some v)

-- `rand` gives that many bytes, and its next state.
module _ {V : Type 0} (a : Allocator) (rand : ℕ → V → List ℕ × V) where
  -- `onProcess`: as many bytes as the buffer has capacity.
  unfoldable pub on_process : ℕ → Entry → Option V → Option Entry × Option V
  on_process n e none = (some e, none)
  on_process n e (some v) =
      let r = rand (capacity (acquire a n e.object)) v in
      after_fill e (r.1) (fill a n (r.0) e.object)

  -- The source as a node; `stop_loop` is `Mainloop::stop`.
  unfoldable pub test_node : (V → V) → ℕ → Node (Option V)
  unfolding on_process
  test_node stop_loop n = record {
    is_bypassed = false;
    on_start = λ w. w;
    on_stop = Option.map stop_loop;
    on_config = λ c w. w;
    on_process = on_process n;
    on_process_conf = λ c b w. (c, b, w);
  }

-- The loop of `onStart`
unfoldable pub process_times :
    {W : Type 0} → Buffers W → Node W → List (Node W) → ℕ → Entry → W → Option (Entry × W)
unfolding process
process_times pool n chain zero e w = some (e, w)
process_times pool n chain (suc k) e w =
    Option.bind (process pool n chain e w) λ r. process_times pool n chain k r.0 r.1

module _ {W : Type 0} (pool : Buffers W) (me : ℕ) where
  -- `onStart`: the buffers, then `stop()`
  unfoldable pub on_start : AudioTestSource → System W → Option (AudioTestSource × System W)
  unfolding process_times stop
  on_start u sys =
      let s = sys.source me in
      Option.map (λ r. (record u { buffer = r.0 }, stop me (record sys { world = r.1 })))
        (process_times pool s.node s.chain u.num_buffers u.buffer sys.world)

  -- `Source::start` on this source: its own `onStart`, unless it is bypassed, comes first.
  unfoldable pub start_test : AudioTestSource → System W → Option (AudioTestSource × System W)
  unfolding on_start start_chain
  start_test u sys =
      let s = sys.source me in
      let started = update me (record s { is_started = true }) sys in
      Option.map (λ r. (r.0, record (r.1) { world = start_chain s.chain (r.1).world }))
        (if s.node.is_bypassed then some (u, started) else on_start u started)
