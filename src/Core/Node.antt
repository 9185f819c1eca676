-- ===== src/Core/Node.antt =====
-- include/coro/core/Node.h and src/core/Node.cpp, and the loop of src/core/AppSource.cpp. The chain
-- that `m_next` makes is a node and the list of those behind it. What the virtual functions do is a
-- parameter: each changes a world `W`, which holds the state of all nodes and the buffer pool.
-- A `BufferPtr` is an optional pool entry.
pub mod Laws
pub mod Pooled
mod Runs
use mathlib.Core.Option
use libcornrow.Base.{
  ◌==◌, if◌then◌else◌, ℕ, ◌≡◌, Bool, true, false, not, ◌&&◌, ◌||◌, Option, none, some, List, [],
  ◌∷◌,
}
use libcornrow.Audio.Types.{AudioCodec, AudioConf, no_conf, codec_eq}
use libcornrow.Core.Buffer.{Buffer, is_valid, capacity, clear}
use libcornrow.Core.Pool.{Entry}

pub record Node (W : Type 0) : Type 0 where
  pub is_bypassed : Bool
  pub on_start : W → W
  pub on_stop : W → W
  pub on_config : AudioConf → W → W
  pub on_process : Entry → W → Option Entry × W
  pub on_process_conf : AudioConf → Buffer → W → AudioConf × Buffer × W

-- What nodes use of the buffer pool, `Buffer::create` called with a node: a buffer, never null, and
-- empty while the world is in order.
pub record Buffers (W : Type 0) : Type 1 where
  pub create : ℕ → W → Option (Entry × W)
  pub IsGood : W → Type 0
  pub create_empty :
      (n : ℕ) (w : W)
      → IsGood w
      → (r : Entry × W) × (create n w ≡ some r) × (r.0.object.size ≡ 0) × IsGood r.1

abbrev pub emptied : Entry → Entry
emptied e = record e { object = clear e.object }

module _ {W : Type 0} where
  -- The two calls of `onProcess` in `Node::process(BufferPtr&)`.
  unfoldable pub apply : Node W → Entry → W → Option Entry × W
  apply n e w =
      let (conf, b, w') = n.on_process_conf e.object.audio_conf e.object w in
      if n.is_bypassed
      then (some e, w)
      else n.on_process (record e { object = record b { audio_conf = conf } }) w'

  module _ (pool : Buffers W) where
    -- The end of `process`, after the node itself: a buffer that was taken away is replaced, the end
    -- of the chain empties the buffer, and `next` gets a buffer that still holds data.
    unfoldable pub end_chain : ℕ → Option Entry × W → Option (Entry × W)
    end_chain size_hint (none, w) = pool.create size_hint w
    end_chain size_hint (some e, w) = some (emptied e, w)

    unfoldable pub hand_on :
        ℕ → (Entry → W → Option (Entry × W)) → Option Entry × W → Option (Entry × W)
    hand_on size_hint next (none, w) = pool.create size_hint w
    hand_on size_hint next (some e, w) = elim (is_valid e.object) [
      | true ↦ next e w
      | false ↦ some (e, w)
    ]

    -- `Node::process(core::BufferPtr& buffer)`; the entry is what `buffer` points to afterwards.
    unfoldable pub process : Node W → List (Node W) → Entry → W → Option (Entry × W)
    unfolding end_chain hand_on
    process n [] e w = end_chain (capacity e.object) (apply n e w)
    process n (next ∷ rest) e w = hand_on (capacity e.object) (process next rest) (apply n e w)

  -- `Node::process(const audio::AudioConf&, core::Buffer&)`
  unfoldable pub process_conf :
      Node W → List (Node W) → AudioConf → Buffer → W → AudioConf × Buffer × W
  process_conf n [] conf b w =
      let (_, b', w') = n.on_process_conf conf b w in
      if codec_eq conf.codec AudioCodec.invalid || (b.size == 0)
      then (no_conf, clear b, w)
      else if n.is_bypassed
      then (no_conf, clear b, w)
      else (no_conf, clear b', w')
  process_conf n (next ∷ rest) conf b w =
      let skipped = process_conf next rest conf b w in
      let (conf', b', w') = n.on_process_conf conf b w in
      let processed = process_conf next rest conf' b' w' in
      if codec_eq conf.codec AudioCodec.invalid || (b.size == 0)
      then (no_conf, clear b, w)
      else if n.is_bypassed
      then skipped
      else processed

  -- The loop of `AppSource::onProcess` over the nodes behind the source.
  unfoldable pub app_source_process :
      List (Node W) → AudioConf → Buffer → W → AudioConf × Buffer × W
  app_source_process [] conf b w = (conf, b, w)
  app_source_process (n ∷ rest) conf b w =
      let (conf', b', w') = process_conf n rest conf b w in
      let processed = app_source_process rest conf' b' w' in
      let skipped = app_source_process rest conf b w in
      if not (codec_eq conf.codec AudioCodec.invalid) && not (b.size == 0)
      then if n.is_bypassed then skipped else processed
      else (conf, b, w)
