-- ===== src/Core/Source.antt =====
-- include/coro/core/Source.h and src/core/Source.cpp, without the ready callback, which Selector.antt
-- gives: the flags of a source, and what it calls along its chain. The atomics and the mutex of a
-- source are not modelled: calls are sequential.
use libcornrow.Base.{if◌then◌else◌, Bool, true, false, Option, List, [], ◌∷◌}
use libcornrow.Audio.Types.{AudioConf, no_conf, conf_eq}
use libcornrow.Core.Pool.{Entry}
use libcornrow.Core.Node.{Node, Buffers, process}

-- `node` is the source as a node, `chain` the nodes behind it. `has_callback` says that the ready
-- callback is set.
pub record Source (W : Type 0) : Type 0 where
  pub node : Node W
  pub chain : List (Node W)
  pub is_controlled : Bool
  pub is_started : Bool
  pub is_ready : Bool
  pub has_callback : Bool
  pub config : AudioConf

-- A new source counts as started.
abbrev pub new_source : {W : Type 0} → Node W → List (Node W) → Source W
new_source n ns = record {
  node = n;
  chain = ns;
  is_controlled = false;
  is_started = true;
  is_ready = false;
  has_callback = false;
  config = no_conf;
}

module _ {W : Type 0} where
  -- The loops of `start` and `stop`
  unfoldable pub start_chain : List (Node W) → W → W
  start_chain [] w = w
  start_chain (n ∷ ns) w = start_chain ns (if n.is_bypassed then w else n.on_start w)

  unfoldable pub stop_chain : List (Node W) → W → W
  stop_chain [] w = w
  stop_chain (n ∷ ns) w = stop_chain ns (if n.is_bypassed then w else n.on_stop w)

  -- `pushConfig`: bypassed nodes are told too.
  unfoldable pub push_config : List (Node W) → AudioConf → W → W
  push_config [] c w = w
  push_config (n ∷ ns) c w = push_config ns c (n.on_config c w)

  -- The part of `pushBuffer` behind the test: a changed configuration goes first.
  unfoldable pub forward : Buffers W → Source W → Entry → W → Option (Entry × W) × Source W
  forward pool s e w =
      let c = e.object.audio_conf in
      if conf_eq s.config c
      then (process pool s.node s.chain e w, s)
      else (process pool s.node s.chain e (push_config s.chain c w), record s { config = c })
