-- ===== src/Core/AppSink.antt =====
-- src/core/AppSink.cpp: a node that hands all that reaches it to callbacks, which may be unset.
use libcornrow.Base.{false, Option, none, some}
use libcornrow.Core.Pool.{Entry}
use libcornrow.Core.Node.{Node}

-- A process callback may keep the buffer, change it, or take it away.
abbrev pub ProcessCallback : Type 0 → Type 0
ProcessCallback W = Entry → W → Option Entry × W

pub record AppSink (W : Type 0) : Type 0 where
  pub start_callback : Option (W → W)
  pub stop_callback : Option (W → W)
  pub process_callback : Option (ProcessCallback W)

abbrev pub new_app_sink : {W : Type 0} → AppSink W
new_app_sink = record { start_callback = none; stop_callback = none; process_callback = none }

module _ {W : Type 0} where
  unfoldable pub set_start_callback : (W → W) → AppSink W → AppSink W
  set_start_callback f s = record s { start_callback = some f }

  unfoldable pub set_stop_callback : (W → W) → AppSink W → AppSink W
  set_stop_callback f s = record s { stop_callback = some f }

  unfoldable pub set_process_callback : ProcessCallback W → AppSink W → AppSink W
  set_process_callback f s = record s { process_callback = some f }

  -- `onStart` and `onStop`
  abbrev pub call : Option (W → W) → W → W
  call none w = w
  call (some f) w = f w

  -- `onProcess`
  abbrev pub call_process : Option (ProcessCallback W) → ProcessCallback W
  call_process none e w = (some e, w)
  call_process (some f) e w = f e w

  unfoldable pub app_sink_node : AppSink W → Node W
  app_sink_node s = record {
    is_bypassed = false;
    on_start = call s.start_callback;
    on_stop = call s.stop_callback;
    on_config = λ c w. w;
    on_process = call_process s.process_callback;
    on_process_conf = λ c b w. (c, b, w);
  }
