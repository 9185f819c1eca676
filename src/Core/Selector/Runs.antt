-- ===== src/Core/Selector/Runs.antt =====
-- A selector of three sources, and the theorems on it at concrete inputs. The world is a trace of the
-- nodes that were started and stopped, and of the buffers that went by.
use libcornrow.Base.{
  ◌==◌, ℕ, ◌+◌, ◌≡◌, refl, Bool, true, false, not, ◌&&◌, ◌||◌, some, List, [], ◌∷◌, arith,
}
use libcornrow.Audio.Types.{conf_eq}
use libcornrow.Core.Buffer.{blank, is_valid}
use libcornrow.Core.Pool.{Entry}
use libcornrow.Core.Node.{Node, Buffers, apply, end_chain, hand_on, process}
use libcornrow.Core.Source.{Source, new_source, start_chain, forward}
use libcornrow.Core.Selector.{
  System, update, any_started, start_ready, on_source_ready, set_ready, stop, push_buffer,
}
use libcornrow.Core.Selector.Flags.{started, ready, set_flag}
use libcornrow.Core.Selector.Running.{set_ready-runs}
use libcornrow.Core.Selector.Handover.{
  stop-starts_waiting, push_buffer-blocked, push_buffer-forwarded,
}
use mathlib.Core.Option

abbrev node : ℕ → Node (List ℕ)
node i = record {
  is_bypassed = false;
  on_start = λ w. (100 + i) ∷ w;
  on_stop = λ w. (200 + i) ∷ w;
  on_config = λ c w. (300 + i) ∷ w;
  on_process = λ e w. (some e, i ∷ w);
  on_process_conf = λ c b w. (c, b, w);
}

abbrev controlled : ℕ → Bool → Bool → Source (List ℕ)
controlled i on ready_now = record (new_source (node i) (node (10 + i) ∷ [])) {
  is_controlled = true;
  has_callback = true;
  is_started = on;
  is_ready = ready_now;
}

abbrev system : (ℕ → Source (List ℕ)) → System (List ℕ)
system f = record { source = f; sources = 0 ∷ 1 ∷ 2 ∷ []; world = [] }

-- All of the selector's sources are idle.
abbrev idle : System (List ℕ)
idle = system λ i. controlled i false false

-- The source 0 runs, and the two others wait.
abbrev waiting : System (List ℕ)
waiting = system λ i. controlled i (i == 0) true

abbrev pushed : Entry
pushed = record { address = 7; object = record blank { size = 5 } }

-- Every buffer goes.
abbrev no_pool : Buffers (List ℕ)
no_pool = record {
  create = λ n w. some (record { address = 0; object = blank }, w);
  IsGood = λ w. Unit;
  create_empty = λ n w g. ((record { address = 0; object = blank }, w), refl, refl, tt);
}

mixes : any_started (1 ∷ []) (stop 0 waiting) && any_started (2 ∷ []) (stop 0 waiting) ≡ true
unfolding stop set_ready on_source_ready any_started start_ready
mixes = refl

pushes :
    Option.map (λ r. r.1.world) (push_buffer no_pool 1 pushed idle) ≡ some (11 ∷ 1 ∷ 111 ∷ 101 ∷ [])
unfolding push_buffer set_ready on_source_ready any_started start_ready forward process start_chain
    conf_eq hand_on end_chain apply is_valid
pushes = refl

set_ready-runs_example :
    (any_started (0 ∷ 1 ∷ 2 ∷ []) (set_ready 1 true idle) ≡ true)
    × (started (set_ready 1 true idle) 1
        ≡ (started idle 1 || not (any_started (0 ∷ 1 ∷ 2 ∷ []) idle)))
set_ready-runs_example = set_ready-runs 1 idle refl refl

stop-starts_waiting_example : started (stop 0 waiting) 2 ≡ ready waiting 2
stop-starts_waiting_example =
    stop-starts_waiting 0 waiting 2 refl (λ j c other. ground (arith, other)) refl
      (λ e. omega arith)

push_buffer-blocked_example :
    push_buffer no_pool 1 pushed waiting ≡ some (pushed, set_flag 1 true waiting)
push_buffer-blocked_example =
    push_buffer-blocked no_pool 1 pushed waiting refl refl refl (unfold any_started in refl)

push_buffer-forwarded_example :
    let now = start_ready (0 ∷ 1 ∷ 2 ∷ []) (set_flag 1 true idle) in
    let out = forward no_pool (now.source 1) pushed now.world in
    (started now 1 ≡ true)
    × (push_buffer no_pool 1 pushed idle
        ≡ Option.map (λ x. (x.0, record (update 1 out.1 now) { world = x.1 })) out.0)
push_buffer-forwarded_example =
    push_buffer-forwarded no_pool 1 pushed idle refl refl (unfold any_started in refl)

-- A source that is not in the selector yet, and runs
abbrev fresh : System (List ℕ)
fresh = record { source = λ i. new_source (node i) []; sources = 0 ∷ 1 ∷ []; world = [] }
