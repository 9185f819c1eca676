-- ===== src/Core/Udp/Runs.antt =====
-- The theorems on packets and errors at concrete inputs.
use libcornrow.Base.{replicate, ℕ, ◌≡◌, refl, true, false, none, some, List, [], ◌∷◌, arith}
use libcornrow.Core.Buffer.{Allocator, Buffer, blank, contents, acquire}
use libcornrow.Core.Buffer.Bounds.{IsSound}
use libcornrow.Core.Node.{Node, Buffers}
use libcornrow.Core.Source.{new_source}
use libcornrow.Core.Selector.{System, set_ready, stop}
use libcornrow.Core.Udp.{
  ℤ, decrement, is_timed_out, is_at_most_0, UdpSource, default_config, unknown_conf, deliver,
  do_receive, on_received, on_timeout, new_udp_source,
}
use libcornrow.Core.Udp.Laws.{deliver-acquire, timeouts, on_received_error}
use mathlib.Core.Option

abbrev exact : Allocator
exact = record { growth = λ c n. n; growth_enough = λ c n. omega arith }

-- Twelve empty bytes
abbrev twelve : Buffer
twelve = record blank { buffer = replicate 12 0; reserved = 3 }

twelve-IsSound : IsSound twelve
twelve-IsSound = record {
  whole = refl;
  inside = omega arith;
  small = omega arith;
  backed = omega arith;
}

abbrev node : Node (List ℕ)
node = record {
  is_bypassed = false;
  on_start = λ w. w;
  on_stop = λ w. 2 ∷ w;
  on_config = λ c w. w;
  on_process = λ e w. (some e, 1 ∷ w);
  on_process_conf = λ c b w. (c, b, w);
}

abbrev pool : Buffers (List ℕ)
pool = record {
  create = λ n w. some (record { address = 0; object = twelve }, w);
  IsGood = λ w. Unit;
  create_empty = λ n w g. ((record { address = 0; object = twelve }, w), refl, refl, tt);
}

abbrev system : System (List ℕ)
system = record { source = λ i. new_source node []; sources = []; world = [] }

abbrev listening : UdpSource
listening = record {
  pre_padding = 2;
  mtu = 6;
  buffer = some (record { address = 0; object = twelve });
  is_receiving = true;
  is_listening = true;
  buffer_count = ℤ.pos 0;
}

-- Six timeouts without a packet stop the source.
stops :
    Option.map (λ r. (r.1.source 0).is_started) (timeouts pool exact 0 6 listening system)
    ≡ some false
unfolding timeouts on_timeout do_receive is_timed_out is_at_most_0 decrement stop set_ready
stops = refl

deliver-acquire_example :
    (c : Buffer) × (deliver 2 (7 ∷ 8 ∷ 9 ∷ []) (acquire exact 8 twelve) ≡ some c)
    × (contents c ≡ 7 ∷ 8 ∷ 9 ∷ [])
    × (c.audio_conf ≡ unknown_conf)
    × IsSound c
deliver-acquire_example =
    deliver-acquire exact 2 6 (7 ∷ 8 ∷ 9 ∷ []) twelve-IsSound (omega arith) refl (omega arith)
      (omega arith)

on_received_error_run :
    (after : UdpSource × System (List ℕ)) × (r : UdpSource × System (List ℕ)) × (on_received pool
        exact 0 none listening system
      ≡ some after)
    × (timeouts pool exact 0 3 after.0 after.1 ≡ some r)
    × (r.0.is_listening ≡ false)
on_received_error_run = on_received_error pool exact 0 3 listening system refl

-- The receives that are outstanding at first: at a free port, and where the multicast group is refused
listens :
    Option.map (λ r. r.0.is_listening) (new_udp_source pool exact 0 true true default_config system)
    ≡ some true
unfolding new_udp_source do_receive
listens = refl

refused :
    Option.map
      (λ r. r.0.is_listening)
      (new_udp_source pool exact 0 true false
        (record default_config { multicast_group = 7 })
        system)
    ≡ some false
unfolding new_udp_source
refused = refl
