-- ===== src/Core/Tcp/Runs.antt =====
-- A network that connects in the second round of the main loop and takes all that is written.
use libcornrow.Base.{
  length, take_all, ℕ, zero, suc, ◌≡◌, refl, sym, ap, Bool, true, false, Option, none, some, List,
  [], ◌∷◌, ◌++◌, arith,
}
use libcornrow.Core.Buffer.{Buffer, blank}
use libcornrow.Core.Tcp.{Net, TcpClientSink, new_sink, wait, connected, on_process}
use libcornrow.Core.Tcp.Laws.{IsHonest, Sent, Begins, on_process-Sent}
use mathlib.Core.Option

-- What was sent, whether the socket is open, and the rounds until the operation completes
record World : Type 0 where
  got : List ℕ
  is_up : Bool
  rounds_left : ℕ

abbrev run : ℕ → World → Option ℕ × World
run zero w = (some 0, w)
run (suc n) w = (none, record w { rounds_left = n })

abbrev toy : Net World
toy = record {
  resolve = λ h p w. (some (1 ∷ []), w);
  start_connect = λ eps w. record w { is_up = true; rounds_left = 1 };
  start_write = λ bytes w. w;
  run_one = λ w. run w.rounds_left w;
  is_open = λ w. w.is_up;
  close = λ w. record w { is_up = false };
  write = λ bytes w. (length bytes, 0, record w { got = w.got ++ bytes });
  now = λ w. 0;
}

abbrev toy_honest : IsHonest toy
toy_honest = record {
  sent = λ w. w.got;
  resolve_open = λ h p w. refl;
  close_sent = λ w. refl;
  close_closes = λ w. refl;
  write_sent = λ bytes w. ap (λ x. w.got ++ x) (sym (take_all (length bytes) bytes (omega arith)));
  write_whole = λ bytes w e. refl;
  write_open = λ bytes w. refl;
}

abbrev three : Buffer
three = record blank { buffer = 1 ∷ 2 ∷ 3 ∷ 4 ∷ []; reserved = 1; size = 3 }

abbrev idle : World
idle = record { got = []; is_up = false; rounds_left = 0 }

sends : Option.map (λ r. (r.1).got) (on_process toy 2 three new_sink idle) ≡ some (1 ∷ 2 ∷ 3 ∷ [])
unfolding on_process wait connected
sends = refl

on_process-Sent_example :
    (r : TcpClientSink × World) × (w1 : World) × (on_process toy 2 three new_sink idle ≡ some r)
    × Begins toy toy_honest 2 new_sink idle w1
    × Sent toy toy_honest three w1 (r.1)
on_process-Sent_example =
    on_process-Sent toy toy_honest 2 three new_sink idle (λ eps w'. (1, 0, omega arith, refl))
