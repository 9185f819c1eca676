-- ===== src/Core/Tcp.antt =====
-- src/core/TcpClientSink.cpp. The resolver, the socket, the clock and the main loop are a parameter on a state `W`. A
-- round of the main loop may run any handler; what the sink waits for is the error code of its own operation.
pub mod Laws
mod Runs
use libcornrow.Base.{
  leb, ◌==◌, if◌then◌else◌, Text, codes, ℕ, zero, suc, ◌+◌, Bool, true, false, not, ◌||◌, Option,
  none, some, List, [], ◌∷◌,
}
use libcornrow.Core.Buffer.{Buffer, contents}
use mathlib.Core.Option

-- `resolve` gives no endpoints after an error. `start_connect` and `start_write` begin an operation; `run_one` runs one
-- handler, and gives the error code once it is that of the operation. `write` blocks: the bytes it has written, and
-- its error code. The code 0 is no error.
pub record Net (W : Type 0) : Type 0 where
  pub resolve : Text → ℕ → W → Option (List ℕ) × W
  pub start_connect : List ℕ → W → W
  pub start_write : List ℕ → W → W
  pub run_one : W → Option ℕ × W
  pub is_open : W → Bool
  pub close : W → W
  pub write : List ℕ → W → ℕ × ℕ × W
  pub now : W → ℕ

pub record TcpClientSink : Type 0 where
  pub host : Text
  pub port : ℕ
  -- When the timer expires; `none` is `pos_infin`.
  pub expires_at : Option ℕ

abbrev pub new_sink : TcpClientSink
new_sink = record { host = codes "127.0.0.1"; port = 4953; expires_at = none }

module _ {W : Type 0} (net : Net W) where
  -- `do runOne(); while (ec == would_block)`, on fuel: the error code.
  unfoldable pub wait : ℕ → W → Option (ℕ × W)
  wait zero w = none
  wait (suc fuel) w = elim ((net.run_one w).0) [
    | none ↦ wait fuel ((net.run_one w).1)
    | some ec ↦ some (ec, (net.run_one w).1)
  ]

  -- What `connectAsync` makes of the code
  unfoldable pub connected : ℕ × W → Bool × W
  connected (ec, w) =
      if not (ec == 0) || not (net.is_open w) then (false, net.close w) else (true, w)

  -- `expires_from_now`
  unfoldable pub set_deadline : ℕ → TcpClientSink → W → TcpClientSink
  set_deadline timeout s w = record s { expires_at = some (net.now w + timeout) }

  unfoldable pub connect_async : ℕ → ℕ → TcpClientSink → W → Option (Bool × TcpClientSink × W)
  unfolding wait connected set_deadline
  connect_async fuel timeout s w = resolved (net.resolve s.host s.port w)
    where
      resolved : Option (List ℕ) × W → Option (Bool × TcpClientSink × W)
      resolved (none, w') = some (false, s, w')
      resolved (some endpoints, w') =
          Option.map (λ r. ((connected r).0, set_deadline timeout s w', (connected r).1))
            (wait fuel (net.start_connect endpoints w'))

  -- `connect`; `none` is the exception of `resolve`. What comes of the connection is only logged.
  unfoldable pub connect : TcpClientSink → W → Option W
  connect s w = resolved (net.resolve s.host s.port w)
    where
      resolved : Option (List ℕ) × W → Option W
      resolved (none, w') = none
      resolved (some [], w') = some w'
      resolved (some (x ∷ xs), w') = some (net.start_connect (x ∷ xs) w')

  -- `write` of the private class, which nothing calls
  unfoldable pub write_async :
      ℕ → ℕ → Buffer → TcpClientSink → W → Option (Bool × TcpClientSink × W)
  unfolding wait set_deadline
  write_async fuel timeout b s w =
      Option.map (λ r. (r.0 == 0, set_deadline timeout s w, r.1))
        (wait fuel (net.start_write (contents b) w))

  -- `checkTimer`, which the constructor does not call
  unfoldable pub check_timer : TcpClientSink → W → TcpClientSink × W
  check_timer s w = expired s.expires_at
    where
      expired : Option ℕ → TcpClientSink × W
      expired none = (s, w)
      expired (some t) =
          if leb t (net.now w) then (record s { expires_at = none }, net.close w) else (s, w)

  abbrev pub is_started : W → Bool
  is_started w = net.is_open w

  unfoldable pub on_start : TcpClientSink → W → Option W
  unfolding connect
  on_start s w = connect s w

  unfoldable pub on_stop : W → W
  on_stop w = net.close w

  -- The end of `onProcess`
  unfoldable pub write_all : Buffer → W → W
  write_all b w = let (n, ec, w') = net.write (contents b) w in if ec == 0 then w' else net.close w'

  -- What `onProcess` does once `connectAsync` has returned
  unfoldable pub after_connect : Buffer → Bool × TcpClientSink × W → TcpClientSink × W
  unfolding write_all
  after_connect b (false, s, w) = (s, w)
  after_connect b (true, s, w) = (s, write_all b w)

  -- `onProcess`, with the timeout of 8 milliseconds; the buffer stays as it is.
  unfoldable pub on_process : ℕ → Buffer → TcpClientSink → W → Option (TcpClientSink × W)
  unfolding connect_async after_connect write_all
  on_process fuel b s w =
      if net.is_open w
      then some (s, write_all b w)
      else Option.map (after_connect b) (connect_async fuel 8 s w)
