-- ===== src/Core/Udp.antt =====
-- src/core/UdpSource.cpp. The socket and the timer are events; the socket writes what it receives into
-- the region that it was given. The change of size that is logged is left out.
pub mod Laws
mod Runs
use libcornrow.Base.{
  leb, ◌==◌, if◌then◌else◌, length, memcpy, add_size, ℕ, zero, suc, ◌+◌, Bool, true, false, not,
  ◌&&◌, Option, none, some, List,
}
use libcornrow.Audio.Types.{AudioCodec, SampleRate, AudioConf, conf_of}
use libcornrow.Core.Flags.{any}
use libcornrow.Core.Buffer.{Allocator, Buffer, acquire, commit, trim_front}
use libcornrow.Core.Pool.{Entry}
use libcornrow.Core.Node.{Buffers}
use libcornrow.Core.Selector.{System, stop, push_buffer}
use mathlib.Core.Option

pub data ℤ : Type 0 where
  pos negsuc : ℕ → ℤ

-- `++i`, `--i`, `i <= -5`, `i <= 0`
unfoldable pub increment : ℤ → ℤ
increment (ℤ.pos n) = ℤ.pos (suc n)
increment (ℤ.negsuc zero) = ℤ.pos 0
increment (ℤ.negsuc (suc n)) = ℤ.negsuc n

unfoldable pub decrement : ℤ → ℤ
decrement (ℤ.pos zero) = ℤ.negsuc 0
decrement (ℤ.pos (suc n)) = ℤ.pos n
decrement (ℤ.negsuc n) = ℤ.negsuc (suc n)

unfoldable pub is_timed_out : ℤ → Bool
is_timed_out (ℤ.pos n) = false
is_timed_out (ℤ.negsuc n) = leb 4 n

unfoldable pub is_at_most_0 : ℤ → Bool
is_at_most_0 (ℤ.pos n) = n == 0
is_at_most_0 (ℤ.negsuc n) = true

-- `buffer` is `m_buffer`. `is_listening` says that a receive is outstanding at the socket.
pub record UdpSource : Type 0 where
  pub pre_padding : ℕ
  pub mtu : ℕ
  pub buffer : Option Entry
  pub is_receiving : Bool
  pub is_listening : Bool
  pub buffer_count : ℤ

pub record Config : Type 0 where
  pub port : ℕ
  pub pre_padding : ℕ
  pub mtu : ℕ
  pub multicast_group : ℕ

abbrev pub default_config : Config
default_config = record { port = 0; pre_padding = 0; mtu = 1492; multicast_group = 0 }

-- `{ Unknown, RateUnknown, Any }`
abbrev pub unknown_conf : AudioConf
unknown_conf = conf_of AudioCodec.unknown SampleRate.rate_unknown any

-- What the socket has written behind the padding, committed, and cut to the packet; `none` if the
-- packet leaves the storage.
unfoldable pub deliver : ℕ → List ℕ → Buffer → Option Buffer
unfolding commit trim_front
deliver pre_padding bytes b =
    Option.map
      (λ s.
        record (trim_front pre_padding
          (commit (add_size pre_padding (length bytes)) (record b { buffer = s }))) {
            audio_conf = unknown_conf;
          })
      (memcpy (add_size b.acquired_offset pre_padding) bytes b.buffer)

module _ {W : Type 0} (pool : Buffers W) (a : Allocator) (me : ℕ) where
  -- `m_buffer`, or a new one
  unfoldable pub ensure : UdpSource → System W → Option (Entry × System W)
  ensure u sys = have u.buffer
    where
      have : Option Entry → Option (Entry × System W)
      have (some e) = some (e, sys)
      have none =
          Option.map (λ r. (r.0, record sys { world = r.1 }))
            (pool.create (u.pre_padding + u.mtu) sys.world)

  -- `doReceive`
  unfoldable pub do_receive : UdpSource → System W → Option (UdpSource × System W)
  unfolding ensure
  do_receive u sys =
      let started =
        Option.map
          (λ r. (
            record u {
              is_receiving = true;
              is_listening = true;
              buffer = some (record r.0 { object = acquire a (u.pre_padding + u.mtu) r.0.object });
            },
            r.1,
          ))
          (ensure u sys) in
      if u.is_receiving then some (u, sys) else started

  -- `onReceived` with a packet
  unfoldable pub on_packet : List ℕ → UdpSource → System W → Option (UdpSource × System W)
  unfolding deliver Option.bind do_receive increment
  on_packet bytes u sys = Option.bind u.buffer λ e.
      Option.bind (deliver u.pre_padding bytes e.object) λ b.
        Option.bind (push_buffer pool me (record e { object = b }) sys) λ r.
          do_receive
            (record u {
              is_receiving = false;
              is_listening = false;
              buffer_count = increment u.buffer_count;
              buffer = some r.0;
            })
            r.1

  -- `onReceived`: an error ends it.
  unfoldable pub on_received :
      Option (List ℕ) → UdpSource → System W → Option (UdpSource × System W)
  unfolding on_packet
  on_received none u sys = some (record u { is_listening = false }, sys)
  on_received (some bytes) u sys = on_packet bytes u sys

  -- `onTimeout`, without the timer, which it starts again
  unfoldable pub on_timeout : UdpSource → System W → Option (UdpSource × System W)
  unfolding do_receive decrement
  on_timeout u sys =
      Option.map
        (λ r.
          let (v, t) = r in
          if not (t.source me).is_started
          then (v, t)
          else if is_timed_out v.buffer_count
          then (record v { buffer_count = ℤ.pos 0 }, stop me t)
          else if is_at_most_0 v.buffer_count
          then (record v { buffer_count = decrement v.buffer_count }, t)
          else (record v { buffer_count = ℤ.pos 0 }, t))
        (do_receive u sys)

  -- The constructor: `none` is the exception of a port that does not bind; `joins` tells whether the socket can join the
  -- multicast group. It does not start the timer.
  unfoldable pub new_udp_source :
      (binds joins : Bool) → Config → System W → Option (UdpSource × System W)
  unfolding do_receive
  new_udp_source binds joins c sys =
      let fresh : UdpSource = record {
        pre_padding = c.pre_padding;
        mtu = c.mtu;
        buffer = none;
        is_receiving = false;
        is_listening = false;
        buffer_count = ℤ.pos 0;
      } in
      let received = do_receive fresh sys in
      if not binds
      then none
      else if not (c.multicast_group == 0) && not joins
      then some (fresh, sys)
      else received
