-- ===== src/Core/Udp/Laws.antt =====
-- What a packet becomes, and what an error leads to.
use libcornrow.Base.{
  ltb, leb, le→leb, Bool-cases, length, overwrite, length-overwrite, slice-overwrite, add_size, ℕ,
  zero, suc, ◌+◌, ◌-◌, ◌^◌, ◌≤◌, ◌<◌, ◌≡◌, refl, inl, inr, true, false, Option, none, some, List,
  arith,
}
use libcornrow.Core.Buffer.{Allocator, Buffer, contents, acquire, commit, trim_front}
use libcornrow.Core.Buffer.Bounds.{IsSound, HasSlack, IsAligned, Acquired, acquire-Acquired}
use libcornrow.Core.Node.{Buffers}
use libcornrow.Core.Selector.{System, stop}
use libcornrow.Core.Udp.{
  ℤ, decrement, is_timed_out, is_at_most_0, UdpSource, unknown_conf, deliver, do_receive,
  on_received, on_timeout,
}
use mathlib.Core.Option

deliver-Acquired :
    (pre mtu : ℕ) (bytes : List ℕ) {b b' : Buffer}
    → Acquired (pre + mtu) b b'
    → length bytes ≤ mtu
    → (c : Buffer) × (deliver pre bytes b' ≡ some c)
      × (contents c ≡ bytes)
      × (c.audio_conf ≡ unknown_conf)
      × IsSound c
unfolding deliver commit trim_front
deliver-Acquired pre mtu bytes {b} {b'} acq h =
    let v = acq.sound in
    let place : add_size b'.acquired_offset pre ≡ b'.acquired_offset + pre =
      omega (arith, acq.room) in
    let total : add_size pre (length bytes) ≡ pre + length bytes = omega (arith, acq.room) in
    let fits : leb (b'.acquired_offset + pre + length bytes) (length b'.buffer) ≡ true =
      le→leb _ _ (omega (arith, acq.room)) in
    let long : ltb (pre + length bytes) pre ≡ false = ground arith in
    let rest : pre + length bytes - pre ≡ length bytes = omega arith in
    let keep = length-overwrite (b'.acquired_offset + pre) bytes b'.buffer in
    (
      record b' {
        buffer = overwrite (b'.acquired_offset + pre) bytes b'.buffer;
        offset = b'.acquired_offset + pre;
        size = length bytes;
        audio_conf = unknown_conf;
      },
      rw (place, total, fits, long, rest) refl,
      slice-overwrite (b'.acquired_offset + pre) bytes b'.buffer (omega (arith, acq.room)),
      refl,
      record {
        whole = omega (arith, keep);
        inside = omega (arith, keep, acq.room);
        small = omega (arith, keep);
        backed = omega (arith, keep);
      },
    )

-- A packet of no more bytes than the MTU, received into the region acquired from a sound, aligned
-- buffer with spare bytes, becomes a sound buffer of unknown format with exactly its bytes, without
-- the padding.
pub deliver-acquire :
    (a : Allocator) (pre mtu : ℕ) (bytes : List ℕ) {b : Buffer}
    → IsSound b
    → HasSlack b
    → IsAligned b
    → b.offset + b.size + (pre + mtu) < 2 ^ 61
    → length bytes ≤ mtu
    → (c : Buffer) × (deliver pre bytes (acquire a (pre + mtu) b) ≡ some c)
      × (contents c ≡ bytes)
      × (c.audio_conf ≡ unknown_conf)
      × IsSound c
deliver-acquire a pre mtu bytes v slack al small h =
    deliver-Acquired pre mtu bytes (acquire-Acquired a (pre + mtu) v slack al small) h

module _ {W : Type 0} (pool : Buffers W) (a : Allocator) (me : ℕ) where
  -- `n` timeouts, one after the other
  unfoldable pub timeouts : ℕ → UdpSource → System W → Option (UdpSource × System W)
  unfolding Option.bind
  timeouts zero u sys = some (u, sys)
  timeouts (suc n) u sys = Option.bind (on_timeout pool a me u sys) λ r. timeouts n r.0 r.1

  record IsDeaf (u : UdpSource) : Type 0 where
    receiving : u.is_receiving ≡ true
    silent : u.is_listening ≡ false

  timeout-IsDeaf :
      (u : UdpSource) (sys : System W)
      → IsDeaf u
      → (r : UdpSource × System W) × (on_timeout pool a me u sys ≡ some r) × IsDeaf r.0
  unfolding on_timeout do_receive
  timeout-IsDeaf u sys d = elim (Bool-cases (sys.source me).is_started) [
    | inr off ↦ ((u, sys), rw (d.receiving, off) refl, d)
    | inl on ↦ elim (Bool-cases (is_timed_out u.buffer_count)) [
      | inl late ↦ (
        (record u { buffer_count = ℤ.pos 0 }, stop me sys),
        rw (d.receiving, on, late) refl,
        record { receiving = d.receiving; silent = d.silent },
      )
      | inr early ↦ elim (Bool-cases (is_at_most_0 u.buffer_count)) [
        | inl low ↦ (
          (record u { buffer_count = decrement u.buffer_count }, sys),
          rw (d.receiving, on, early, low) refl,
          record { receiving = d.receiving; silent = d.silent },
        )
        | inr high ↦ (
          (record u { buffer_count = ℤ.pos 0 }, sys),
          rw (d.receiving, on, early, high) refl,
          record { receiving = d.receiving; silent = d.silent },
        )
      ]
    ]
  ]

  timeouts-IsDeaf :
      (n : ℕ) (u : UdpSource) (sys : System W)
      → IsDeaf u
      → (r : UdpSource × System W) × (timeouts n u sys ≡ some r) × IsDeaf r.0
  unfolding timeouts Option.bind
  timeouts-IsDeaf zero u sys d = ((u, sys), refl, d)
  timeouts-IsDeaf (suc n) u sys d =
      let (r, now, d') = timeout-IsDeaf u sys d in
      let (q, later, d'') = timeouts-IsDeaf n r.0 r.1 d' in (q, rw (now, Option.bind) later, d'')

  -- After an error of a receive the socket is never listened at again, whatever number of timeouts
  -- follows: the source still counts the receive as outstanding.
  pub on_received_error :
      (n : ℕ) (u : UdpSource) (sys : System W)
      → u.is_receiving ≡ true
      → (after : UdpSource × System W) × (r : UdpSource × System W) × (on_received pool a me none u
            sys
          ≡ some after)
        × (timeouts n after.0 after.1 ≡ some r)
        × (r.0.is_listening ≡ false)
  unfolding on_received
  on_received_error n u sys receiving =
      let deaf : UdpSource = record u { is_listening = false } in
      let (r, e, d) =
        timeouts-IsDeaf n deaf sys (record { receiving = receiving; silent = refl }) in
      ((deaf, sys), r, refl, e, d.silent)
