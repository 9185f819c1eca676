-- ===== src/Audio/Scream/Laws.antt =====
-- A packet from the socket through the source.
use libcornrow.Base.{
  leb, ◌==◌, if◌then◌else◌, if_true, Bool-cases, length, drop, ℕ, ◌+◌, ◌^◌, ◌≤◌, ◌<◌, ◌≡◌, refl,
  subst, ◌∙◌, inl, inr, Bool, true, ◌&&◌, some, List, [], arith,
}
use libcornrow.Audio.Types.{AudioConf, no_conf}
use libcornrow.Core.Buffer.{Allocator, Buffer, contents, acquire, clear}
use libcornrow.Core.Buffer.Bounds.{IsSound, HasSlack, IsAligned}
use libcornrow.Core.Buffer.Contents.{length-contents, contents-trim_front}
use libcornrow.Core.Udp.{deliver}
use libcornrow.Core.Udp.Laws.{deliver-acquire}
use libcornrow.Audio.Scream.{
  scream_header_of, is_valid_scream, scream_padding, scream_mtu, scream_conf, on_process,
}

-- A packet of the right length, with a header of 16-bit stereo at a base rate
abbrev pub is_scream_packet : List ℕ → Bool
is_scream_packet bytes = (length bytes == 5 + 1152) && is_valid_scream (scream_header_of bytes)

abbrev Received : List ℕ → AudioConf × Buffer → Type 0
Received bytes r =
    (contents r.1 ≡ (if is_scream_packet bytes then drop 5 bytes else []))
    × (r.0 ≡ (if is_scream_packet bytes then scream_conf (scream_header_of bytes) else no_conf))

Received-contents : (c : Buffer) → IsSound c → Received (contents c) (on_process c)
unfolding on_process clear
Received-contents c v = elim (Bool-cases (c.size == 5 + 1152)) [
  | inl full ↦ elim (Bool-cases (is_valid_scream (scream_header_of (contents c)))) [
    | inl valid ↦
        let five : leb 5 c.size ≡ true = ground (arith, full) in
        rw (length-contents v, full, valid) (contents-trim_front 5 v ∙ if_true _ _ five, refl)
    | inr other ↦ rw (length-contents v, full, other) (refl, refl)
  ]
  | inr short ↦ rw (length-contents v, short) (refl, refl)
]

-- A packet up to the MTU that UdpSource receives into a sound buffer, whose data ends at a multiple of 4, with
-- three spare bytes behind it: a Scream packet becomes its samples, without padding and header, and the format
-- that the header tells; any other packet leaves an empty buffer of no format.
pub on_process-received :
    (a : Allocator) (bytes : List ℕ) {b : Buffer}
    → IsSound b
    → HasSlack b
    → IsAligned b
    → b.offset + b.size + (scream_padding + scream_mtu) < 2 ^ 61
    → length bytes ≤ scream_mtu
    → (c : Buffer) × (deliver scream_padding bytes (acquire a (scream_padding + scream_mtu) b)
        ≡ some c)
      × (contents (on_process c).1 ≡ (if is_scream_packet bytes then drop 5 bytes else []))
      × ((on_process c).0
          ≡ (if is_scream_packet bytes then scream_conf (scream_header_of bytes) else no_conf))
on_process-received a bytes v slack al small h =
    let r = deliver-acquire a scream_padding scream_mtu bytes v slack al small h in
    let seen = subst (λ xs. Received xs (on_process r.0)) r.2 (Received-contents r.0 r.4) in
    (r.0, r.1, seen.0, seen.1)
