-- ===== src/Audio/Scream/Runs.antt =====
-- A Scream packet at 44100 Hz.
use libcornrow.Base.{if◌then◌else◌, drop, replicate, ℕ, ◌+◌, ◌≡◌, refl, some, List, [], ◌∷◌, arith}
use libcornrow.Audio.Types.{no_conf}
use libcornrow.Core.Buffer.{Allocator, Buffer, blank, contents, acquire}
use libcornrow.Core.Buffer.Bounds.{IsSound}
use libcornrow.Core.Udp.{deliver}
use libcornrow.Audio.Scream.{scream_header_of, scream_padding, scream_mtu, scream_conf, on_process}
use libcornrow.Audio.Scream.Laws.{is_scream_packet, on_process-received}

abbrev exact : Allocator
exact = record { growth = λ c n. n; growth_enough = λ c n. omega arith }

abbrev packet : List ℕ
packet = 129 ∷ 16 ∷ 2 ∷ 3 ∷ 0 ∷ replicate 1152 7

abbrev free : Buffer
free = record blank { buffer = replicate 16 0; reserved = 4 }

free-IsSound : IsSound free
free-IsSound = record {
  whole = refl;
  inside = omega arith;
  small = omega arith;
  backed = omega arith;
}

received_packet :
    (c : Buffer) × (deliver scream_padding packet (acquire exact (scream_padding + scream_mtu) free)
      ≡ some c)
    × (contents (on_process c).1 ≡ (if is_scream_packet packet then drop 5 packet else []))
    × ((on_process c).0
        ≡ (if is_scream_packet packet then scream_conf (scream_header_of packet) else no_conf))
received_packet =
    on_process-received exact packet free-IsSound (omega arith) refl (omega arith) (omega arith)
