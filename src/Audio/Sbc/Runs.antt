-- ===== src/Audio/Sbc/Runs.antt =====
-- A library that takes two bytes as a frame, and two frames of it; a fragmented packet.
use libcornrow.Base.{replicate, ℕ, ◌+◌, ◌≡◌, refl, true, none, some, List, [], ◌∷◌, ◌++◌, arith}
use libcornrow.Audio.Types.{no_conf}
use libcornrow.Core.Buffer.{Allocator, Buffer, blank, contents}
use libcornrow.Core.Buffer.Bounds.{IsSound}
use libcornrow.Audio.Sbc.{Decoded, Sbc, SbcDecoder, decoded_conf, on_process}
use libcornrow.Rtp.Header.{header_of, is_valid_sbc, header_size, sbc_header_of, sbc_is_valid}
use libcornrow.Audio.Sbc.Laws.{on_process-decoded}
use libcornrow.Audio.Sbc.Frames.{Frame}

abbrev exact : Allocator
exact = record { growth = λ c n. n; growth_enough = λ c n. omega arith }

-- Each pair `x y` stands for `x x x y`; the state counts the frames.
abbrev pairs : List ℕ → ℕ → ℕ → Decoded × ℕ
pairs (x ∷ y ∷ rest) room s = (record { res = some 2; pcm = x ∷ x ∷ x ∷ y ∷ [] }, s + 1)
pairs _ room s = (record { res = none; pcm = [] }, s)

abbrev pair_library : Sbc ℕ
pair_library = record {
  sbc_decode = pairs;
  mode = λ s. 1;
  frequency = λ s. s;
  mode_mono = 0;
  freq_32000 = 1;
  freq_44100 = 2;
  freq_48000 = 3;
}

abbrev frame : ℕ → ℕ → Frame
frame x y = record { bytes = x ∷ y ∷ []; pcm = x ∷ x ∷ x ∷ y ∷ [] }

abbrev decoder : SbcDecoder ℕ
decoder = record { conf = no_conf; sbc = 0 }

abbrev packet : Buffer
packet = record blank { buffer = 1 ∷ 2 ∷ 3 ∷ 4 ∷ replicate 28 9; reserved = 8; size = 4 }

packet-IsSound : IsSound packet
packet-IsSound = record {
  whole = refl;
  inside = omega arith;
  small = omega arith;
  backed = omega arith;
}

on_process-decoded_example :
    (c : Buffer) × (on_process pair_library exact 3 no_conf decoder packet
      ≡ some (record { conf = decoded_conf pair_library 2; sbc = 2 }, c))
    × (contents c ≡ 1 ∷ 1 ∷ 1 ∷ 2 ∷ 3 ∷ 3 ∷ 3 ∷ 4 ∷ [])
on_process-decoded_example =
    on_process-decoded pair_library exact 3 no_conf decoder (frame 1 2) (frame 3 4 ∷ []) {t = 2}
      refl refl (1, (λ rest. refl), omega arith, (2, (λ rest. refl), omega arith, refl))
      (omega arith) (omega arith) packet-IsSound (omega arith) refl (omega arith)

-- A decoder that has decoded hands a fragmented packet on as it is, as raw samples.
abbrev fragment : Buffer
fragment = record blank {
  buffer = 0x80 ∷ 0x60 ∷ replicate 10 0 ++ (0x81 ∷ replicate 19 9);
  reserved = 8;
  size = 16;
}

fragment_run :
    on_process pair_library exact 3
      (record no_conf { is_rtp_payloaded = true })
      (record { conf = decoded_conf pair_library 2; sbc = 2 })
      fragment
    ≡ some (record { conf = decoded_conf pair_library 2; sbc = 2 }, fragment)
unfolding on_process header_of is_valid_sbc header_size sbc_header_of sbc_is_valid
fragment_run = refl
