-- ===== src/Rtp/Decoder/Runs.antt =====
-- Packets, and the theorems on headers and the decoder at concrete inputs.
use libcornrow.Base.{
  leb, if◌then◌else◌, drop, replicate, overwrite, ℕ, ◌+◌, ◌≡◌, refl, true, ◌&&◌, some, List, [],
  ◌∷◌, arith,
}
use libcornrow.Audio.Types.{AudioCodec, SampleRate, no_conf, conf_of}
use libcornrow.Core.Buffer.{Buffer, blank, contents, trim_front}
use libcornrow.Core.Buffer.Bounds.{IsSound}
use libcornrow.Rtp.Header.{header_of, header_size}
use libcornrow.Rtp.Decoder.{
  new_decoder, swap_header, header, track, on_process_codec, on_process, on_stop, starts, continues,
}
use libcornrow.Rtp.Decoder.Payload.{rtp_size, payload_type}
use libcornrow.Rtp.Decoder.Ac3.{ac3_accepts, ac3_payload}
use libcornrow.Rtp.Decoder.Plain.{sbc_accepts, sbc_payload}
use libcornrow.Rtp.Decoder.Sequence.{on_packets, AreNumbered, on_packets_consecutive}

-- A packet of 16 bytes: its first two bytes, its number, and what stands behind the header.
abbrev packet : ℕ → ℕ → ℕ → ℕ → List ℕ → Buffer
packet first second high low rest = record blank {
  buffer = first ∷ second ∷ high ∷ low ∷ 0 ∷ 0 ∷ 0 ∷ 0 ∷ 0 ∷ 0 ∷ 0 ∷ 0 ∷ rest;
  reserved = 4;
  size = 16;
}

abbrev ac3_packet : Buffer
ac3_packet = packet 128 224 255 255 (0 ∷ 1 ∷ 11 ∷ 119 ∷ [])

abbrev sbc_packet : Buffer
sbc_packet = packet 128 96 255 255 (3 ∷ 156 ∷ 11 ∷ 119 ∷ [])

abbrev next_packet : Buffer
next_packet = packet 128 96 0 0 (3 ∷ 156 ∷ 11 ∷ 119 ∷ [])

-- Two CSRCs are announced, and one is there.
abbrev cut_packet : Buffer
cut_packet = packet 130 96 0 0 (0 ∷ 0 ∷ 0 ∷ 0 ∷ [])

ac3_packet-IsSound : IsSound ac3_packet
ac3_packet-IsSound = record {
  whole = refl;
  inside = omega arith;
  small = omega arith;
  backed = omega arith;
}

sbc_packet-IsSound : IsSound sbc_packet
sbc_packet-IsSound = record {
  whole = refl;
  inside = omega arith;
  small = omega arith;
  backed = omega arith;
}

next_packet-IsSound : IsSound next_packet
next_packet-IsSound = record {
  whole = refl;
  inside = omega arith;
  small = omega arith;
  backed = omega arith;
}

cut_packet-IsSound : IsSound cut_packet
cut_packet-IsSound = record {
  whole = refl;
  inside = omega arith;
  small = omega arith;
  backed = omega arith;
}

accepts_ac3 : ac3_accepts (contents ac3_packet) 16 ≡ true
unfolding ac3_accepts rtp_size
accepts_ac3 = refl

accepts_sbc : sbc_accepts (contents sbc_packet) 16 ≡ true
unfolding sbc_accepts rtp_size
accepts_sbc = refl

runs_ac3 : contents (on_process AudioCodec.ac3 new_decoder ac3_packet).buffer ≡ 11 ∷ 119 ∷ []
unfolding on_process on_process_codec swap_header header_of header_size header track trim_front
    overwrite
runs_ac3 = refl

-- From 65535 to 0 is no discontinuity.
numbered : AreNumbered 65535 (sbc_packet ∷ next_packet ∷ [])
unfolding AreNumbered
numbered = (
  record { sound = sbc_packet-IsSound; long = omega arith; dynamic = omega arith; number = refl },
  (
    record {
      sound = next_packet-IsSound;
      long = omega arith;
      dynamic = omega arith;
      number = refl;
    },
    tt,
  ),
)

ac3_payload_example :
    let r = on_process AudioCodec.ac3 new_decoder ac3_packet in
    let p = contents ac3_packet in
    let ok = ac3_accepts p 16 in
    (r.conf ≡ (if ok then conf_of AudioCodec.ac3 SampleRate.invalid 0 else no_conf))
    × (contents r.buffer ≡ (if ok then drop (rtp_size p + 2) p else []))
ac3_payload_example = ac3_payload new_decoder ac3_packet ac3_packet-IsSound

sbc_payload_example :
    let r = on_process AudioCodec.sbc new_decoder sbc_packet in
    let p = contents sbc_packet in
    let ok = sbc_accepts p 16 in
    (r.conf ≡ (if ok then conf_of AudioCodec.sbc SampleRate.invalid 0 else no_conf))
    × (contents r.buffer ≡ (
        if ok
        then drop (rtp_size p + 1) p
        else if leb 12 16 && leb 96 (payload_type p)
        then contents (swap_header sbc_packet)
        else []))
sbc_payload_example =
    sbc_payload new_decoder sbc_packet sbc_packet-IsSound (unfold rtp_size in omega arith)

on_packets_consecutive_example :
    on_packets AudioCodec.alac (on_stop new_decoder) (sbc_packet ∷ next_packet ∷ [])
    ≡ some starts ∷ replicate 1 (some continues)
on_packets_consecutive_example =
    on_packets_consecutive AudioCodec.alac new_decoder 65535 sbc_packet (next_packet ∷ []) numbered
