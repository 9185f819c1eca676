-- ===== src/Rtp/Header.antt =====
-- src/rtp/RtpTypes.h and RtpTypes.cpp, on a little-endian machine: the bit fields of a header are read
-- from its bytes, the lowest bits first.
use libcornrow.Base.{
  ltb, ◌==◌, if◌then◌else◌, ℕ, ◌+◌, ◌-◌, ◌*◌, ◌/◌, ◌%◌, ◌≤◌, ◌<◌, ◌≡◌, Bool, true, false, not, ◌&&◌,
  ◌||◌, arith,
}

pub record RtpHeader : Type 0 where
  pub csrc_count : ℕ
  pub extension : ℕ
  pub padding : ℕ
  pub version : ℕ
  pub payload_type : ℕ
  pub marker : ℕ
  pub sequence_number : ℕ

-- The fields of the first two bytes, and a sequence number that is swapped already.
unfoldable pub header_of : ℕ → ℕ → ℕ → RtpHeader
header_of first second sequence = record {
  csrc_count = first % 16;
  extension = first / 16 % 2;
  padding = first / 32 % 2;
  version = first / 64 % 4;
  payload_type = second % 128;
  marker = second / 128 % 2;
  sequence_number = sequence;
}

unfoldable pub is_valid_sbc : RtpHeader → Bool
is_valid_sbc h =
    if not (h.marker == 0) then false else if ltb h.payload_type 96 then false else true

-- `uint8_t size = sizeof(RtpHeader)`, which is 80, less what is absent
unfoldable pub header_size : RtpHeader → ℕ
header_size h =
    let without_csrc = (80 + 256 - (16 - h.csrc_count) * 4) % 256 in
    (without_csrc + 256 - (1 - h.extension) * 4) % 256

pub record RtpSbcHeader : Type 0 where
  pub frame_count : ℕ
  pub reserved : ℕ
  pub is_last_fragment : ℕ
  pub is_first_segment : ℕ
  pub is_fragmented : ℕ

unfoldable pub sbc_header_of : ℕ → RtpSbcHeader
sbc_header_of byte = record {
  frame_count = byte % 16;
  reserved = byte / 16 % 2;
  is_last_fragment = byte / 32 % 2;
  is_first_segment = byte / 64 % 2;
  is_fragmented = byte / 128 % 2;
}

abbrev pub is_set : ℕ → Bool
is_set bit = not (bit == 0)

unfoldable pub sbc_is_valid : RtpSbcHeader → Bool
sbc_is_valid h =
    if h.frame_count == 0
    then false
    else if is_set h.is_fragmented && is_set h.is_first_segment && is_set h.is_last_fragment
    then false
    else if not (is_set h.is_fragmented) && (is_set h.is_first_segment || is_set h.is_last_fragment)
    then false
    else true

-- `SbcFrameHeader::isValid` looks at the first byte alone.
unfoldable pub frame_is_valid : ℕ → Bool
frame_is_valid sync_word = if not (sync_word == 0x9c) then false else true

-- A header as it stands in a packet takes 12 bytes and 4 for each CSRC and for an extension: 12 to 76
-- bytes; the 8-bit arithmetic does not wrap.
pub header_size-header_of :
    (first second sequence : ℕ)
    → let h = header_of first second sequence in
      (header_size h ≡ 12 + 4 * h.csrc_count + 4 * h.extension)
      × (12 ≤ header_size h)
      × (header_size h ≤ 76)
unfolding header_size header_of
header_size-header_of first second sequence = omega arith

-- The one-byte header that is valid and not fragmented has a frame count and nothing but that and the
-- reserved bit: it is 1 to 15, or 17 to 31.
pub sbc_is_valid-whole :
    (byte : ℕ)
    → byte < 256
    → sbc_is_valid (sbc_header_of byte) && not (is_set (sbc_header_of byte).is_fragmented)
      ≡ (ltb byte 32 && not (byte % 16 == 0))
unfolding sbc_is_valid sbc_header_of
sbc_is_valid-whole byte h = ground arith
