-- ===== src/Rtp/Decoder.antt =====
-- src/rtp/RtpDecoder.cpp. The node works on a buffer in place. What it logs about the sequence is a
-- result.
pub mod Payload
pub mod Ac3
pub mod Plain
pub mod Sequence
mod Runs
use libcornrow.Base.{
  ltb, ◌==◌, if◌then◌else◌, get_elem?, overwrite, ℕ, ◌+◌, ◌*◌, ◌%◌, ◌^◌, Bool, true, false, not,
  ◌||◌, Option, none, some, [], ◌∷◌,
}
use libcornrow.Audio.Types.{AudioCodec, SampleRate, AudioConf, no_conf, conf_of, sbc}
use libcornrow.Core.Buffer.{Buffer, clear, trim_front}
use libcornrow.Rtp.Header.{
  RtpHeader, header_of, is_valid_sbc, header_size, sbc_header_of, is_set, sbc_is_valid,
}
use mathlib.Core.Option

pub record RtpDecoder : Type 0 where
  pub is_flushed : Bool
  pub seq : ℕ

abbrev pub new_decoder : RtpDecoder
new_decoder = record { is_flushed = true; seq = 0 }

-- "sequence starts at", nothing, "sequence discontinuous"
pub data Event : Type 0 where
  starts continues jumps : Event

-- `buffer.data()[i]`
abbrev pub byte : Buffer → ℕ → ℕ
byte b i = Option.get_or (get_elem? b.buffer (b.offset + i)) 0

-- The sequence number and the time stamp, big-endian in a packet, are swapped in place.
unfoldable pub swap_header : Buffer → Buffer
swap_header b = record b {
  buffer =
      overwrite (b.offset + 2)
        (byte b 3 ∷ byte b 2 ∷ byte b 7 ∷ byte b 6 ∷ byte b 5 ∷ byte b 4 ∷ []) b.buffer;
}

-- `*rtpHeader` after the swap, when the sequence number is little-endian
unfoldable pub header : Buffer → RtpHeader
unfolding header_of
header b = header_of (byte b 0) (byte b 1) (byte b 2 + 256 * byte b 3)

-- The test of `m_isFlushed` and `m_seq` in `onProcess`
unfoldable pub track : RtpDecoder → ℕ → Event × RtpDecoder
track d sequence =
    if d.is_flushed
    then (starts, record { is_flushed = false; seq = sequence })
    else if (d.seq + 1) % 2 ^ 16 == sequence
    then (continues, record d { seq = sequence })
    else (jumps, record d { seq = sequence })

unfoldable pub on_process_codec : AudioCodec → RtpHeader → Buffer → AudioConf × Buffer
on_process_codec AudioCodec.ac3 h b =
    if ltb b.size (header_size h + 2)
    then (no_conf, clear b)
    else if (h.marker == 0) || ltb h.payload_type 96
    then (no_conf, clear b)
    else if not (byte b (header_size h) == 0) || not (byte b (header_size h + 1) == 1)
    then (no_conf, clear b)
    else (conf_of AudioCodec.ac3 SampleRate.invalid 0, trim_front (header_size h + 2) b)
on_process_codec AudioCodec.sbc h b =
    let sbc = sbc_header_of (byte b (header_size h)) in
    if ltb b.size (header_size h + 1)
    then (no_conf, b)
    else if not (is_valid_sbc h)
    then (no_conf, b)
    else if not (sbc_is_valid sbc)
    then (no_conf, b)
    else if is_set sbc.is_fragmented
    then (no_conf, b)
    else (conf_of AudioCodec.sbc SampleRate.invalid 0, trim_front (header_size h + 1) b)
on_process_codec codec h b = (conf_of codec SampleRate.invalid 0, trim_front (header_size h) b)

pub record Processed : Type 0 where
  pub conf : AudioConf
  pub buffer : Buffer
  pub decoder : RtpDecoder
  pub event : Option Event

unfoldable pub on_process : AudioCodec → RtpDecoder → Buffer → Processed
on_process codec d b =
    let swapped = swap_header b in
    let h = header swapped in
    let (event, d') = track d h.sequence_number in
    let (conf, b') = on_process_codec codec h swapped in
    if ltb b.size 12
    then record { conf = no_conf; buffer = clear b; decoder = d; event = none }
    else if ltb h.payload_type 96
    then record { conf = no_conf; buffer = clear swapped; decoder = d; event = none }
    else record { conf = conf; buffer = b'; decoder = d'; event = some event }

unfoldable pub on_stop : RtpDecoder → RtpDecoder
on_stop d = record d { is_flushed = true }
