-- ===== src/Audio/Sbc.antt =====
-- src/audio/SbcDecoder.cpp. The SBC library is a parameter: its state, what `sbc_decode` does, and the constants of
-- its header.
pub mod Frames
pub mod Laws
mod Runs
use libcornrow.Base.{
  ltb, ◌==◌, if◌then◌else◌, length, slice, memcpy, add_size, sub_size, mul_size, ℕ, zero, suc, ◌+◌,
  ◌*◌, Bool, true, false, not, Option, none, some, List,
}
use libcornrow.Audio.Types.{AudioCodec, SampleRate, AudioConf}
use libcornrow.Audio.Types.Channels.{mono, stereo}
use libcornrow.Core.Buffer.{Allocator, Buffer, acquire, commit}
use libcornrow.Rtp.Header.{
  RtpHeader, header_of, is_valid_sbc, header_size, RtpSbcHeader, sbc_header_of, is_set,
  sbc_is_valid,
}
use libcornrow.Rtp.Decoder.{byte}
use mathlib.Core.Option

-- What a call of `sbc_decode` gives: the bytes of the frame it took, none on an error, and the bytes it wrote.
pub record Decoded : Type 0 where
  pub res : Option ℕ
  pub pcm : List ℕ

-- `sbc_decode` gets the input, as far as there is storage, and the size of the output.
pub record Sbc (S : Type 0) : Type 0 where
  pub sbc_decode : List ℕ → ℕ → S → Decoded × S
  pub mode : S → ℕ
  pub frequency : S → ℕ
  pub mode_mono : ℕ
  pub freq_32000 : ℕ
  pub freq_44100 : ℕ
  pub freq_48000 : ℕ

-- The variables of the decoding loop: the storage, `readBytes`, `writtenBytes`, whether `res >= 0`, and the library's
-- state
pub record Progress (S : Type 0) : Type 0 where
  pub storage : List ℕ
  pub read_bytes : ℕ
  pub written_bytes : ℕ
  pub ok : Bool
  pub state : S

pub record SbcDecoder (S : Type 0) : Type 0 where
  pub conf : AudioConf
  pub sbc : S

module _ {S : Type 0} (lib : Sbc S) where
  unfoldable pub to_coro_frequency : ℕ → SampleRate
  to_coro_frequency i =
      if i == lib.freq_32000
      then SampleRate.rate32000
      else if i == lib.freq_44100
      then SampleRate.rate44100
      else if i == lib.freq_48000
      then SampleRate.rate48000
      else SampleRate.invalid

  -- What a call leaves in the variables, with the storage it wrote to
  unfoldable pub after_call : Progress S → Option ℕ → List ℕ → List ℕ → S → Progress S
  after_call p none pcm storage s = record p { storage = storage; ok = false; state = s }
  after_call p (some n) pcm storage s = record {
    storage = storage;
    read_bytes = add_size p.read_bytes n;
    written_bytes = add_size p.written_bytes (length pcm);
    ok = true;
    state = s;
  }

  -- One round: `from` is where the payload starts, `to` the region, `size` the buffer's. `none` if it writes out of
  -- the storage.
  unfoldable pub decode_round : ℕ → ℕ → ℕ → Progress S → Option (Progress S)
  unfolding after_call
  decode_round size from to p =
      let (d, s) = lib.sbc_decode (slice (from + p.read_bytes) size p.storage) size p.state in
      Option.map (λ storage. after_call p d.res d.pcm storage s)
        (memcpy (to + p.written_bytes) d.pcm p.storage)

  -- The loop, on fuel; `none` also without.
  unfoldable pub decode_loop : ℕ → ℕ → ℕ → ℕ → ℕ → Progress S → Option (Progress S)
  unfolding Option.bind decode_round
  decode_loop zero size total from to p = none
  decode_loop (suc fuel) size total from to p =
      if ltb p.read_bytes total
      then (Option.bind (decode_round size from to p)
          λ q. if q.ok then decode_loop fuel size total from to q else some q)
      else some p

  -- The format that is known after a decoded frame
  unfoldable pub decoded_conf : S → AudioConf
  unfolding to_coro_frequency
  decoded_conf s = record {
    codec = AudioCodec.raw_int16;
    rate = to_coro_frequency (lib.frequency s);
    channels = if lib.mode s == lib.mode_mono then mono else stereo;
    is_rtp_payloaded = false;
  }

  unfoldable pub decode_payload :
      Allocator → ℕ → ℕ → SbcDecoder S → Buffer → Option (SbcDecoder S × Buffer)
  unfolding acquire commit decode_loop decoded_conf
  decode_payload a fuel payload_offset d b =
      let b1 = acquire a (mul_size b.size 5) b in
      Option.map
        (λ (p : Progress S). (
          record { conf = if p.ok then decoded_conf p.state else d.conf; sbc = p.state },
          commit p.written_bytes (record b1 { buffer = p.storage }),
        ))
        (decode_loop fuel b1.size (sub_size b1.size payload_offset) (b1.offset + payload_offset)
          b1.acquired_offset
          (record {
            storage = b1.buffer;
            read_bytes = 0;
            written_bytes = 0;
            ok = false;
            state = d.sbc;
          }))

  -- `onProcess`; what it returns is the new `m_conf`. A byte that is not in the storage reads as 0.
  unfoldable pub on_process :
      Allocator → ℕ → AudioConf → SbcDecoder S → Buffer → Option (SbcDecoder S × Buffer)
  unfolding decode_payload header_of is_valid_sbc header_size sbc_header_of sbc_is_valid
  on_process a fuel conf d b =
      if conf.is_rtp_payloaded
      then if not (is_valid_sbc h)
        then some (invalid, b)
        else if not (sbc_is_valid sbc)
        then some (invalid, b)
        else if is_set sbc.is_fragmented
        then some (d, b)
        else decode_payload a fuel (header_size h + 1) d b
      else decode_payload a fuel 0 d b
    where
      h : RtpHeader
      h = header_of (byte b 0) (byte b 1) (byte b 2 + 256 * byte b 3)

      sbc : RtpSbcHeader
      sbc = sbc_header_of (byte b (header_size h))

      invalid : SbcDecoder S
      invalid = record d { conf = record d.conf { codec = AudioCodec.invalid } }
