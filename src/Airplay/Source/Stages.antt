-- ===== src/Airplay/Source/Stages.antt =====
-- What the RTP decoder and the decrypter do with a buffer.
use libcornrow.Base.{
  leb, length, take, drop, ℕ, ◌+◌, ◌*◌, ◌/◌, ◌%◌, ◌^◌, ◌≤◌, ◌<◌, ◌≡◌, refl, sym, ap, subst, ◌∙◌,
  true, ◌&&◌, some, List, ◌++◌, arith,
}
use libcornrow.Audio.Types.{AudioCodec, SampleRate, conf_of}
use libcornrow.Audio.Types.Channels.{stereo}
use libcornrow.Core.Buffer.{Allocator, Buffer, contents, acquire, trim_front}
use libcornrow.Core.Buffer.Bounds.{IsSound, trim_front-IsSound, HasSlack, IsAligned}
use libcornrow.Core.Buffer.Room.{acquire-roomy}
use libcornrow.Rtp.Decoder.{RtpDecoder, swap_header, on_process_codec}
use libcornrow.Rtp.Decoder.Payload.{
  rtp_size, payload_type, length-swap_header, swap_header-IsSound, header-swap_header,
  on_process_dynamic, cut_swapped, rtp_size-ge,
}
use libcornrow.Airplay.Decrypter.{OpenSsl, AirplayDecrypter}
use libcornrow.Airplay.Decrypter.Laws.{KeepsLength}
use libcornrow.Core.Buffer.Contents.{length-contents}
use libcornrow.Rtp.Decoder as Rtp
use libcornrow.Airplay.Decrypter as Crypt

-- A packet that the RTP decoder takes: of a dynamic payload type, with its whole header.
pub record IsAudioPacket (packet : List ℕ) : Type 0 where
  pub dynamic : 96 ≤ payload_type packet
  pub payload : rtp_size packet < length packet

-- The buffer `c` is `b` with `n` bytes cut off at the front.
pub record CutBy (n : ℕ) (b c : Buffer) : Type 0 where
  pub cut : contents c ≡ drop n (contents b)
  pub sound : IsSound c
  pub offset : c.offset ≡ b.offset + n
  pub size : c.size + n ≡ b.size
  pub long : length c.buffer ≡ length b.buffer

trimmed :
    (n : ℕ) {b : Buffer} → IsSound b → 8 ≤ n → n ≤ b.size → CutBy n b (trim_front n (swap_header b))
trimmed n {b} v h fits =
    let w = swap_header-IsSound v in
    let same : (swap_header b).size ≡ b.size = unfold swap_header in refl in
    let place : (swap_header b).offset ≡ b.offset = unfold swap_header in refl in
    let keep : length (swap_header b).buffer ≡ length b.buffer = length-swap_header b in
    record {
      cut = cut_swapped n v h fits;
      sound = trim_front-IsSound n w;
      offset = unfold trim_front in ground (arith, same, place, w);
      size = unfold trim_front in ground (arith, same, w);
      long = unfold trim_front in ground (arith, keep);
    }

pub rtp-CutBy :
    (d : RtpDecoder) {b : Buffer}
    → IsSound b
    → IsAudioPacket (contents b)
    → b.size ≡ length (contents b)
    → ((Rtp.on_process AudioCodec.alac d b).conf ≡ conf_of AudioCodec.alac SampleRate.invalid 0)
      × CutBy (rtp_size (contents b)) b (Rtp.on_process AudioCodec.alac d b).buffer
rtp-CutBy d {b} v p size =
    let big = rtp_size-ge (contents b) in
    let ok : leb 12 b.size && leb 96 (payload_type (contents b)) ≡ true =
      ground (arith, p.dynamic, p.payload, size) in
    let (conf, buf) = on_process_dynamic AudioCodec.alac d v ok in
    let e = (header-swap_header v (omega (arith, p.payload, size))).0 in
    let n = rtp_size (contents b) in
    let same : (Rtp.on_process AudioCodec.alac d b).buffer ≡ trim_front n (swap_header b) =
      buf ∙ unfold on_process_codec in ap (λ k. trim_front k (swap_header b)) e in
    (
      conf ∙ unfold on_process_codec in refl,
      subst (CutBy n b) (sym same) (trimmed n v (omega arith) (omega (arith, p.payload, size))),
    )

-- What the decrypter makes of a payload
abbrev pub decrypted : {K : Type 0} → OpenSsl K → AirplayDecrypter K → List ℕ → List ℕ
decrypted ssl s x =
    ssl.aes_cbc_decrypt s.aes_key s.iv (take (length x / 16 * 16) x) ++ drop (length x / 16 * 16) x

module _ {K : Type 0} (ssl : OpenSsl K) (a : Allocator) (s : AirplayDecrypter K) where
  -- The result stands where `acquire` puts it.
  pub record Decrypted (b c : Buffer) : Type 0 where
    pub runs :
        Crypt.on_process ssl a s b ≡ some (conf_of AudioCodec.alac SampleRate.rate44100 stereo, c)
    pub plain : contents c ≡ decrypted ssl s (contents b)
    pub sound : IsSound c
    pub offset : c.offset ≡ (acquire a b.size b).acquired_offset
    pub size : c.size ≡ b.size
    pub long : length c.buffer ≡ length (acquire a b.size b).buffer

  pub decrypter-Decrypted :
      {b : Buffer}
      → KeepsLength ssl
      → length s.iv ≡ 16
      → IsSound b
      → HasSlack b
      → IsAligned b
      → b.offset + b.size + b.size < 2 ^ 61
      → (c : Buffer) × Decrypted b c
  decrypter-Decrypted {b} keeps sixteen v slack al small =
      let (c, e, plain, w, place, size, long) =
        Crypt.Laws.on_process-region ssl a s keeps sixteen v slack al small in
      (
        c,
        record {
          runs = e;
          plain = rw (length-contents v) plain;
          sound = w;
          offset = place;
          size = size;
          long = long;
        },
      )

  -- With room behind the packet there is room behind the result.
  pub Decrypted-roomy :
      {b c : Buffer}
      → Decrypted b c
      → IsSound b
      → IsAligned b
      → b.size % 4 ≡ 0
      → b.offset + b.size + b.size + 3 ≤ length b.buffer
      → HasSlack c × IsAligned c × (c.offset + c.size ≤ length b.buffer)
  Decrypted-roomy {b} {c} d v al whole room =
      let (same, four, fits) = acquire-roomy a b.size v al room in
      let long : length c.buffer ≡ length b.buffer = d.long ∙ ap length same in
      let place = d.offset in let size = d.size in (omega arith, omega arith, omega arith)
