-- ===== src/Rtp/Decoder/Plain.antt =====
-- What the decoder hands on of ALAC and SBC packets.
use native.Mathlib.Decide.{dec_lt}
use libcornrow.Base.{
  ltb, leb, ◌==◌, if◌then◌else◌, if_true, lt→ltb, Bool-cases, drop, ℕ, ◌+◌, ◌/◌, ◌%◌, ◌≤◌, ◌<◌, ◌≡◌,
  refl, ap, ◌∙◌, inl, inr, Bool, true, false, not, ◌&&◌, List, [], arith,
}
use libcornrow.Audio.Types.{AudioCodec, SampleRate, AudioConf, no_conf, conf_of}
use libcornrow.Core.Buffer.{Buffer, contents, trim_front}
use libcornrow.Core.Buffer.Bounds.{IsSound}
use libcornrow.Rtp.Header.{
  is_valid_sbc, header_size, sbc_header_of, is_set, sbc_is_valid, sbc_is_valid-whole,
}
use libcornrow.Rtp.Decoder.{RtpDecoder, byte, swap_header, header, on_process_codec, on_process}
use libcornrow.Rtp.Decoder.Payload.{
  at, rtp_size, payload_type, header-swap_header, on_process_dynamic, on_process_refused,
  cut_swapped, byte-swapped, rtp_size-ge, chosen,
}

-- Of an ALAC packet with a payload type from 96 on and its whole header, the decoder hands on what
-- stands behind the header.
pub alac_payload :
    (d : RtpDecoder) {b : Buffer}
    → IsSound b
    → 96 ≤ payload_type (contents b)
    → rtp_size (contents b) ≤ b.size
    → let r = on_process AudioCodec.alac d b in
      (r.conf ≡ conf_of AudioCodec.alac SampleRate.invalid 0)
      × (contents r.buffer ≡ drop (rtp_size (contents b)) (contents b))
alac_payload d {b} v dynamic whole =
    let big = rtp_size-ge (contents b) in
    let ok : leb 12 b.size && leb 96 (payload_type (contents b)) ≡ true = ground arith in
    let (conf, buf) = on_process_dynamic AudioCodec.alac d v ok in
    let e = (header-swap_header v (omega arith)).0 in
    (
      conf ∙ unfold on_process_codec in refl,
      ap contents buf
          ∙ unfold on_process_codec in
            ap (λ k. contents (trim_front k (swap_header b))) e
            ∙ cut_swapped (rtp_size (contents b)) v (omega arith) whole,
    )

trim_front_short : (n : ℕ) (b : Buffer) → b.size < n → trim_front n b ≡ b
unfolding trim_front
trim_front_short n b h = if_true _ _ (lt→ltb _ _ h)

-- An ALAC packet in a sound buffer, of 12 bytes or more and a payload type from 96 on, that ends
-- inside its own header is accepted with nothing cut off: its header goes on as audio.
pub alac_short :
    (d : RtpDecoder) {b : Buffer}
    → IsSound b
    → 96 ≤ payload_type (contents b)
    → 12 ≤ b.size
    → b.size < rtp_size (contents b)
    → let r = on_process AudioCodec.alac d b in
      (r.conf ≡ conf_of AudioCodec.alac SampleRate.invalid 0) × (r.buffer ≡ swap_header b)
alac_short d {b} v dynamic long short =
    let ok : leb 12 b.size && leb 96 (payload_type (contents b)) ≡ true = ground arith in
    let (conf, buf) = on_process_dynamic AudioCodec.alac d v ok in
    let e = (header-swap_header v long).0 in
    let same : (swap_header b).size ≡ b.size = unfold swap_header in refl in
    (
      conf ∙ unfold on_process_codec in refl,
      buf ∙ unfold on_process_codec in trim_front_short _ (swap_header b) (omega arith),
    )

-- What the decoder tests of the byte behind the header of an SBC packet: a frame count, and neither a
-- fragment nor one of its marks.
unfoldable pub sbc_accepts : List ℕ → ℕ → Bool
sbc_accepts packet n =
    leb 12 n
    && leb 96 (payload_type packet)
    && ltb (rtp_size packet) n
    && (at packet 1 / 128 % 2 == 0)
    && ltb (at packet (rtp_size packet)) 32
    && not (at packet (rtp_size packet) % 16 == 0)

abbrev sbc_rest : List ℕ → ℕ → Bool
sbc_rest packet n =
    ltb (rtp_size packet) n
    && (at packet 1 / 128 % 2 == 0)
    && ltb (at packet (rtp_size packet)) 32
    && not (at packet (rtp_size packet) % 16 == 0)

sbc_tests :
    {b : Buffer}
    → IsSound b
    → 12 ≤ b.size
    → 96 ≤ payload_type (contents b)
    → at (contents b) (rtp_size (contents b)) < 256
    → let s = swap_header b in
      let h = header s in
      let f = sbc_header_of (byte s (header_size h)) in
      (not (ltb s.size (header_size h + 1))
        && is_valid_sbc h
        && sbc_is_valid f
        && not (is_set f.is_fragmented))
      ≡ sbc_rest (contents b) b.size
unfolding is_valid_sbc
sbc_tests {b} v long dynamic small =
    let s = swap_header b in
    let (size, pt, mk) = header-swap_header v long in
    let n = rtp_size (contents b) in
    let big = rtp_size-ge (contents b) in
    let same : s.size ≡ b.size = unfold swap_header in refl in
    rw (size, mk, pt, same)
      (elim (dec_lt b.size (n + 1)) [
        | yes short ↦ ground arith
        | no fits ↦
            let e = byte-swapped {b = b} n v big (omega arith) in
            let whole = sbc_is_valid-whole (at (contents b) n) small in rw e (ground (arith, whole))
      ])

ladder {ℓ} :
    {A : Type ℓ} (p q r t : Bool) (x y : A)
    → (if p then x else if not q then x else if not r then x else if t then x else y)
      ≡ (if not p && q && r && not t then y else x)
ladder true q r t x y = refl
ladder false false r t x y = refl
ladder false true false t x y = refl
ladder false true true true x y = refl
ladder false true true false x y = refl

sbc_codec :
    {b : Buffer}
    → IsSound b
    → 12 ≤ b.size
    → 96 ≤ payload_type (contents b)
    → at (contents b) (rtp_size (contents b)) < 256
    → let s = swap_header b in
      let r = on_process_codec AudioCodec.sbc (header s) s in
      let ok = sbc_rest (contents b) b.size in
      (r.0 ≡ (if ok then conf_of AudioCodec.sbc SampleRate.invalid 0 else no_conf))
      × (contents r.1 ≡ (if ok then drop (rtp_size (contents b) + 1) (contents b) else contents s))
unfolding on_process_codec
sbc_codec {b} v long dynamic small =
    let s = swap_header b in
    let conf = conf_of AudioCodec.sbc SampleRate.invalid 0 in
    let n = rtp_size (contents b) in
    let big = rtp_size-ge (contents b) in
    let good = trim_front (header_size (header s) + 1) s in
    let x : AudioConf × Buffer = (no_conf, s) in
    let y : AudioConf × Buffer = (conf, good) in
    chosen (sbc_rest (contents b) b.size) conf no_conf good s
      (ladder _ _ _ _ x y ∙ ap (λ t. if t then y else x) (sbc_tests v long dynamic small))
      (λ ok.
        let e = (header-swap_header v long).0 in
        ap (λ k. contents (trim_front (k + 1) s)) e
        ∙ cut_swapped (n + 1) v (omega arith) (ground (arith, ok)))
      refl

-- Of an SBC packet of bytes in a sound buffer whose byte behind the RTP header shows whole frames
-- the decoder hands on what stands behind that byte. Of any other its configuration is invalid; a
-- packet that `onProcess` refuses is cleared, and one that only the codec refuses is left as it is
-- after the swap of its header.
pub sbc_payload :
    (d : RtpDecoder) (b : Buffer)
    → IsSound b
    → at (contents b) (rtp_size (contents b)) < 256
    → let r = on_process AudioCodec.sbc d b in
      let packet = contents b in
      let ok = sbc_accepts packet b.size in
      (r.conf ≡ (if ok then conf_of AudioCodec.sbc SampleRate.invalid 0 else no_conf))
      × (contents r.buffer ≡ (
          if ok
          then drop (rtp_size packet + 1) packet
          else if leb 12 b.size && leb 96 (payload_type packet)
          then contents (swap_header b)
          else []))
sbc_payload d b v small = elim (Bool-cases (leb 12 b.size && leb 96 (payload_type (contents b)))) [
  | inl ok ↦
      let (conf, buf) = on_process_dynamic AudioCodec.sbc d v ok in
      let (c, p) = sbc_codec v (ground (arith, ok)) (ground (arith, ok)) small in
      let same : sbc_accepts (contents b) b.size ≡ sbc_rest (contents b) b.size =
        unfold sbc_accepts in ground (arith, ok) in
      rw (same, ok) (conf ∙ c, ap contents buf ∙ p)
  | inr bad ↦
      let (conf, buf) = on_process_refused AudioCodec.sbc d v bad in
      let out : sbc_accepts (contents b) b.size ≡ false =
        unfold sbc_accepts in ground (arith, bad) in
      rw (out, bad) (conf, buf)
]
