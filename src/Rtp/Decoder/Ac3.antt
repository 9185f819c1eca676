-- ===== src/Rtp/Decoder/Ac3.antt =====
-- What the decoder hands on of an AC-3 packet, and what it refuses.
use native.Mathlib.Decide.{dec_lt}
use libcornrow.Audio.Types.{AudioCodec, SampleRate, AudioConf, no_conf, conf_of}
use libcornrow.Rtp.Header.{header_size}
use libcornrow.Rtp.Decoder.{RtpDecoder, byte, swap_header, header, on_process_codec, on_process}
use libcornrow.Core.Buffer.{Buffer, contents, clear, trim_front}
use libcornrow.Core.Buffer.Bounds.{IsSound}
use libcornrow.Base.{
  ltb, leb, ◌==◌, if◌then◌else◌, Bool-cases, drop, ℕ, ◌+◌, ◌/◌, ◌%◌, ◌≤◌, ◌≡◌, refl, ap, ◌∙◌, inl,
  inr, Bool, true, false, not, ◌&&◌, ◌||◌, List, [], arith,
}
use libcornrow.Rtp.Decoder.Payload.{
  chosen, at, rtp_size, payload_type, header-swap_header, on_process_dynamic, on_process_refused,
  cut_swapped, byte-swapped, rtp_size-ge,
}

-- What an AC-3 packet has to have: a header with a payload type from 96 on and the marker set, and two
-- more bytes, 0 and 1.
unfoldable pub ac3_accepts : List ℕ → ℕ → Bool
ac3_accepts packet n =
    leb 12 n
    && leb 96 (payload_type packet)
    && leb (rtp_size packet + 2) n
    && not (at packet 1 / 128 % 2 == 0)
    && (at packet (rtp_size packet) == 0)
    && (at packet (rtp_size packet + 1) == 1)

-- A ladder of early returns with one result.
ladder {ℓ} :
    {A : Type ℓ} (p q r : Bool) (x y : A)
    → (if p then x else if q then x else if r then x else y)
      ≡ (if not p && not q && not r then y else x)
ladder true q r x y = refl
ladder false true r x y = refl
ladder false false true x y = refl
ladder false false false x y = refl

abbrev ac3_rest : List ℕ → ℕ → Bool
ac3_rest packet n =
    leb (rtp_size packet + 2) n
    && not (at packet 1 / 128 % 2 == 0)
    && (at packet (rtp_size packet) == 0)
    && (at packet (rtp_size packet + 1) == 1)

ac3_tests :
    {b : Buffer}
    → IsSound b
    → 12 ≤ b.size
    → 96 ≤ payload_type (contents b)
    → let s = swap_header b in
      let h = header s in
      (not (ltb s.size (header_size h + 2))
        && not ((h.marker == 0) || ltb h.payload_type 96)
        && not (not (byte s (header_size h) == 0) || not (byte s (header_size h + 1) == 1)))
      ≡ ac3_rest (contents b) b.size
ac3_tests {b} v long dynamic =
    let s = swap_header b in
    let (size, pt, mk) = header-swap_header v long in
    let n = rtp_size (contents b) in
    let big = rtp_size-ge (contents b) in
    let same : s.size ≡ b.size = unfold swap_header in refl in
    rw (size, mk, pt, same)
      (elim (dec_lt b.size (n + 2)) [
        | yes short ↦ ground arith
        | no fits ↦
            let e0 = byte-swapped {b = b} n v big (omega arith) in
            let e1 = byte-swapped {b = b} (n + 1) v (omega arith) (omega arith) in
            ground (arith, e0, e1)
      ])

ac3_codec :
    {b : Buffer}
    → IsSound b
    → 12 ≤ b.size
    → 96 ≤ payload_type (contents b)
    → let s = swap_header b in
      let r = on_process_codec AudioCodec.ac3 (header s) s in
      let ok = ac3_rest (contents b) b.size in
      (r.0 ≡ (if ok then conf_of AudioCodec.ac3 SampleRate.invalid 0 else no_conf))
      × (contents r.1 ≡ (if ok then drop (rtp_size (contents b) + 2) (contents b) else []))
unfolding on_process_codec
ac3_codec {b} v long dynamic =
    let s = swap_header b in
    let conf = conf_of AudioCodec.ac3 SampleRate.invalid 0 in
    let n = rtp_size (contents b) in
    let big = rtp_size-ge (contents b) in
    let good = trim_front (header_size (header s) + 2) s in
    let x : AudioConf × Buffer = (no_conf, clear s) in
    let y : AudioConf × Buffer = (conf, good) in
    chosen (ac3_rest (contents b) b.size) conf no_conf good (clear s)
      (ladder _ _ _ x y ∙ ap (λ t. if t then y else x) (ac3_tests v long dynamic))
      (λ ok.
        let e = (header-swap_header v long).0 in
        ap (λ k. contents (trim_front (k + 2) s)) e
        ∙ cut_swapped (n + 2) v (omega arith) (ground (arith, ok)))
      (unfold clear in refl)

-- Of an AC-3 packet in a sound buffer that is accepted the decoder hands on all behind the RTP
-- header and the two bytes of the AC-3 header; of any other, nothing, and its configuration is
-- invalid.
pub ac3_payload :
    (d : RtpDecoder) (b : Buffer)
    → IsSound b
    → let r = on_process AudioCodec.ac3 d b in
      let packet = contents b in
      let ok = ac3_accepts packet b.size in
      (r.conf ≡ (if ok then conf_of AudioCodec.ac3 SampleRate.invalid 0 else no_conf))
      × (contents r.buffer ≡ (if ok then drop (rtp_size packet + 2) packet else []))
ac3_payload d b v = elim (Bool-cases (leb 12 b.size && leb 96 (payload_type (contents b)))) [
  | inl ok ↦
      let (conf, buf) = on_process_dynamic AudioCodec.ac3 d v ok in
      let (c, p) = ac3_codec v (ground (arith, ok)) (ground (arith, ok)) in
      let same : ac3_accepts (contents b) b.size ≡ ac3_rest (contents b) b.size =
        unfold ac3_accepts in ground (arith, ok) in
      rw same (conf ∙ c, ap contents buf ∙ p)
  | inr bad ↦
      let (conf, buf) = on_process_refused AudioCodec.ac3 d v bad in
      let out : ac3_accepts (contents b) b.size ≡ false =
        unfold ac3_accepts in ground (arith, bad) in
      rw out (conf, buf)
]
