-- ===== src/Rtp/Decoder/Payload.antt =====
-- The packet as the decoder sees it: the swap of its header, and the tests that all codecs share.
use libcornrow.Audio.Types.{AudioCodec, AudioConf, no_conf}
use libcornrow.Base.{
  ltb, leb, if◌then◌else◌, if_true, if_false, lt→ltb, le→leb, length, get_elem?, drop,
  length-overwrite, get_elem?-slice, get_elem?-overwrite, slice-overwrite_apart, ℕ, ◌+◌, ◌-◌, ◌*◌,
  ◌/◌, ◌%◌, ◌≤◌, ◌<◌, ◌≡◌, refl, sym, ap, ◌∙◌, ◌⊎◌, inl, inr, Bool, true, false, ◌&&◌, List, [],
  ◌∷◌, arith,
}
use libcornrow.Core.Buffer.{Buffer, contents, clear, trim_front}
use libcornrow.Core.Buffer.Bounds.{IsSound}
use libcornrow.Core.Buffer.Contents.{drop_of_slice, contents-trim_front}
use libcornrow.Rtp.Header.{header_of, header_size, header_size-header_of}
use libcornrow.Rtp.Decoder.{RtpDecoder, byte, swap_header, header, on_process_codec, on_process}
use native.Mathlib.Decide.{dec_lt}
use mathlib.Core.Option

-- The packet as a list: byte `i`, and the size of its RTP header.
abbrev pub at : List ℕ → ℕ → ℕ
at packet i = Option.get_or (get_elem? packet i) 0

unfoldable pub rtp_size : List ℕ → ℕ
rtp_size packet = 12 + 4 * (at packet 0 % 16) + 4 * (at packet 0 / 16 % 2)

abbrev pub payload_type : List ℕ → ℕ
payload_type packet = at packet 1 % 128

pub byte-at : (b : Buffer) (i : ℕ) → i < b.size → byte b i ≡ at (contents b) i
byte-at b i h =
    ap (λ o. Option.get_or o 0)
      (sym (get_elem?-slice b.offset b.size b.buffer i ∙ if_true _ _ (lt→ltb i b.size h)))

swapped_bytes : Buffer → List ℕ
swapped_bytes b = byte b 3 ∷ byte b 2 ∷ byte b 7 ∷ byte b 6 ∷ byte b 5 ∷ byte b 4 ∷ []

pub length-swap_header : (b : Buffer) → length (swap_header b).buffer ≡ length b.buffer
unfolding swap_header swapped_bytes
length-swap_header b = length-overwrite (b.offset + 2) (swapped_bytes b) b.buffer

pub swap_header-IsSound : {b : Buffer} → IsSound b → IsSound (swap_header b)
unfolding swap_header swapped_bytes
swap_header-IsSound {b} v =
    let keep = length-overwrite (b.offset + 2) (swapped_bytes b) b.buffer in
    record {
      whole = omega (arith, keep);
      inside = omega (arith, keep);
      small = omega (arith, keep);
      backed = omega (arith, keep);
    }

pub byte-swap_header :
    {b : Buffer} (i : ℕ)
    → IsSound b
    → 12 ≤ b.size
    → (i < 2) ⊎ (8 ≤ i)
    → byte (swap_header b) i ≡ byte b i
unfolding swap_header swapped_bytes
byte-swap_header {b} i v h apart =
    let e =
      get_elem?-overwrite (b.offset + 2) (swapped_bytes b) b.buffer (b.offset + i) (omega arith) in
    let out : leb (b.offset + 2) (b.offset + i) && ltb (b.offset + i) (b.offset + 2 + 6) ≡ false =
      ground arith in
    ap (λ o. Option.get_or o 0) (e ∙ if_false _ _ out)

pub drop-contents-swap_header :
    (n : ℕ) {b : Buffer}
    → IsSound b
    → 8 ≤ n
    → n ≤ b.size
    → drop n (contents (swap_header b)) ≡ drop n (contents b)
unfolding swap_header swapped_bytes
drop-contents-swap_header n {b} v h fits =
    drop_of_slice b.offset b.size n _ fits
    ∙ slice-overwrite_apart (b.offset + 2) (b.offset + n) (b.size - n) (swapped_bytes b) b.buffer
        (omega arith) (inr (omega arith))
    ∙ sym (drop_of_slice b.offset b.size n b.buffer fits)

pub header-swap_header :
    {b : Buffer}
    → IsSound b
    → 12 ≤ b.size
    → let h = header (swap_header b) in
      (header_size h ≡ rtp_size (contents b))
      × (h.payload_type ≡ payload_type (contents b))
      × (h.marker ≡ at (contents b) 1 / 128 % 2)
unfolding header header_of rtp_size
header-swap_header {b} v h =
    let e0 = byte-swap_header {b = b} 0 v h (inl (omega arith)) ∙ byte-at b 0 (omega arith) in
    let e1 = byte-swap_header {b = b} 1 v h (inl (omega arith)) ∙ byte-at b 1 (omega arith) in
    let s = swap_header b in
    (
      (header_size-header_of (byte s 0) (byte s 1) (byte s 2 + 256 * byte s 3)).0
          ∙ ap (λ x. 12 + 4 * (x % 16) + 4 * (x / 16 % 2)) e0,
      ap (λ x. x % 128) e1,
      ap (λ x. x / 128 % 2) e1,
    )

-- A packet that is long enough and of a dynamic type is left to the codec, after the swap.
pub on_process_dynamic :
    (codec : AudioCodec) (d : RtpDecoder) {b : Buffer}
    → IsSound b
    → leb 12 b.size && leb 96 (payload_type (contents b)) ≡ true
    → let s = swap_header b in
      ((on_process codec d b).conf ≡ (on_process_codec codec (header s) s).0)
      × ((on_process codec d b).buffer ≡ (on_process_codec codec (header s) s).1)
unfolding on_process
on_process_dynamic codec d {b} v ok =
    let s = swap_header b in
    let long : 12 ≤ b.size = ground arith in
    let pt = (header-swap_header v long).1 in
    let first : ltb b.size 12 ≡ false = ground arith in
    let second : ltb (header s).payload_type 96 ≡ false = ground arith in
    rw (first, second) (refl, refl)

pub on_process_refused :
    (codec : AudioCodec) (d : RtpDecoder) {b : Buffer}
    → IsSound b
    → leb 12 b.size && leb 96 (payload_type (contents b)) ≡ false
    → ((on_process codec d b).conf ≡ no_conf) × (contents (on_process codec d b).buffer ≡ [])
unfolding on_process
on_process_refused codec d {b} v bad = elim (dec_lt b.size 12) [
  | yes short ↦ rw (lt→ltb _ _ short) (refl, unfold clear in refl)
  | no long ↦
      let s = swap_header b in
      let pt = (header-swap_header v (omega arith)).1 in
      let first : ltb b.size 12 ≡ false = ground arith in
      let second : ltb (header s).payload_type 96 ≡ true = ground arith in
      rw (first, second) (refl, unfold clear in refl)
]

pub cut_swapped :
    (n : ℕ) {b : Buffer}
    → IsSound b
    → 8 ≤ n
    → n ≤ b.size
    → contents (trim_front n (swap_header b)) ≡ drop n (contents b)
unfolding swap_header
cut_swapped n {b} v h fits =
    contents-trim_front n (swap_header-IsSound v)
    ∙ if_true _ _ (le→leb n b.size fits)
    ∙ drop-contents-swap_header n v h fits

pub byte-swapped :
    {b : Buffer} (i : ℕ)
    → IsSound b
    → 12 ≤ i
    → i < b.size
    → byte (swap_header b) i ≡ at (contents b) i
byte-swapped {b} i v h lt =
    byte-swap_header {b = b} i v (omega arith) (inr (omega arith)) ∙ byte-at b i lt

pub rtp_size-ge : (packet : List ℕ) → 12 ≤ rtp_size packet
unfolding rtp_size
rtp_size-ge packet = omega arith

-- A choice between two results, read through the test.
pub chosen :
    {R : AudioConf × Buffer} (ok : Bool) (yes_conf other_conf : AudioConf) (good bad : Buffer)
    {c e : List ℕ}
    → R ≡ (if ok then (yes_conf, good) else (other_conf, bad))
    → (ok ≡ true → contents good ≡ c)
    → contents bad ≡ e
    → (R.0 ≡ (if ok then yes_conf else other_conf)) × (contents R.1 ≡ (if ok then c else e))
chosen true y n good bad e h h' = (ap (λ r. r.0) e, ap (λ r. contents r.1) e ∙ h refl)
chosen false y n good bad e h h' = (ap (λ r. r.0) e, ap (λ r. contents r.1) e ∙ h')
