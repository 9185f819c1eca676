-- ===== src/Audio/Alsa/Burst.antt =====
-- An AC-3 frame as a burst for S/PDIF: `doAc3Payload` byte for byte.
use libcornrow.Base.{
  ltb, length, get_elem?, length-append, get_elem?-append, get_elem?-slice, ℕ, ◌+◌, ◌-◌, ◌*◌, ◌/◌,
  ◌%◌, ◌^◌, ◌≤◌, ◌<◌, bit_and, ◌≡◌, refl, sym, ap, ◌∙◌, ◌⊎◌, inl, inr, false, some, List, [], ◌∷◌,
  ◌++◌, arith,
}
use libcornrow.Core.Buffer.{Allocator, Buffer, contents, prepend, grow}
use libcornrow.Core.Buffer.Bounds.{IsSound, HasSlack, IsAligned}
use libcornrow.Core.Buffer.Contents.{length-contents}
use libcornrow.Core.Buffer.Prepend.{prepend-Prepended}
use libcornrow.Audio.Alsa.{ac3_frame_size, spdif_ac3_header, swap_pairs, do_ac3_payload}
use libcornrow.Audio.Alsa.Swap.{found, Swapped, swap_pairs-Swapped}

at_contents :
    (b : Buffer) (k : ℕ) → k < b.size → get_elem? (contents b) k ≡ get_elem? b.buffer (b.offset + k)
at_contents b k h = ground (arith, get_elem?-slice b.offset b.size b.buffer k)

-- What the sink writes for the frame in `b`
pub record IsBurst (b c : Buffer) : Type 0 where
  pub header : List ℕ
  pub known : spdif_ac3_header b ≡ some header
  pub full : ac3_frame_size ≤ length c.buffer → c.size ≡ ac3_frame_size
  pub front : (k : ℕ) → k < 8 → get_elem? (contents c) k ≡ get_elem? header k
  pub first :
      (j : ℕ)
      → 2 * j < b.size
      → get_elem? (contents c) (8 + 2 * j) ≡ get_elem? (contents b) (2 * j + 1)
  pub second :
      (j : ℕ)
      → 2 * j < b.size
      → get_elem? (contents c) (8 + 2 * j + 1) ≡ get_elem? (contents b) (2 * j)

header_known :
    {b : Buffer}
    → IsSound b
    → 6 ≤ b.size
    → (h : List ℕ) × (spdif_ac3_header b ≡ some h) × (length h ≡ 8)
unfolding spdif_ac3_header
header_known {b} v enough =
    let (mode, e) = found b.buffer (b.offset + 5) (omega (arith, v)) in
    (
      0x72
          ∷ 0xf8
          ∷ 0x1f
          ∷ 0x4e
          ∷ 0x1
          ∷ bit_and mode 0x7
          ∷ b.size * 8 % 2 ^ 32 % 256
          ∷ b.size * 8 % 2 ^ 32 / 256 % 256
          ∷ [],
      rw e refl,
      refl,
    )

size_behind :
    (h : List ℕ) {b p : Buffer}
    → length h ≡ 8
    → IsSound b
    → IsSound p
    → contents p ≡ h ++ contents b
    → p.size ≡ 8 + b.size
size_behind h {b} {p} eight v w whole = omega (
  arith,
  length-contents w,
  length-contents v,
  ap length whole,
  length-append h (contents b),
  eight,
)

Swapped-IsBurst :
    (h : List ℕ) {b p : Buffer} {after : List ℕ}
    → spdif_ac3_header b ≡ some h
    → length h ≡ 8
    → IsSound b
    → IsSound p
    → contents p ≡ h ++ contents b
    → b.size % 2 ≡ 0
    → b.size + 8 ≤ ac3_frame_size
    → Swapped (b.size / 2) (p.offset + 8) p.buffer after
    → IsBurst b (grow ac3_frame_size (record p { buffer = after }))
unfolding grow
Swapped-IsBurst h {b} {p} {after} known eight v w whole even small sw = record {
  header = h;
  known = known;
  full = λ long. omega (arith, long, w, sw);
  front = λ k lt.
      at_contents c k (omega (arith, lt, room))
      ∙ sw.kept (p.offset + k) (inl (omega (arith, lt)))
      ∙ sym (at_contents p k (omega (arith, lt, size)))
      ∙ ap (λ x. get_elem? x k) whole
      ∙ ground (arith, get_elem?-append h (contents b) k, lt, eight);
  first = λ j lt.
      at_contents c (8 + 2 * j) (omega (arith, lt, room))
      ∙ ap (get_elem? after) (omega arith)
      ∙ sw.first j (omega (arith, lt, even))
      ∙ ap (get_elem? p.buffer) (omega arith)
      ∙ source (2 * j + 1) (omega (arith, lt, even));
  second = λ j lt.
      at_contents c (8 + 2 * j + 1) (omega (arith, lt, room, even))
      ∙ ap (get_elem? after) (omega arith)
      ∙ sw.second j (omega (arith, lt, even))
      ∙ ap (get_elem? p.buffer) (omega arith)
      ∙ source (2 * j) lt;
}
  where
    c : Buffer
    c = grow ac3_frame_size (record p { buffer = after })

    size : p.size ≡ 8 + b.size
    size = size_behind h eight v w whole

    room : 8 + b.size ≤ c.size
    room = omega (arith, w, sw, size, small)

    source :
        (k : ℕ) → k < b.size → get_elem? p.buffer (p.offset + (8 + k)) ≡ get_elem? (contents b) k
    source k lt =
        let e : 8 + k - 8 ≡ k = omega arith in
        sym (at_contents p (8 + k) (omega (arith, lt, size)))
        ∙ ap (λ x. get_elem? x (8 + k)) whole
        ∙ ground (
          arith,
          get_elem?-append h (contents b) (8 + k),
          lt,
          eight,
          ap (get_elem? (contents b)) e,
        )

payload_runs :
    (a : Allocator) (h : List ℕ) (b : Buffer) {p : Buffer} {after : List ℕ}
    → spdif_ac3_header b ≡ some h
    → prepend a h b ≡ some p
    → p.size ≡ 8 + b.size
    → swap_pairs (b.size / 2) (p.offset + 8) p.buffer ≡ some after
    → b.size + 8 ≤ ac3_frame_size
    → b.size % 2 ≡ 0
    → do_ac3_payload a b ≡ some (grow ac3_frame_size (record p { buffer = after }))
unfolding do_ac3_payload
payload_runs a h b {p} known prepended size runs small even =
    let pairs : (p.size - 8 + 1) / 2 ≡ b.size / 2 = omega (arith, size, even) in
    let fits : ltb (ac3_frame_size - 8) b.size ≡ false = ground (arith, small) in
    rw (fits, known, prepended, pairs, runs) refl

-- The swapping behind a header that is in front
behind_header :
    (a : Allocator) (h : List ℕ) {b p : Buffer}
    → spdif_ac3_header b ≡ some h
    → length h ≡ 8
    → prepend a h b ≡ some p
    → IsSound b
    → IsSound p
    → contents p ≡ h ++ contents b
    → b.size + 8 ≤ ac3_frame_size
    → b.size % 2 ≡ 0
    → (c : Buffer) × (do_ac3_payload a b ≡ some c) × IsBurst b c
behind_header a h {b} {p} known eight prepended v w whole small even =
    let size = size_behind h eight v w whole in
    let (after, runs, sw) =
      swap_pairs-Swapped (b.size / 2) (p.offset + 8) p.buffer (omega (arith, w, size, even)) in
    (
      grow ac3_frame_size (record p { buffer = after }),
      payload_runs a h b known prepended size runs small even,
      Swapped-IsBurst h known eight v w whole even small sw,
    )

-- An AC-3 frame of 6 to 6136 bytes, an even number, in a sound buffer with exactly eight bytes free in front, or at the
-- start of a storage where `acquire` is in bounds for it, becomes a burst: the eight bytes of the header, and the bytes
-- of the frame, swapped in pairs; the size is that of a burst if the storage is as long.
pub do_ac3_payload-IsBurst :
    (a : Allocator) {b : Buffer}
    → IsSound b
    → (b.offset ≡ 8) ⊎ ((b.offset ≡ 0) × HasSlack b × IsAligned b)
    → 6 ≤ b.size
    → b.size + 8 ≤ ac3_frame_size
    → b.size % 2 ≡ 0
    → (c : Buffer) × (do_ac3_payload a b ≡ some c) × IsBurst b c
do_ac3_payload-IsBurst a {b} v place enough small even =
    let (h, known, eight) = header_known v enough in
    let (p, prepended, whole, w) = prepend-Prepended a h v (elim place [
      | inl e ↦ inl (omega (arith, e, eight))
      | inr (z, slack, al) ↦ inr (z, slack, al, omega (arith, small, eight))
    ]) in
    behind_header a h known eight prepended v w whole small even
