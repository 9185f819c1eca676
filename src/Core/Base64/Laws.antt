-- ===== src/Core/Base64/Laws.antt =====
-- Round trips of base64.
use libcornrow.Base.{
  ◌==◌, if◌then◌else◌, length, get_elem?, All, IsByte, all_below, all_below_lem, mask_fc, mask_f0,
  mask_c0, mask_3f, mask_0f, mask_03, mask_30, mask_3c, ℕ, ◌+◌, ◌*◌, ◌/◌, ◌%◌, ◌<◌, bit_and, ◌≡◌,
  refl, Bool, true, false, not, ◌&&◌, Option, none, some, List, [], ◌∷◌, ◌++◌, arith,
}
use mathlib.Core.Option
use libcornrow.Core.Base64.{char_at, pos_of_char, read, decode_round, base64_decode, base64_encode}

-- A digit reads back as itself, and is neither of the characters that end a group.
digit_table :
    all_below 64
      (λ i. (pos_of_char (char_at i) == i) && not (char_at i == b'=') && not (char_at i == b'.'))
    ≡ true
unfolding all_below pos_of_char char_at
digit_table = refl

digit :
    (i : ℕ)
    → i < 64
    → (pos_of_char (char_at i) ≡ i) × ((char_at i == b'=') ≡ false) × ((char_at i == b'.') ≡ false)
digit i h = ground (arith, all_below_lem 64 _ digit_table i h)

read_in : (s : List ℕ) (i : ℕ) {c : ℕ} → i < length s → get_elem? s i ≡ some c → read s i ≡ some c
unfolding read
read_in s i h e = let ne : (i == length s) ≡ false = ground arith in rw ne e

-- One full group of digits.
decode_round_full :
    (d0 d1 d2 d3 : ℕ) (rest : List ℕ)
    → d0 < 64
    → d1 < 64
    → d2 < 64
    → d3 < 64
    → decode_round (char_at d0 ∷ char_at d1 ∷ char_at d2 ∷ char_at d3 ∷ rest)
      ≡ some ((d0 * 4 + d1 / 16) ∷ (d1 % 16 * 16 + d2 / 4) ∷ (d2 % 4 * 64 + d3) ∷ [])
unfolding decode_round
decode_round_full d0 d1 d2 d3 rest h0 h1 h2 h3 =
    let s = char_at d0 ∷ char_at d1 ∷ char_at d2 ∷ char_at d3 ∷ rest in
    let b0 : (d0 * 4 + bit_and d1 0x30 / 16) % 256 ≡ d0 * 4 + d1 / 16 = omega (arith, mask_30 d1) in
    let b1 : (bit_and d1 0x0f * 16 + bit_and d2 0x3c / 4) % 256 ≡ d1 % 16 * 16 + d2 / 4 =
      omega (arith, mask_0f d1, mask_3c d2) in
    let b2 : (bit_and d2 0x03 * 64 + d3) % 256 ≡ d2 % 4 * 64 + d3 = omega (arith, mask_03 d2) in
    rw (
      read_in s 1 (omega arith) refl,
      read_in s 0 (omega arith) refl,
      read_in s 2 (omega arith) refl,
      read_in s 3 (omega arith) refl,
      (digit d0 h0).0,
      (digit d1 h1).0,
      (digit d2 h2).0,
      (digit d3 h3).0,
      (digit d2 h2).1,
      (digit d3 h3).1,
      (digit d3 h3).2,
      b0,
      b1,
      b2,
    )

decode_round_one :
    (d0 d1 : ℕ)
    → d0 < 64
    → d1 < 64
    → decode_round (char_at d0 ∷ char_at d1 ∷ b'=' ∷ b'=' ∷ []) ≡ some ((d0 * 4 + d1 / 16) ∷ [])
unfolding decode_round
decode_round_one d0 d1 h0 h1 =
    let b0 : (d0 * 4 + bit_and d1 0x30 / 16) % 256 ≡ d0 * 4 + d1 / 16 = omega (arith, mask_30 d1) in
    rw ((digit d0 h0).0, (digit d1 h1).0, b0)

decode_round_two :
    (d0 d1 d2 : ℕ)
    → d0 < 64
    → d1 < 64
    → d2 < 64
    → decode_round (char_at d0 ∷ char_at d1 ∷ char_at d2 ∷ b'=' ∷ [])
      ≡ some ((d0 * 4 + d1 / 16) ∷ (d1 % 16 * 16 + d2 / 4) ∷ [])
unfolding decode_round
decode_round_two d0 d1 d2 h0 h1 h2 =
    let b0 : (d0 * 4 + bit_and d1 0x30 / 16) % 256 ≡ d0 * 4 + d1 / 16 = omega (arith, mask_30 d1) in
    let b1 : (bit_and d1 0x0f * 16 + bit_and d2 0x3c / 4) % 256 ≡ d1 % 16 * 16 + d2 / 4 =
      omega (arith, mask_0f d1, mask_3c d2) in
    rw ((digit d0 h0).0, (digit d1 h1).0, (digit d2 h2).0, (digit d2 h2).1, b0, b1)

decode_round_cut :
    (d0 d1 d2 : ℕ)
    → d0 < 64
    → d1 < 64
    → d2 < 64
    → decode_round (char_at d0 ∷ char_at d1 ∷ char_at d2 ∷ [])
      ≡ some ((d0 * 4 + d1 / 16) ∷ (d1 % 16 * 16 + d2 / 4) ∷ (d2 % 4 * 64) ∷ [])
unfolding decode_round
decode_round_cut d0 d1 d2 h0 h1 h2 =
    let b0 : (d0 * 4 + bit_and d1 0x30 / 16) % 256 ≡ d0 * 4 + d1 / 16 = omega (arith, mask_30 d1) in
    let b1 : (bit_and d1 0x0f * 16 + bit_and d2 0x3c / 4) % 256 ≡ d1 % 16 * 16 + d2 / 4 =
      omega (arith, mask_0f d1, mask_3c d2) in
    let b2 : (bit_and d2 0x03 * 64 + 0) % 256 ≡ d2 % 4 * 64 = omega (arith, mask_03 d2) in
    rw ((digit d0 h0).0, (digit d1 h1).0, (digit d2 h2).0, (digit d2 h2).1, b0, b1, b2)

-- The digits that `base64_encode` writes for a group of bytes, in plain arithmetic.
digit0 : (a : ℕ) → a < 256 → bit_and a 0xfc / 4 ≡ a / 4
digit0 a h = omega (arith, mask_fc a h)

digit1 :
    (a b : ℕ) → a < 256 → b < 256 → bit_and a 0x03 * 16 + bit_and b 0xf0 / 16 ≡ a % 4 * 16 + b / 16
digit1 a b h h' = omega (arith, mask_03 a h, mask_f0 b h')

digit2 :
    (b c : ℕ) → b < 256 → c < 256 → bit_and b 0x0f * 4 + bit_and c 0xc0 / 64 ≡ b % 16 * 4 + c / 64
digit2 b c h h' = omega (arith, mask_0f b h, mask_c0 c h')

-- Decoding a text that was encoded with padding gives back its bytes.
pub base64_decode-encode :
    (bytes : List ℕ) → All IsByte bytes → base64_decode (base64_encode bytes true) ≡ some bytes
unfolding base64_decode base64_encode Option.bind
base64_decode-encode [] h = refl
base64_decode-encode (a ∷ []) (ha, h) =
    let d1 : bit_and a 0x03 * 16 ≡ a % 4 * 16 = omega (arith, mask_03 a ha) in
    let e : a / 4 * 4 + a % 4 * 16 / 16 ≡ a = omega arith in
    rw (digit0 a ha, d1, decode_round_one (a / 4) (a % 4 * 16) (omega arith) (omega arith), e)
base64_decode-encode (a ∷ b ∷ []) (ha, (hb, h)) =
    let d1 = a % 4 * 16 + b / 16 in
    let d2 : bit_and b 0x0f * 4 ≡ b % 16 * 4 = omega (arith, mask_0f b hb) in
    let e0 : a / 4 * 4 + (a % 4 * 16 + b / 16) / 16 ≡ a = omega arith in
    let e1 : (a % 4 * 16 + b / 16) % 16 * 16 + b % 16 * 4 / 4 ≡ b = omega arith in
    rw (
      digit0 a ha,
      digit1 a b ha hb,
      d2,
      decode_round_two (a / 4) d1 (b % 16 * 4) (omega arith) (omega arith) (omega arith),
      e0,
      e1,
    )
base64_decode-encode (a ∷ b ∷ c ∷ rest) (ha, (hb, (hc, h))) =
    let d1 = a % 4 * 16 + b / 16 in
    let d2 = b % 16 * 4 + c / 64 in
    let e0 : a / 4 * 4 + (a % 4 * 16 + b / 16) / 16 ≡ a = omega arith in
    let e1 : (a % 4 * 16 + b / 16) % 16 * 16 + (b % 16 * 4 + c / 64) / 4 ≡ b = omega arith in
    let e2 : (b % 16 * 4 + c / 64) % 4 * 64 + c % 64 ≡ c = omega arith in
    rw (
      digit0 a ha,
      digit1 a b ha hb,
      digit2 b c hb hc,
      mask_3f c hc,
      decode_round_full (a / 4) d1 d2 (c % 64) (base64_encode rest true) (omega arith) (omega arith)
          (omega arith) (omega arith),
      base64_decode-encode rest h,
      e0,
      e1,
      e2,
    )

-- What is left of a text of `n` bytes after the full groups of three.
abbrev pub leftover : List ℕ → ℕ
leftover bytes = length bytes % 3

-- Without padding, decoding is right after whole groups of three bytes; after one byte more it reads
-- behind the end of the text, and after two bytes more it appends a zero byte.
pub base64_decode-encode_unpadded :
    (bytes : List ℕ)
    → All IsByte bytes
    → base64_decode (base64_encode bytes false) ≡ (
        if leftover bytes == 0
        then some bytes
        else if leftover bytes == 1
        then none
        else some (bytes ++ 0 ∷ []))
unfolding base64_decode base64_encode Option.bind
base64_decode-encode_unpadded [] h = refl
base64_decode-encode_unpadded (a ∷ []) (ha, h) = refl
base64_decode-encode_unpadded (a ∷ b ∷ []) (ha, (hb, h)) =
    let d1 = a % 4 * 16 + b / 16 in
    let d2 : bit_and b 0x0f * 4 ≡ b % 16 * 4 = omega (arith, mask_0f b hb) in
    let e0 : a / 4 * 4 + (a % 4 * 16 + b / 16) / 16 ≡ a = omega arith in
    let e1 : (a % 4 * 16 + b / 16) % 16 * 16 + b % 16 * 4 / 4 ≡ b = omega arith in
    let e2 : b % 16 * 4 % 4 * 64 ≡ 0 = omega arith in
    rw (
      digit0 a ha,
      digit1 a b ha hb,
      d2,
      decode_round_cut (a / 4) d1 (b % 16 * 4) (omega arith) (omega arith) (omega arith),
      e0,
      e1,
      e2,
    )
base64_decode-encode_unpadded (a ∷ b ∷ c ∷ rest) (ha, (hb, (hc, h))) =
    let d1 = a % 4 * 16 + b / 16 in
    let d2 = b % 16 * 4 + c / 64 in
    let e0 : a / 4 * 4 + (a % 4 * 16 + b / 16) / 16 ≡ a = omega arith in
    let e1 : (a % 4 * 16 + b / 16) % 16 * 16 + (b % 16 * 4 + c / 64) / 4 ≡ b = omega arith in
    let e2 : (b % 16 * 4 + c / 64) % 4 * 64 + c % 64 ≡ c = omega arith in
    let same : leftover (a ∷ b ∷ c ∷ rest) ≡ leftover rest = omega arith in
    rw
      (
        digit0 a ha,
        digit1 a b ha hb,
        digit2 b c hb hc,
        mask_3f c hc,
        decode_round_full (a / 4) d1 d2 (c % 64) (base64_encode rest false) (omega arith)
            (omega arith) (omega arith) (omega arith),
        base64_decode-encode_unpadded rest h,
        e0,
        e1,
        e2,
        same,
      )
      (spread (leftover rest == 0) (leftover rest == 1))
  where
    spread :
        (p q : Bool)
        → Path
            (Option (List ℕ))
            (Option.map
              (λ more. a ∷ b ∷ c ∷ more)
              (if p then some rest else if q then none else some (rest ++ 0 ∷ [])))
            (if p
              then some (a ∷ b ∷ c ∷ rest)
              else if q
              then none
              else some (a ∷ b ∷ c ∷ rest ++ 0 ∷ []))
    spread true q = refl
    spread false true = refl
    spread false false = refl
