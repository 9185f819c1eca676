-- ===== src/Core/Base64.antt =====
-- src/core/Util.cpp: base64. A string is the list of its bytes; `>> k` and `<< k` are `/` and `*`.
pub mod Laws
mod Runs
use libcornrow.Base.{
  leb, ◌==◌, if◌then◌else◌, length, get_elem?, codes, ℕ, ◌+◌, ◌-◌, ◌*◌, ◌/◌, ◌%◌, bit_and, Bool,
  ◌&&◌, ◌||◌, Option, some, List, [], ◌∷◌, ◌++◌,
}
use mathlib.Core.Option

abbrev pub base64_chars : List ℕ
base64_chars = codes "ABCDEFGHIJKLMNOPQRSTUVWXYZabcdefghijklmnopqrstuvwxyz0123456789+/"

-- `base64Chars[i]`
unfoldable pub char_at : ℕ → ℕ
char_at i = Option.get_or (get_elem? base64_chars i) 0

unfoldable pub pos_of_char : ℕ → ℕ
pos_of_char c =
    if leb b'A' c && leb c b'Z'
    then c - b'A'
    else if leb b'a' c && leb c b'z'
    then c - b'a' + 25 + 1
    else if leb b'0' c && leb c b'9'
    then c - b'0' + 25 + 25 + 2
    else if c == b'+'
    then 62
    else if c == b'/'
    then 63
    else 0

-- `std::string::operator[]`: 0 at the end; a read behind it is undefined.
unfoldable pub read : List ℕ → ℕ → Option ℕ
read s i = if i == length s then some 0 else get_elem? s i

-- One round of the loop of `base64Decode`, on what is left of the input.
unfoldable pub decode_round : List ℕ → Option (List ℕ)
unfolding pos_of_char read Option.bind
decode_round s = Option.bind (read s 1) λ c1. Option.bind (read s 0) λ c0.
    Option.bind (read s 2) λ c2.
      let p0 = pos_of_char c0 in
      let p1 = pos_of_char c1 in
      let p2 = pos_of_char c2 in
      let b0 = (p0 * 4 + bit_and p1 0x30 / 16) % 256 in
      let b1 = (bit_and p1 0x0f * 16 + bit_and p2 0x3c / 4) % 256 in
      if c2 == b'='
      then some (b0 ∷ [])
      else Option.bind (read s 3) λ c3.
        if c3 == b'=' || (c3 == b'.')
        then some (b0 ∷ b1 ∷ [])
        else some (b0 ∷ b1 ∷ (bit_and p2 0x03 * 64 + pos_of_char c3) % 256 ∷ [])

-- The loop takes four bytes a round; `none` is a read behind the end of the input.
unfoldable pub base64_decode : List ℕ → Option (List ℕ)
unfolding decode_round
base64_decode [] = some []
base64_decode (a ∷ b ∷ c ∷ d ∷ rest) =
    Option.bind (decode_round (a ∷ b ∷ c ∷ d ∷ rest))
      λ bytes. Option.map (λ more. bytes ++ more) (base64_decode rest)
base64_decode s = decode_round s

-- A `char` is promoted with its sign, which the masks take off.
unfoldable pub base64_encode : List ℕ → Bool → List ℕ
unfolding char_at
base64_encode [] padding = []
base64_encode (a ∷ []) padding =
    char_at (bit_and a 0xfc / 4)
    ∷ char_at (bit_and a 0x03 * 16)
    ∷ (if padding then b'=' ∷ b'=' ∷ [] else [])
base64_encode (a ∷ b ∷ []) padding =
    char_at (bit_and a 0xfc / 4)
    ∷ char_at (bit_and a 0x03 * 16 + bit_and b 0xf0 / 16)
    ∷ char_at (bit_and b 0x0f * 4)
    ∷ (if padding then b'=' ∷ [] else [])
base64_encode (a ∷ b ∷ c ∷ rest) padding =
    char_at (bit_and a 0xfc / 4)
    ∷ char_at (bit_and a 0x03 * 16 + bit_and b 0xf0 / 16)
    ∷ char_at (bit_and b 0x0f * 4 + bit_and c 0xc0 / 64)
    ∷ char_at (bit_and c 0x3f)
    ∷ base64_encode rest padding
