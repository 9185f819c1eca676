-- ===== src/Airplay/Decrypter/Laws.antt =====
-- What the decrypter makes of a packet.
use libcornrow.Base.{
  leb, le→leb, Bool-cases, length, take, drop, length-append, length-take, length-drop, slice,
  overwrite, length-overwrite, slice-overwrite, ℕ, ◌+◌, ◌*◌, ◌/◌, ◌^◌, ◌≤◌, ◌<◌, ◌≡◌, refl, sym, ap,
  ◌∙◌, ◌⊎◌, inl, inr, some, List, ◌++◌, arith,
}
use libcornrow.Audio.Types.{AudioCodec, SampleRate, conf_of}
use libcornrow.Audio.Types.Channels.{stereo}
use libcornrow.Core.Buffer.{
  Allocator, Buffer, contents, size_at_back, acquire, commit, write_acquired,
}
use libcornrow.Core.Buffer.Bounds.{IsSound, HasSlack, IsAligned, Acquired, acquire-Acquired}
use libcornrow.Core.Buffer.Contents.{length-contents}
use libcornrow.Airplay.Decrypter.{OpenSsl, AirplayDecrypter, decrypt, on_process}
use mathlib.Core.Option

-- AES-CBC decryption keeps the number of bytes.
abbrev pub KeepsLength : {K : Type 0} → OpenSsl K → Type 0
KeepsLength {K} ssl =
    (k : K) (iv bytes : List ℕ) → length (ssl.aes_cbc_decrypt k iv bytes) ≡ length bytes

module _ {K : Type 0} (ssl : OpenSsl K) where
  -- The same with where the result stands: in the region that `acquire` returns
  pub on_process-region :
      (a : Allocator) (s : AirplayDecrypter K) {b : Buffer}
      → KeepsLength ssl
      → length s.iv ≡ 16
      → IsSound b
      → HasSlack b
      → IsAligned b
      → b.offset + b.size + b.size < 2 ^ 61
      → (c : Buffer) × (on_process ssl a s b
          ≡ some (conf_of AudioCodec.alac SampleRate.rate44100 stereo, c))
        × (contents c
            ≡ ssl.aes_cbc_decrypt s.aes_key s.iv (take (b.size / 16 * 16) (contents b))
              ++ drop (b.size / 16 * 16) (contents b))
        × IsSound c
        × (c.offset ≡ (acquire a b.size b).acquired_offset)
        × (c.size ≡ b.size)
        × (length c.buffer ≡ length (acquire a b.size b).buffer)
  unfolding on_process decrypt write_acquired commit Option.bind
  on_process-region a s {b} keeps sixteen v slack al small =
      let keep = length-overwrite b1.acquired_offset out b1.buffer in
      let sound = acq.sound in
      let room = acq.room in
      (
        record b1 {
          buffer = overwrite b1.acquired_offset out b1.buffer;
          offset = b1.acquired_offset;
          size = b.size;
        },
        rw
            (
              acq.kept,
              sixteen,
              size,
              le→leb (b1.acquired_offset + length out) (length b1.buffer)
                  (omega (arith, room, whole)),
              acq.size_kept,
            )
            refl,
        ap (λ x. slice b1.acquired_offset x (overwrite b1.acquired_offset out b1.buffer))
              (sym whole)
            ∙ slice-overwrite b1.acquired_offset out b1.buffer (omega (arith, room, whole)),
        record {
          whole = omega (arith, sound, keep);
          inside = omega (arith, sound, keep, room);
          small = omega (arith, sound, keep);
          backed = omega (arith, sound, keep);
        },
        refl,
        refl,
        keep,
      )
    where
      n : ℕ
      n = b.size / 16 * 16

      out : List ℕ
      out = ssl.aes_cbc_decrypt s.aes_key s.iv (take n (contents b)) ++ drop n (contents b)

      b1 : Buffer
      b1 = acquire a b.size b

      acq : Acquired b.size b b1
      acq = acquire-Acquired a b.size v slack al small

      size : length (contents b) ≡ b.size
      size = length-contents v

      whole : length out ≡ b.size
      whole = omega (
        arith,
        length-append (ssl.aes_cbc_decrypt s.aes_key s.iv (take n (contents b)))
            (drop n (contents b)),
        keeps s.aes_key s.iv (take n (contents b)),
        length-take n (contents b),
        length-drop n (contents b),
        size,
      )

  -- The storage, of sizes that are an `int`, holds the result without being resized.
  abbrev pub HasRoom : Buffer → Type 0
  HasRoom b =
      ((b.size ≤ b.offset) ⊎ (b.offset + b.size + b.size + 3 ≤ length b.buffer))
      × (length b.buffer < 2 ^ 31)

  acquire-fixed :
      (a : Allocator) {b : Buffer} → IsSound b → HasRoom b → (acquire a b.size b).buffer ≡ b.buffer
  unfolding acquire
  acquire-fixed a {b} v (inl front, small) = rw (le→leb b.size b.offset front) refl
  acquire-fixed a {b} v (inr back, small) = elim (Bool-cases (leb b.size b.offset)) [
    | inl front ↦ rw front refl
    | inr behind ↦ rw (behind, le→leb b.size (size_at_back b) (omega arith)) refl
  ]

  -- With an initialization vector of 16 bytes, where decryption keeps the number of bytes: in a sound buffer, with a
  -- storage of fewer than 2 ^ 31 bytes, whose data ends at a multiple of 4, with three spare bytes behind it, and with room for the
  -- result in front of the data, or behind it with three bytes more, the whole blocks of 16 bytes are decrypted and the
  -- bytes that are left are kept; the result is in a sound buffer, the storage keeps its size, and no write leaves it.
  pub on_process-decrypted :
      (a : Allocator) (s : AirplayDecrypter K) {b : Buffer}
      → KeepsLength ssl
      → length s.iv ≡ 16
      → IsSound b
      → HasSlack b
      → IsAligned b
      → HasRoom b
      → (c : Buffer) × (on_process ssl a s b
          ≡ some (conf_of AudioCodec.alac SampleRate.rate44100 stereo, c))
        × (contents c
            ≡ ssl.aes_cbc_decrypt s.aes_key s.iv (take (b.size / 16 * 16) (contents b))
              ++ drop (b.size / 16 * 16) (contents b))
        × (length c.buffer ≡ length b.buffer)
        × IsSound c
  on_process-decrypted a s {b} keeps sixteen v slack al (room, small) =
      let (c, e, whole, w, place, size, long) =
        on_process-region a s keeps sixteen v slack al (omega arith) in
      (c, e, whole, long ∙ ap length (acquire-fixed a v (room, small)), w)
