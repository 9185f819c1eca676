-- ===== src/Audio/Converter.antt =====
-- src/audio/AudioConverter.cpp: `AudioConverter<int16_t, float>` and `AudioConverter<float, int16_t>`. What the
-- machine does with floats is a parameter. `from` and `to` are offsets into the storage.
pub mod Laws
mod Runs
use libcornrow.Base.{
  leb, if◌then◌else◌, length, slice, memcpy, mul_size, ℕ, zero, suc, ◌+◌, ◌-◌, ◌*◌, ◌/◌, ◌%◌, ◌^◌,
  Bool, Option, none, some, List, [], ◌∷◌,
}
use libcornrow.Audio.Types.{AudioCodec, codec_size, AudioConf}
use libcornrow.Core.Buffer.{Allocator, Buffer, acquire, commit}
use mathlib.Core.Option

-- The bytes of a float in memory (`decode`, `encode`); `tmp / 32767.0` of a 16-bit pattern `tmp`, as a float; the
-- comparisons with 1.0f and -1.0f; and the 16-bit pattern of `(int16_t)(f * 32767.0f)`.
pub record FloatCode (F : Type 0) : Type 0 where
  pub decode : List ℕ → F
  pub encode : F → List ℕ
  pub from_int16 : ℕ → F
  pub at_least_one : F → Bool
  pub below_minus_one : F → Bool
  pub scaled_int16 : F → ℕ

-- A 16-bit pattern in memory, low byte first
abbrev pub int16_bytes : ℕ → List ℕ
int16_bytes n = n % 256 ∷ n / 256 % 256 ∷ []

abbrev pub int16_of : List ℕ → ℕ
int16_of (a ∷ b ∷ rest) = a + 256 * b
int16_of _ = 0

-- The loop, which both conversions share: `n` samples of `step` bytes become samples of `out_step` bytes. `none` if a
-- copy leaves the storage.
unfoldable pub convert_loop : (List ℕ → List ℕ) → ℕ → ℕ → ℕ → ℕ → ℕ → List ℕ → Option (List ℕ)
unfolding Option.bind
convert_loop f step out_step zero from to s = some s
convert_loop f step out_step (suc n) from to s =
    Option.bind (if leb (from + step) (length s) then memcpy to (f (slice from step s)) s else none)
      λ s'. convert_loop f step out_step n (from + step) (to + out_step) s'

module _ {F : Type 0} (fc : FloatCode F) where
  unfoldable pub to_float : List ℕ → List ℕ
  to_float bytes = fc.encode (fc.from_int16 (int16_of bytes))

  unfoldable pub clamp_int16 : F → ℕ
  clamp_int16 f =
      if fc.at_least_one f
      then 32767
      else if fc.below_minus_one f
      then 2 ^ 16 - 32768
      else fc.scaled_int16 f

  unfoldable pub to_int16 : List ℕ → List ℕ
  unfolding clamp_int16
  to_int16 bytes = int16_bytes (clamp_int16 (fc.decode bytes))

  unfoldable pub int16_to_float : Allocator → AudioConf → Buffer → Option (AudioConf × Buffer)
  unfolding acquire commit convert_loop to_float codec_size
  int16_to_float a conf b =
      let b1 = acquire a (mul_size b.size 2) b in
      Option.map
        (λ s. (
          record conf { codec = AudioCodec.raw_float32 },
          commit (mul_size b1.size 2) (record b1 { buffer = s }),
        ))
        (convert_loop to_float 2 4 (b1.size / codec_size conf.codec) b1.offset b1.acquired_offset
          b1.buffer)

  unfoldable pub float_to_int16 : Allocator → AudioConf → Buffer → Option (AudioConf × Buffer)
  unfolding acquire commit convert_loop to_int16 codec_size
  float_to_int16 a conf b =
      let b1 = acquire a (b.size / 2) b in
      Option.map
        (λ s. (
          record conf { codec = AudioCodec.raw_int16 },
          commit (b1.size / 2) (record b1 { buffer = s }),
        ))
        (convert_loop to_int16 4 2 (b1.size / codec_size conf.codec) b1.offset b1.acquired_offset
          b1.buffer)
