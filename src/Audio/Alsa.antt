-- ===== src/Audio/Alsa.antt =====
-- src/audio/AlsaSink.cpp and src/audio/SpdifTypes.h, on a little-endian machine. The functions of ALSA
-- are a parameter, on the state `W` of the device.
pub mod Write
pub mod Recover
pub mod Sink
pub mod Swap
pub mod Burst
mod Runs
use libcornrow.Base.{
  ltb, ◌==◌, if◌then◌else◌, get_elem?, overwrite, Text, ℕ, zero, suc, ◌+◌, ◌-◌, ◌*◌, ◌/◌, ◌%◌, ◌^◌,
  max, bit_and, Bool, not, Option, some, List, [], ◌∷◌,
}
use libcornrow.Core.Buffer.{Allocator, Buffer, prepend, grow, clear}
use mathlib.Core.Option

-- What an ALSA function returns: a number, or a negative number, `failed e` for `-(e + 1)`.
pub data Code : Type 0 where
  done failed : ℕ → Code

pub record Alsa (W : Type 0) : Type 0 where
  pub hw_params_any : W → Code × W
  pub set_access : W → Code × W
  pub set_format : W → Code × W
  pub set_channels : ℕ → W → Code × W
  pub set_rate_near : ℕ → W → Code × ℕ × W
  pub set_period_size_near : ℕ → W → Code × ℕ × W
  pub set_buffer_size_near : ℕ → W → Code × W
  pub hw_params : W → Code × W
  pub sw_params_current : W → Code × W
  pub set_start_threshold : ℕ → W → Code × W
  pub set_avail_min : ℕ → W → Code × W
  pub sw_params : W → Code × W
  pub hw_params_current : W → Code × W
  pub get_buffer_size : W → W
  pub prepare : W → Code × W
  pub resume : W → Code × W
  pub drain : W → W
  pub close : W → W
  -- The Boolean says that the handle is not null afterwards.
  pub open_device : Text → W → Code × Bool × W
  pub writei : List ℕ → ℕ → W → Code × W
  pub recover : ℕ → W → Code × W

-- Go on unless the call failed.
unfoldable pub and_then : {W : Type 0} → Code × W → (W → Code × W) → Code × W
and_then (done n, w) next = next w
and_then (failed e, w) next = (failed e, w)

unfoldable pub and_then_near : {W : Type 0} → Code × ℕ × W → (ℕ → W → Code × W) → Code × W
and_then_near (done n, x, w) next = next x w
and_then_near (failed e, x, w) next = (failed e, w)

module _ {W : Type 0} (alsa : Alsa W) where
  -- `snd_pcm_set_params2`, with its default period size
  unfoldable pub set_params2 : ℕ → ℕ → W → Code × W
  unfolding and_then and_then_near
  set_params2 channels rate w0 = and_then (alsa.hw_params_any w0) λ w1.
      and_then (alsa.set_access w1) λ w2. and_then (alsa.set_format w2) λ w3.
        and_then (alsa.set_channels channels w3) λ w4.
          and_then_near (alsa.set_rate_near rate w4) λ rrate w5.
            if not (rrate == rate)
            then (failed (einval - 1), w5)
            else and_then_near (alsa.set_period_size_near 256 w5) λ period_size w6.
              and_then (alsa.set_buffer_size_near (max (period_size * 16) (rate / 2)) w6) λ w7.
                and_then (alsa.hw_params w7) λ w8. and_then (alsa.sw_params_current w8) λ w9.
                  and_then (alsa.set_start_threshold (max (period_size * 4) (rate / 10)) w9) λ w10.
                    and_then (alsa.set_avail_min period_size w10)
                      λ w11. and_then (alsa.sw_params w11) λ w12. (done 0, w12)
    where
      einval : ℕ
      einval = 22

abbrev pub ac3_frame_size : ℕ
ac3_frame_size = 6144

-- `SpdifAc3Header`; `none` if the sixth byte is not in the storage.
unfoldable pub spdif_ac3_header : Buffer → Option (List ℕ)
spdif_ac3_header b =
    Option.map
      (λ mode.
        0x72 ∷ 0xf8 ∷ 0x1f ∷ 0x4e ∷ 0x1 ∷ bit_and mode 0x7 ∷ bits % 256 ∷ bits / 256 % 256 ∷ [])
      (get_elem? b.buffer (b.offset + 5))
  where
    bits : ℕ
    bits = b.size * 8 % 2 ^ 32

-- The loop of `doAc3Payload`: `n` pairs of bytes are swapped from `i` on.
unfoldable pub swap_pairs : ℕ → ℕ → List ℕ → Option (List ℕ)
unfolding Option.bind
swap_pairs zero i s = some s
swap_pairs (suc n) i s =
    Option.bind (get_elem? s i)
      λ x. Option.bind (get_elem? s (i + 1)) λ y. swap_pairs n (i + 2) (overwrite i (y ∷ x ∷ []) s)

unfoldable pub do_ac3_payload : Allocator → Buffer → Option Buffer
unfolding Option.bind spdif_ac3_header prepend swap_pairs grow
do_ac3_payload a b =
    if ltb (ac3_frame_size - 8) b.size
    then some (clear b)
    else Option.bind (spdif_ac3_header b) λ h. Option.bind (prepend a h b) λ p.
      Option.map (λ s. grow ac3_frame_size (record p { buffer = s }))
        (swap_pairs ((p.size - 8 + 1) / 2) (p.offset + 8) p.buffer)
