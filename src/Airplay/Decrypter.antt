-- ===== src/Airplay/Decrypter.antt =====
-- src/airplay/AirplayDecrypter.cpp. OpenSSL is a parameter. The order in which `onProcess` evaluates
-- `data()` and `acquire()` is unspecified in C++; here `acquire()` comes first, which makes no difference where the storage does not
-- grow. No packet of 2 GB or more is modelled, so the `int` length keeps its value.
pub mod Laws
use libcornrow.Base.{
  ◌==◌, if◌then◌else◌, length, take, drop, Text, ℕ, ◌*◌, ◌/◌, Option, none, some, List, ◌++◌,
}
use libcornrow.Audio.Types.{AudioCodec, SampleRate, AudioConf, conf_of}
use libcornrow.Audio.Types.Channels.{stereo}
use libcornrow.Core.Base64.{base64_decode}
use libcornrow.Core.Buffer.{Allocator, Buffer, contents, acquire, commit, write_acquired}
use mathlib.Core.Option

-- What the code uses of OpenSSL, with the private key that is compiled in: RSA decryption, `none` if it fails (the
-- result is then resized to -1, which throws), RSA signing, the AES key of some bytes, and AES-CBC decryption with a
-- key and an initialization vector.
pub record OpenSsl (K : Type 0) : Type 0 where
  pub rsa_private_decrypt : List ℕ → Option (List ℕ)
  pub rsa_private_encrypt : List ℕ → List ℕ
  pub aes_set_decrypt_key : List ℕ → K
  pub aes_cbc_decrypt : K → List ℕ → List ℕ → List ℕ

pub record AirplayDecrypter (K : Type 0) : Type 0 where
  pub aes_key : K
  pub iv : List ℕ

module _ {K : Type 0} (ssl : OpenSsl K) where
  unfoldable pub init_key : Text → AirplayDecrypter K → Option (AirplayDecrypter K)
  unfolding base64_decode Option.bind
  init_key key s = Option.bind (base64_decode key) λ bytes.
      Option.map (λ k. record s { aes_key = ssl.aes_set_decrypt_key k })
        (ssl.rsa_private_decrypt bytes)

  unfoldable pub init_iv : Text → AirplayDecrypter K → Option (AirplayDecrypter K)
  unfolding base64_decode
  init_iv iv s = Option.map (λ bytes. record s { iv = bytes }) (base64_decode iv)

  unfoldable pub init : Text → Text → AirplayDecrypter K → Option (AirplayDecrypter K)
  unfolding init_key init_iv Option.bind
  init key iv s = Option.bind (init_key key s) (init_iv iv)

  -- `length & ~0xf`
  abbrev pub encrypted_size : ℕ → ℕ
  encrypted_size n = n / 16 * 16

  -- `none` if the initialization vector overflows the array of 16 bytes, or leaves some uninitialized.
  unfoldable pub decrypt : AirplayDecrypter K → List ℕ → Option (List ℕ)
  decrypt s bytes =
      let n = encrypted_size (length bytes) in
      if length s.iv == 16
      then some (ssl.aes_cbc_decrypt s.aes_key s.iv (take n bytes) ++ drop n bytes)
      else none

  unfoldable pub on_process : Allocator → AirplayDecrypter K → Buffer → Option (AudioConf × Buffer)
  unfolding acquire write_acquired commit decrypt Option.bind
  on_process a s b =
      let b1 = acquire a b.size b in
      Option.bind (decrypt s (contents b1)) λ out.
        Option.map (λ b2. (conf_of AudioCodec.alac SampleRate.rate44100 stereo, commit b2.size b2))
          (write_acquired out b1)
