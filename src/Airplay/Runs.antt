-- ===== src/Airplay/Runs.antt =====
-- The theorems on Airplay with toy cryptography, which changes nothing.
use libcornrow.Base.{
  length, take, drop, replicate, codes, text_eq, ℕ, ◌<◌, ◌≡◌, refl, ◌⊎◌, inl, inr, true, none, some,
  List, [], ◌∷◌, arith,
}
use libcornrow.Audio.Types.{AudioCodec, SampleRate, conf_of}
use libcornrow.Audio.Types.Channels.{stereo}
use libcornrow.Core.Buffer.{Allocator, Buffer, blank, contents}
use libcornrow.Core.Buffer.Bounds.{IsSound}
use libcornrow.Rtsp.Headers.{Regex, Headers, find}
use libcornrow.Rtsp.Message.{RtspMessage, header, header_ref, deserialize_request}
use libcornrow.Sdp.{Media}
use libcornrow.Airplay.Decrypter.{OpenSsl, AirplayDecrypter, on_process}
use libcornrow.Airplay.Decrypter.Laws.{on_process-decrypted}
use libcornrow.Airplay.Handler.{
  Session, decimal, challenge, on_announce, transport, airplay_respond,
}
use libcornrow.Airplay.Handler.Laws.{
  challenge_padded, Answered, airplay_respond_c_seq, on_announce_incomplete,
}

abbrev plain : OpenSsl (List ℕ)
plain = record {
  rsa_private_decrypt = λ bytes. some bytes;
  rsa_private_encrypt = λ bytes. bytes;
  aes_set_decrypt_key = λ bytes. bytes;
  aes_cbc_decrypt = λ k iv bytes. bytes;
}

abbrev exact : Allocator
exact = record { growth = λ c n. n; growth_enough = λ c n. omega arith }

abbrev packet : Buffer
packet = record blank { buffer = replicate 64 7; reserved = 16; size = 20 }

packet-IsSound : IsSound packet
packet-IsSound = record {
  whole = refl;
  inside = omega arith;
  small = omega arith;
  backed = omega arith;
}

abbrev ready : AirplayDecrypter (List ℕ)
ready = record { aes_key = []; iv = replicate 16 0 }

on_process-decrypted_example :
    (c : Buffer) × (on_process plain exact ready packet
      ≡ some (conf_of AudioCodec.alac SampleRate.rate44100 stereo, c))
    × (contents c ≡ replicate 20 7)
    × (length c.buffer ≡ 64)
    × IsSound c
on_process-decrypted_example =
    on_process-decrypted plain exact ready (λ k iv bytes. refl) refl packet-IsSound (omega arith)
      refl (inr (omega arith), omega arith)

challenge_padded_run :
    (take 2 (challenge (9 ∷ 8 ∷ []) 0x01020304) ≡ 9 ∷ 8 ∷ [])
    × (take 10 (drop 2 (challenge (9 ∷ 8 ∷ []) 0x01020304))
        ≡ 1 ∷ 2 ∷ 3 ∷ 4 ∷ 1 ∷ 2 ∷ 3 ∷ 4 ∷ 5 ∷ 6 ∷ [])
    × (length (challenge (9 ∷ 8 ∷ []) 0x01020304) ≡ 32)
challenge_padded_run = challenge_padded (9 ∷ 8 ∷ []) 0x01020304

abbrev no_regex : Regex
no_regex = record { search = λ p s. none }

abbrev idle : Session (List ℕ)
idle = record { decrypter = ready; fmtp = []; is_receiving = true }

airplay_respond_c_seq_example :
    Answered plain 6000 6001 no_regex 1 (codes "xy") idle
    ⊎ ((airplay_respond plain 6000 6001 no_regex 1 (codes "xy") idle ≡ none)
        × ((text_eq
                (codes "ANNOUNCE")
                (header_ref (codes "CSeq") (deserialize_request no_regex (codes "xy"))).1.method
              ≡ true)
            ⊎ (0
                < length (
                    header
                      (codes "Apple-Challenge")
                      (header_ref (codes "CSeq") (deserialize_request no_regex (codes "xy"))).1))))
airplay_respond_c_seq_example = airplay_respond_c_seq plain 6000 6001 no_regex 1 (codes "xy") idle

abbrev described : Headers → Media
described h = record {
  type_of = codes "audio";
  port = codes "0";
  proto = codes "RTP/AVP";
  fmt = codes "96";
  attributes = h;
}

abbrev all_three : Headers
all_three =
    (codes "aesiv", codes "AAEC")
    ∷ (codes "fmtp", codes "96")
    ∷ (codes "rsaaeskey", codes "AAAA")
    ∷ []

abbrev announcing : Headers → RtspMessage
announcing h = record { method = codes "ANNOUNCE"; headers = []; body = []; sdp = described h ∷ [] }

setup_transport :
    transport plain 6000 6001
    ≡ codes "RTP/AVP/UDP;unicast;mode=record;server_port=6000;control_port=6001"
unfolding transport decimal
setup_transport = refl

on_announce_incomplete_run :
    (on_announce plain 6000 6001 (announcing []) (announcing []) 1 (some idle)).1 ≡ none
on_announce_incomplete_run =
    on_announce_incomplete plain 6000 6001 (announcing []) (announcing []) 1 (described []) []
      (some idle) refl (inl (unfold find in refl))
