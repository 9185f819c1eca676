-- ===== src/Airplay/Handler.antt =====
-- src/airplay/AirplayRtspMessageHandler.cpp. The handler's world is what its functions change: the decrypter, what
-- the decoder was initialized with, and whether the receiver is started; `none` after an exception, which nothing
-- catches, or a read behind the end of a text. The ports are parameters.
pub mod Laws
use libcornrow.Base.{
  ltb, ◌==◌, if◌then◌else◌, length, replicate, Text, codes, ℕ, zero, suc, ◌+◌, ◌-◌, ◌/◌, ◌%◌, ◌^◌,
  Bool, true, false, Option, none, some, List, [], ◌∷◌, ◌++◌,
}
use libcornrow.Core.Base64.{base64_decode, base64_encode}
use libcornrow.Rtsp.Headers.{Regex, find, set_header}
use libcornrow.Rtsp.Message.{
  RtspMessage, header, Handle, RtspMessageHandler, base_unknown, base_options, respond,
}
use libcornrow.Sdp.{Media}
use libcornrow.Airplay.Decrypter.{OpenSsl, AirplayDecrypter, init}
use mathlib.Core.Option

pub record Session (K : Type 0) : Type 0 where
  pub decrypter : AirplayDecrypter K
  pub fmtp : Text
  pub is_receiving : Bool

abbrev pub World : Type 0 → Type 0
World K = Option (Session K)

-- `ss << n` of a number below 2 ^ 16, on fuel for its digits
unfoldable pub decimal : ℕ → ℕ → Text
decimal zero n = []
decimal (suc fuel) n =
    let front = decimal fuel (n / 10) in
    if ltb n 10 then (b'0' + n) ∷ [] else front ++ (b'0' + n % 10) ∷ []

-- A 32-bit number in network byte order
abbrev pub big_endian : ℕ → List ℕ
big_endian n = n / 2 ^ 24 % 256 ∷ n / 2 ^ 16 % 256 ∷ n / 2 ^ 8 % 256 ∷ n % 256 ∷ []

-- What `onAppleChallenge` signs: the challenge, the address and the hardware address, with zeros up to 32 bytes
unfoldable pub challenge : List ℕ → ℕ → List ℕ
challenge bytes address =
    let signed = bytes ++ big_endian address ++ (1 ∷ 2 ∷ 3 ∷ 4 ∷ 5 ∷ 6 ∷ []) in
    signed ++ replicate (32 - length signed) 0

abbrev pub with_header : Text → Text → RtspMessage → RtspMessage
with_header key value m = record m { headers = set_header key value m.headers }

module _ {K : Type 0} (ssl : OpenSsl K) (receiver_port control_port : ℕ) where
  unfoldable pub on_apple_challenge : Handle (World K)
  unfolding base64_decode base64_encode challenge header
  on_apple_challenge request response address w =
      decoded (base64_decode (header (codes "Apple-Challenge") request))
    where
      decoded : Option (List ℕ) → RtspMessage × World K
      decoded none = (response, none)
      decoded (some bytes) = (
        with_header (codes "Apple-Response")
            (base64_encode (ssl.rsa_private_encrypt (challenge bytes address)) false) response,
        w,
      )

  unfoldable pub on_options : Handle (World K)
  unfolding on_apple_challenge base_options header
  on_options request response address w =
      let (response', w') = base_options request response address w in
      let challenged = on_apple_challenge request response' address w' in
      if length (header (codes "Apple-Challenge") request) == 0 then (response', w') else challenged

  -- What `onAnnounce` does with the first medium; `at` throws if there is no such attribute.
  unfoldable pub announce : Media → Session K → World K
  unfolding find init Option.bind
  announce m s = Option.bind (find (codes "rsaaeskey") m.attributes) λ key.
      Option.bind (find (codes "aesiv") m.attributes) λ iv.
        Option.bind (find (codes "fmtp") m.attributes) λ fmtp.
          Option.map (λ d. record s { decrypter = d; fmtp = fmtp }) (init ssl key iv s.decrypter)

  unfoldable pub on_announce : Handle (World K)
  unfolding announce Option.bind
  on_announce request response address w = (response, first request.sdp)
    where
      first : List Media → World K
      first [] = w
      first (m ∷ ms) = Option.bind w (announce m)

  unfoldable pub transport : Text
  unfolding decimal
  transport =
      codes "RTP/AVP/UDP;unicast;mode=record"
      ++ codes ";server_port="
      ++ decimal 5 receiver_port
      ++ codes ";control_port="
      ++ decimal 5 control_port

  unfoldable pub on_setup : Handle (World K)
  unfolding transport
  on_setup request response address w = (
    with_header (codes "Transport") transport response,
    Option.map (λ (s : Session K). record s { is_receiving = true }) w,
  )

  unfoldable pub on_teardown : Handle (World K)
  on_teardown request response address w =
      (response, Option.map (λ (s : Session K). record s { is_receiving = false }) w)

  -- `onRecord` only logs; the others are those of the base class.
  abbrev pub airplay_handler : RtspMessageHandler (World K)
  airplay_handler = record {
    on_options = on_options;
    on_describe = base_unknown;
    on_setup = on_setup;
    on_play = base_unknown;
    on_pause = base_unknown;
    on_record = base_unknown;
    on_announce = on_announce;
    on_teardown = on_teardown;
    on_get_parameter = base_unknown;
    on_set_parameter = base_unknown;
    on_flush = base_unknown;
    on_unknown = base_unknown;
  }

  -- What the server sends for the bytes of a client, and the session afterwards: nothing is sent after an exception.
  unfoldable pub airplay_respond : Regex → ℕ → Text → Session K → Option (Text × Session K)
  unfolding respond
  airplay_respond rx address bytes s =
      let (answer, w) = respond rx airplay_handler address bytes (some s) in
      Option.map (λ after. (answer, after)) w
