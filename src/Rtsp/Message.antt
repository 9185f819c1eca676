-- ===== src/Rtsp/Message.antt =====
-- src/rtsp/RtspMessage.cpp and src/rtsp/RtspMessageHandler.cpp. The SDP part of a message is read by
-- Sdp.antt.
pub mod Laws
mod Runs
use libcornrow.Base.{
  ◌==◌, if◌then◌else◌, length, Text, codes, text_eq, ℕ, zero, suc, Option, none, some, List, [],
  ◌∷◌, ◌++◌,
}
use libcornrow.Rtsp.Headers.{Regex, Headers, group, find, set_header}
use libcornrow.Sdp.{Media, deserialize}
use mathlib.Core.Option

pub record RtspMessage : Type 0 where
  pub method : Text
  pub headers : Headers
  pub body : Text
  pub sdp : List Media

-- `header(key) const`
unfoldable pub header : Text → RtspMessage → Text
unfolding find
header key m = Option.get_or (find key m.headers) []

-- `headers[key]` reads as the empty text a key that is not there, and adds it.
unfoldable pub header_ref : Text → RtspMessage → Text × RtspMessage
unfolding find
header_ref key m = found (find key m.headers)
  where
    found : Option Text → Text × RtspMessage
    found (some v) = (v, m)
    found none = ([], record m { headers = set_header key [] m.headers })

unfoldable pub create_response : Text → RtspMessage
create_response c_seq = record {
  method = [];
  headers = set_header (codes "CSeq") c_seq [];
  body = [];
  sdp = [];
}

abbrev pub line : Text × Text → Text
line (k, v) = codes "\r\n" ++ k ++ codes ": " ++ v

unfoldable pub lines : Headers → Text
lines [] = []
lines (h ∷ m) = line h ++ lines m

unfoldable pub serialize : RtspMessage → Text
serialize m = codes "RTSP/1.0 200 OK" ++ lines m.headers ++ codes "\r\n\r\n"

abbrev pub request_pattern : Text
request_pattern = codes "(\\w+) (\\S+) (\\S+)"

abbrev pub header_pattern : Text
header_pattern = codes "(?:\\r\\n(\\S+)\\: ([\\S ]+))"

unfoldable pub matched : Option (List Text × Text) → Headers → (Text → Headers → Headers) → Headers
matched none m next = m
matched (some (gs, rest)) m next =
    if length gs == 3 then next rest (set_header (group gs 1) (group gs 2) m) else m

-- The loop of `parse`, on fuel.
unfoldable pub parse_headers : Regex → ℕ → Text → Headers → Headers
unfolding matched
parse_headers rx zero s m = m
parse_headers rx (suc fuel) s m =
    matched (rx.search header_pattern s) m (λ rest m'. parse_headers rx fuel rest m')

unfoldable pub parse : Regex → Text → RtspMessage
parse rx s = record {
  method = found (rx.search request_pattern s);
  headers = parse_headers rx (suc (length s)) s [];
  body = [];
  sdp = [];
}
  where
    found : Option (List Text × Text) → Text
    found none = []
    found (some (gs, rest)) = if length gs == 4 then group gs 1 else []

-- `deserializeRequest`
unfoldable pub deserialize_request : Regex → Text → RtspMessage
unfolding parse deserialize
deserialize_request rx s = record (parse rx s) { sdp = deserialize rx s }

-- A handler's virtual functions: request, response and address to the new response, with the state
-- `W` that they change.
abbrev pub Handle : Type 0 → Type 0
Handle W = RtspMessage → RtspMessage → ℕ → W → RtspMessage × W

pub record RtspMessageHandler (W : Type 0) : Type 0 where
  pub on_options : Handle W
  pub on_describe : Handle W
  pub on_setup : Handle W
  pub on_play : Handle W
  pub on_pause : Handle W
  pub on_record : Handle W
  pub on_announce : Handle W
  pub on_teardown : Handle W
  pub on_get_parameter : Handle W
  pub on_set_parameter : Handle W
  pub on_flush : Handle W
  pub on_unknown : Handle W

abbrev pub public_methods : Text
public_methods =
    codes
      "OPTIONS, DESCRIBE, SETUP, PLAY, PAUSE, RECORD, ANNOUNCE, TEARDOWN, GET_PARAMETER, SET_PARAMETER, FLUSH"

module _ {W : Type 0} where
  abbrev pub method_map : RtspMessageHandler W → List (Text × Handle W)
  method_map h =
      (codes "OPTIONS", h.on_options)
      ∷ (codes "DESCRIBE", h.on_describe)
      ∷ (codes "SETUP", h.on_setup)
      ∷ (codes "PLAY", h.on_play)
      ∷ (codes "PAUSE", h.on_pause)
      ∷ (codes "RECORD", h.on_record)
      ∷ (codes "ANNOUNCE", h.on_announce)
      ∷ (codes "TEARDOWN", h.on_teardown)
      ∷ (codes "GET_PARAMETER", h.on_get_parameter)
      ∷ (codes "SET_PARAMETER", h.on_set_parameter)
      ∷ (codes "FLUSH", h.on_flush)
      ∷ []

  unfoldable pub select : Text → Handle W → List (Text × Handle W) → Handle W
  select method otherwise [] = otherwise
  select method otherwise ((k, f) ∷ m) = if text_eq k method then f else select method otherwise m

  unfoldable pub on_message : RtspMessageHandler W → Handle W
  on_message h request = select request.method h.on_unknown (method_map h) request

  -- The functions of the base class: `onUnknown` changes nothing, and all but `onOptions` call it.
  abbrev pub base_unknown : Handle W
  base_unknown request response address w = (response, w)

  unfoldable pub base_options : Handle W
  base_options request response address w =
      (record response { headers = set_header (codes "Public") public_methods response.headers }, w)

  abbrev pub base_handler : RtspMessageHandler W
  base_handler = record {
    on_options = base_options;
    on_describe = base_unknown;
    on_setup = base_unknown;
    on_play = base_unknown;
    on_pause = base_unknown;
    on_record = base_unknown;
    on_announce = base_unknown;
    on_teardown = base_unknown;
    on_get_parameter = base_unknown;
    on_set_parameter = base_unknown;
    on_flush = base_unknown;
    on_unknown = base_unknown;
  }

  -- What `RtspServerPrivate::onReceived` makes of the bytes that it gets.
  unfoldable pub respond : Regex → RtspMessageHandler W → ℕ → Text → W → Text × W
  respond rx h address bytes w =
      let (c_seq, request) = header_ref (codes "CSeq") (deserialize_request rx bytes) in
      let (response, w') = on_message h request (create_response c_seq) address w in
      (serialize response, w')
