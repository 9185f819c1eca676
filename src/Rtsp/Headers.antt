-- ===== src/Rtsp/Headers.antt =====
-- What a parsed text consists of: std::regex as a parameter, and std::map as the list of its entries in the order of
-- the keys (src/rtsp/RtspMessage.cpp, src/sdp/Sdp.cpp).
use libcornrow.Base.{
  if◌then◌else◌, get_elem?, Text, text_eq, text_lt, ℕ, Option, none, some, List, [], ◌∷◌,
}
use mathlib.Core.Option

-- std::regex_search of a pattern in a text: the groups of the first match, the whole match at 0, and
-- what stands behind the match.
pub record Regex : Type 0 where
  pub search : Text → Text → Option (List Text × Text)

abbrev pub Headers : Type 0
Headers = List (Text × Text)

abbrev pub group : List Text → ℕ → Text
group gs i = Option.get_or (get_elem? gs i) []

unfoldable pub find : Text → Headers → Option Text
find key [] = none
find key ((k, v) ∷ m) = if text_eq k key then some v else find key m

-- `headers[key] = value`
unfoldable pub set_header : Text → Text → Headers → Headers
set_header key value [] = (key, value) ∷ []
set_header key value ((k, v) ∷ m) =
    if text_eq k key
    then (k, value) ∷ m
    else if text_lt key k
    then (key, value) ∷ (k, v) ∷ m
    else (k, v) ∷ set_header key value m
