-- ===== src/Sdp.antt =====
-- src/sdp/Sdp.cpp and Sdp.h. std::regex is the parameter that RtspMessage has too.
pub mod Lines
mod Runs
use libcornrow.Base.{
  ◌==◌, if◌then◌else◌, length, Text, codes, starts_with, ℕ, zero, suc, Bool, true, false, Option,
  none, some, List, [], ◌∷◌, ◌++◌,
}
use libcornrow.Rtsp.Headers.{Regex, Headers, group, set_header}

pub record Media : Type 0 where
  pub type_of : Text
  pub port : Text
  pub proto : Text
  pub fmt : Text
  pub attributes : Headers

-- `std::getline`, for all lines
unfoldable pub first_byte : ℕ → List Text → List Text
first_byte c [] = (c ∷ []) ∷ []
first_byte c (l ∷ ls) = (c ∷ l) ∷ ls

unfoldable pub lines : Text → List Text
unfolding first_byte
lines [] = []
lines (c ∷ s) = if c == b'\n' then [] ∷ lines s else first_byte c (lines s)

-- `s.rfind(pattern)`: the last place at which the pattern stands
unfoldable pub rfind : Text → Text → Option ℕ
rfind pattern [] = if starts_with pattern [] then some 0 else none
rfind pattern (c ∷ s) = elim (rfind pattern s) [
  | some i ↦ some (suc i)
  | none ↦ if starts_with pattern (c ∷ s) then some 0 else none
]

-- `!s.rfind(pattern)`
unfoldable pub is_zero : Option ℕ → Bool
is_zero (some zero) = true
is_zero (some (suc i)) = false
is_zero none = false

abbrev pub media_pattern : Text
media_pattern = codes "m=(\\S+) (\\S+) (\\S+) (\\S+)"

abbrev pub attribute_pattern : Text
attribute_pattern = codes "a=(\\S+):([ \\S]+)"

unfoldable pub new_media : Option (List Text × Text) → Option Media
new_media none = none
new_media (some (gs, rest)) =
    if length gs == 5
    then some (record {
      type_of = group gs 1;
      port = group gs 2;
      proto = group gs 3;
      fmt = group gs 4;
      attributes = [];
    })
    else none

unfoldable pub add_attribute : Option (List Text × Text) → Media → Media
add_attribute none m = m
add_attribute (some (gs, rest)) m =
    if length gs == 3
    then record m { attributes = set_header (group gs 1) (group gs 2) m.attributes }
    else m

unfoldable pub with_attribute : Regex → Text → Option Media → Option Media
unfolding rfind is_zero add_attribute
with_attribute rx l none = none
with_attribute rx l (some m) =
    if is_zero (rfind (codes "a=") l)
    then some (add_attribute (rx.search attribute_pattern l) m)
    else some m

-- `if (media) sdp.media.push_back(*media)`
unfoldable pub push_media : Option Media → List Media → List Media
push_media none ms = ms
push_media (some m) ms = ms ++ m ∷ []

-- The loop, with the medium that is being read and those that are done.
unfoldable pub read_lines : Regex → List Text → Option Media → List Media → List Media
unfolding new_media with_attribute push_media
read_lines rx [] media done = push_media media done
read_lines rx (l ∷ ls) media done =
    let medium = read_lines rx ls (new_media (rx.search media_pattern l)) (push_media media done) in
    let other = read_lines rx ls (with_attribute rx l media) done in
    if starts_with (codes "m=") l then medium else other

unfoldable pub deserialize : Regex → Text → List Media
unfolding lines read_lines
deserialize rx s = read_lines rx (lines s) none []
