-- ===== src/Sdp/Runs.antt =====
-- A description, and the theorem on its attributes at a concrete line. The regular expressions are
-- those of a toy that finds what it is asked for in every line.
use libcornrow.Base.{if◌then◌else◌, drop, codes, text_eq, ◌≡◌, refl, some, [], ◌∷◌}
use libcornrow.Rtsp.Headers.{Regex, Headers, set_header}
use libcornrow.Sdp.{Media, media_pattern, deserialize}

abbrev toy : Regex
toy = record {
  search = λ pattern s.
      if text_eq pattern media_pattern
      then some (s ∷ codes "audio" ∷ codes "0" ∷ codes "RTP/AVP" ∷ codes "96" ∷ [], [])
      else some (s ∷ codes "fmtp" ∷ drop 7 s ∷ [], []);
}

abbrev audio : Headers → Media
audio m = record {
  type_of = codes "audio";
  port = codes "0";
  proto = codes "RTP/AVP";
  fmt = codes "96";
  attributes = m;
}

reads :
    deserialize toy (codes "v=0\nm=audio 0 RTP/AVP 96\na=fmtp:96 352\n")
    ≡ audio ((codes "fmtp", codes "96 352") ∷ []) ∷ []
unfolding deserialize set_header
reads = refl

loses : deserialize toy (codes "m=audio 0 RTP/AVP 96\na=fmtp:96 a=1\n") ≡ audio [] ∷ []
unfolding deserialize set_header
loses = refl
