-- ===== src/Rtsp/Message/Runs.antt =====
-- Messages, and the theorems on them at concrete inputs. The regular expressions are those of a toy
-- that knows one request and splits off one header.
use libcornrow.Rtsp.Headers.{Regex, find, set_header}
use libcornrow.Base.{
  if◌then◌else◌, length, Text, codes, text_eq, ◌≡◌, refl, ap, Option, none, some, List, [], ◌∷◌,
  arith,
}
use libcornrow.Rtsp.Message.{
  header_ref, create_response, lines, serialize, request_pattern, parse_headers, parse,
  deserialize_request, select, on_message, base_options, base_handler, respond,
}
use libcornrow.Rtsp.Message.Laws.{Shrinks, Collects, parse-Collects}

-- The request line is always that of OPTIONS; the header `CSeq: 7` is found in a text of two bytes
-- or more, and takes them off.
abbrev toy_search : Text → Text → Option (List Text × Text)
toy_search pattern [] = none
toy_search pattern (a ∷ []) = none
toy_search pattern (a ∷ b ∷ rest) =
    if text_eq pattern request_pattern
    then some ((a ∷ b ∷ []) ∷ codes "OPTIONS" ∷ codes "*" ∷ codes "RTSP/1.0" ∷ [], rest)
    else some ((a ∷ b ∷ []) ∷ codes "CSeq" ∷ codes "7" ∷ [], rest)

abbrev toy : Regex
toy = record { search = toy_search }

toy-Shrinks : Shrinks toy
toy-Shrinks [] gs rest h = cc
toy-Shrinks (a ∷ []) gs rest h = cc
toy-Shrinks (a ∷ b ∷ s) gs rest h = let e : s ≡ rest = cc h in omega (arith, ap (λ xs. length xs) e)

answer_options :
    (respond toy (base_handler {W = Unit}) 0 (codes "xy") tt).0
    ≡ codes
        "RTSP/1.0 200 OK\r\nCSeq: 7\r\nPublic: OPTIONS, DESCRIBE, SETUP, PLAY, PAUSE, RECORD, ANNOUNCE, TEARDOWN, GET_PARAMETER, SET_PARAMETER, FLUSH\r\n\r\n"
unfolding respond deserialize_request parse parse_headers header_ref on_message select base_options
    create_response set_header serialize lines find
answer_options = refl

parse-Collects_example : Collects toy (codes "xyz") [] (parse toy (codes "xyz")).headers
parse-Collects_example = parse-Collects toy (codes "xyz") toy-Shrinks
