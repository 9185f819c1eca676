-- ===== src/Rtsp/Message/Laws.antt =====
-- Headers, the loop of the parser, and the sequence number of a response.
use libcornrow.Rtsp.Headers.{Regex, Headers, group, find, set_header}
use libcornrow.Base.{
  ◌==◌, if◌then◌else◌, Bool-cases, Option-cases, length, All, Text, codes, text_eq, text_lt,
  text_eq_refl, text_eq→≡, ℕ, zero, suc, ◌<◌, ◌≡◌, refl, ap, ap₂, ◌∙◌, inl, inr, Bool, true, false,
  ◌&&◌, none, some, List, [], ◌∷◌, arith,
}
use libcornrow.Rtsp.Message.{
  RtspMessage, header, header_ref, create_response, serialize, header_pattern, matched,
  parse_headers, parse, deserialize_request, Handle, RtspMessageHandler, public_methods, method_map,
  select, on_message, base_unknown, base_options, respond,
}

same_choice :
    {A : Type 0} (p q : Bool) (x y z : A)
    → p ≡ q
    → (if p then x else z) ≡ (if q then x else if p then y else z)
same_choice true true x y z e = refl
same_choice true false x y z e = cc
same_choice false true x y z e = cc
same_choice false false x y z e = refl

swap_choice :
    {A : Type 0} (p q : Bool) (x y z : A)
    → p && q ≡ false
    → (if p then y else if q then x else z) ≡ (if q then x else if p then y else z)
swap_choice true true x y z e = cc
swap_choice true false x y z e = refl
swap_choice false q x y z e = refl

text_eq-apart : (a b k : Text) → text_eq a b ≡ false → text_eq a k && text_eq b k ≡ false
text_eq-apart a b k differ = elim (Bool-cases (text_eq a k)) [
  | inl ak ↦ elim (Bool-cases (text_eq b k)) [
    | inl bk ↦
        let e : text_eq a b ≡ true =
          ap₂ text_eq (text_eq→≡ a k ak) (text_eq→≡ b k bk) ∙ text_eq_refl k in
        cc (e, differ)
    | inr no_bk ↦ ground (arith, no_bk)
  ]
  | inr no_ak ↦ ground (arith, no_ak)
]

-- After a key of the headers is set, that key has the new value, and all others keep theirs.
pub find-set_header :
    (k key value : Text) (m : Headers)
    → find k (set_header key value m) ≡ (if text_eq key k then some value else find k m)
unfolding find set_header
find-set_header k key value [] = refl
find-set_header k key value ((k', v) ∷ m) = elim (Bool-cases (text_eq k' key)) [
  | inl same ↦ rw same (
      same_choice (text_eq k' k) (text_eq key k) (some value) (some v) (find k m)
        (ap (λ x. text_eq x k) (text_eq→≡ k' key same)))
  | inr differ ↦ elim (Bool-cases (text_lt key k')) [
    | inl before ↦ rw (differ, before) refl
    | inr after ↦
        rw (differ, after, find-set_header k key value m)
          (swap_choice (text_eq k' k) (text_eq key k) (some value) (some v) (find k m)
            (text_eq-apart k' key k differ))
  ]
]

-- Every match of the header pattern takes something off the text.
abbrev pub Shrinks : Regex → Type 0
Shrinks rx =
    (s : Text) (gs : List Text) (rest : Text)
    → rx.search header_pattern s ≡ some (gs, rest)
    → length rest < length s

-- A run of the loop of `parse`, which is finite: it ends without a match, or with one that has not three groups, and
-- takes the header and goes on behind the match otherwise.
pub data Collects (rx : Regex) : Text → Headers → Headers → Type 0 where
  no_match : {s : Text} {m : Headers} → rx.search header_pattern s ≡ none → Collects rx s m m
  odd :
      {s rest : Text} {gs : List Text} {m : Headers}
      → rx.search header_pattern s ≡ some (gs, rest)
      → length gs == 3 ≡ false
      → Collects rx s m m
  took :
      {s rest : Text} {gs : List Text} {m m' : Headers}
      → rx.search header_pattern s ≡ some (gs, rest)
      → length gs == 3 ≡ true
      → Collects rx rest (set_header (group gs 1) (group gs 2) m) m'
      → Collects rx s m m'

parse_headers-Collects :
    (rx : Regex) (fuel : ℕ) (s : Text) (m : Headers)
    → Shrinks rx
    → length s < fuel
    → Collects rx s m (parse_headers rx fuel s m)
unfolding parse_headers matched
parse_headers-Collects rx zero s m shrinks h = absurd (omega arith)
parse_headers-Collects rx (suc fuel) s m shrinks h =
    elim (Option-cases (rx.search header_pattern s)) [
      | inl none_left ↦ rw none_left (no_match none_left)
      | inr ((gs, rest), hit) ↦ elim (Bool-cases (length gs == 3)) [
        | inl three ↦
            let less = shrinks s gs rest hit in
            rw (hit, three)
              (took hit three (parse_headers-Collects rx fuel rest _ shrinks (omega arith)))
        | inr other ↦ rw (hit, other) (odd hit other)
      ]
    ]

-- Where every match of the header pattern takes something off the text, the loop of the parser ends, and `parse` has the
-- headers that the loop has collected then.
pub parse-Collects : (rx : Regex) (s : Text) → Shrinks rx → Collects rx s [] (parse rx s).headers
unfolding parse
parse-Collects rx s shrinks = parse_headers-Collects rx (suc (length s)) s [] shrinks (omega arith)

header_ref_lem : (key : Text) (m : RtspMessage) → (header_ref key m).0 ≡ header key m
unfolding header_ref header
header_ref_lem key m = elim (Option-cases (find key m.headers)) [
  | inl missed ↦ rw (missed, header_ref)
  | inr (v, hit) ↦ rw (hit, header_ref)
]

module _ {W : Type 0} where
  -- A function of a handler that leaves the sequence number of the response alone.
  abbrev pub KeepsCSeq : Handle W → Type 0
  KeepsCSeq f =
      (request response : RtspMessage) (address : ℕ) (w : W)
      → find (codes "CSeq") (f request response address w).0.headers
        ≡ find (codes "CSeq") response.headers

  pub base_unknown-KeepsCSeq : KeepsCSeq base_unknown
  base_unknown-KeepsCSeq request response address w = refl

  pub base_options-KeepsCSeq : KeepsCSeq base_options
  unfolding base_options
  base_options-KeepsCSeq request response address w =
      find-set_header (codes "CSeq") (codes "Public") public_methods response.headers

  select-KeepsCSeq :
      (method : Text) (otherwise : Handle W) (m : List (Text × Handle W))
      → KeepsCSeq otherwise
      → All (λ e. KeepsCSeq e.1) m
      → KeepsCSeq (select method otherwise m)
  unfolding select
  select-KeepsCSeq method otherwise [] k ks = k
  select-KeepsCSeq method otherwise ((name, f) ∷ m) k ks = elim (Bool-cases (text_eq name method)) [
    | inl hit ↦ rw hit ks.0
    | inr miss ↦ rw miss (select-KeepsCSeq method otherwise m k ks.1)
  ]

  -- Whatever bytes come in, a handler whose functions leave the response's CSeq alone answers with the
  -- CSeq of the request, which is empty if the request has none.
  pub respond_c_seq :
      (rx : Regex) (h : RtspMessageHandler W) (address : ℕ) (bytes : Text) (w : W)
      → KeepsCSeq h.on_unknown
      → All (λ e. KeepsCSeq e.1) (method_map h)
      → (response : RtspMessage) × ((respond rx h address bytes w).0 ≡ serialize response)
        × (find (codes "CSeq") response.headers
            ≡ some (header (codes "CSeq") (deserialize_request rx bytes)))
  unfolding respond on_message create_response
  respond_c_seq rx h address bytes w k ks =
      let request = header_ref (codes "CSeq") (deserialize_request rx bytes) in
      (
        (on_message h request.1 (create_response request.0) address w).0,
        refl,
        select-KeepsCSeq request.1.method h.on_unknown (method_map h) k ks request.1
              (create_response request.0) address w
            ∙ unfold find set_header in
              ap some (header_ref_lem (codes "CSeq") (deserialize_request rx bytes)),
      )
