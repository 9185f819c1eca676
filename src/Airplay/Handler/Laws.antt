-- ===== src/Airplay/Handler/Laws.antt =====
-- The answers of the handler, and what an ANNOUNCE leaves.
use libcornrow.Base.{
  ◌==◌, Bool-cases, Option-cases, length, take, drop, replicate, All, length-append,
  length-replicate, take-append, drop-append, Text, codes, text_eq, ℕ, ◌+◌, ◌-◌, ◌<◌, max, ◌≡◌,
  refl, sym, ap, ◌∙◌, ◌⊎◌, inl, inr, true, false, Option, none, some, List, [], ◌∷◌, ◌++◌,
  append_assoc, arith,
}
use libcornrow.Core.Base64.{base64_decode}
use libcornrow.Rtsp.Headers.{Regex, find}
use libcornrow.Rtsp.Message.{
  RtspMessage, header, header_ref, create_response, serialize, deserialize_request, Handle,
  method_map, select, on_message, base_unknown, base_options, respond,
}
use libcornrow.Rtsp.Message.Laws.{
  find-set_header, KeepsCSeq, base_unknown-KeepsCSeq, base_options-KeepsCSeq, respond_c_seq,
}
use libcornrow.Sdp.{Media}
use libcornrow.Airplay.Decrypter.{OpenSsl, init_key, init_iv, init}
use libcornrow.Airplay.Handler.{
  Session, World, big_endian, challenge, on_apple_challenge, on_options, announce, on_announce,
  on_setup, on_teardown, airplay_handler, airplay_respond,
}
use mathlib.Core.Option

-- What is signed starts with the challenge, the address and the hardware address, and is as long as these, but
-- 32 bytes at least.
pub challenge_padded :
    (bytes : List ℕ) (address : ℕ)
    → (take (length bytes) (challenge bytes address) ≡ bytes)
      × (take 10 (drop (length bytes) (challenge bytes address))
          ≡ big_endian address ++ (1 ∷ 2 ∷ 3 ∷ 4 ∷ 5 ∷ 6 ∷ []))
      × (length (challenge bytes address) ≡ max 32 (length bytes + 10))
unfolding challenge
challenge_padded bytes address = (
  ap (take (length bytes)) split ∙ take-append bytes tail,
  ap (λ x. take 10 x) (ap (drop (length bytes)) split ∙ drop-append bytes tail),
  omega (
    arith,
    length-append signed pad,
    length-append (bytes ++ big_endian address) mac,
    length-append bytes (big_endian address),
    length-replicate {A = ℕ} (32 - length signed) 0,
  ),
)
  where
    mac : List ℕ
    mac = 1 ∷ 2 ∷ 3 ∷ 4 ∷ 5 ∷ 6 ∷ []

    signed : List ℕ
    signed = bytes ++ big_endian address ++ mac

    pad : List ℕ
    pad = replicate (32 - length signed) 0

    tail : List ℕ
    tail = big_endian address ++ (mac ++ pad)

    split : challenge bytes address ≡ bytes ++ tail
    split =
        append_assoc (bytes ++ big_endian address) mac pad
        ∙ append_assoc bytes (big_endian address) (mac ++ pad)

one_missing :
    {B : Type 0} (o p q : Option Text) (f : Text → Text → Text → Option B)
    → (o ≡ none) ⊎ ((p ≡ none) ⊎ (q ≡ none))
    → Option.bind o (λ a. Option.bind p λ b. Option.bind q λ c. f a b c) ≡ none
unfolding Option.bind
one_missing none p q f h = refl
one_missing (some a) none q f h = refl
one_missing (some a) (some b) none f h = refl
one_missing (some a) (some b) (some c) f (inl h) = cc h
one_missing (some a) (some b) (some c) f (inr (inl h)) = cc h
one_missing (some a) (some b) (some c) f (inr (inr h)) = cc h

module _ {K : Type 0} (ssl : OpenSsl K) (receiver_port control_port : ℕ) where
  on_apple_challenge-KeepsCSeq : KeepsCSeq (on_apple_challenge ssl receiver_port control_port)
  unfolding on_apple_challenge
  on_apple_challenge-KeepsCSeq request response address w =
      elim (Option-cases (base64_decode (header (codes "Apple-Challenge") request))) [
        | inl failed ↦ rw failed refl
        | inr (bytes, decoded) ↦
            rw decoded (find-set_header (codes "CSeq") (codes "Apple-Response") _ response.headers)
      ]

  on_options-KeepsCSeq : KeepsCSeq (on_options ssl receiver_port control_port)
  unfolding on_options
  on_options-KeepsCSeq request response address w =
      let based = base_options request response address w in
      let kept = base_options-KeepsCSeq request response address w in
      elim (Bool-cases (length (header (codes "Apple-Challenge") request) == 0)) [
        | inl plain ↦ rw plain kept
        | inr challenged ↦
            rw challenged (on_apple_challenge-KeepsCSeq request based.0 address based.1 ∙ kept)
      ]

  on_setup-KeepsCSeq : KeepsCSeq (on_setup ssl receiver_port control_port)
  unfolding on_setup
  on_setup-KeepsCSeq request response address w =
      find-set_header (codes "CSeq") (codes "Transport") _ response.headers

  on_announce-KeepsCSeq : KeepsCSeq (on_announce ssl receiver_port control_port)
  unfolding on_announce
  on_announce-KeepsCSeq request response address w = refl

  on_teardown-KeepsCSeq : KeepsCSeq (on_teardown ssl receiver_port control_port)
  unfolding on_teardown
  on_teardown-KeepsCSeq request response address w = refl

  answer_c_seq :
      (rx : Regex) (address : ℕ) (bytes : Text) (w : World K)
      → (response : RtspMessage) × ((respond rx
            (airplay_handler ssl receiver_port control_port)
            address
            bytes
            w).0
          ≡ serialize response)
        × (find (codes "CSeq") response.headers
            ≡ some (header (codes "CSeq") (deserialize_request rx bytes)))
  answer_c_seq rx address bytes w =
      respond_c_seq rx (airplay_handler ssl receiver_port control_port) address bytes w
        base_unknown-KeepsCSeq
        (
          on_options-KeepsCSeq,
          (
            base_unknown-KeepsCSeq,
            (
              on_setup-KeepsCSeq,
              (
                base_unknown-KeepsCSeq,
                (
                  base_unknown-KeepsCSeq,
                  (
                    base_unknown-KeepsCSeq,
                    (
                      on_announce-KeepsCSeq,
                      (
                        on_teardown-KeepsCSeq,
                        (
                          base_unknown-KeepsCSeq,
                          (base_unknown-KeepsCSeq, (base_unknown-KeepsCSeq, tt)),
                        ),
                      ),
                    ),
                  ),
                ),
              ),
            ),
          ),
        )

  -- A function of the handler that does not throw for a request
  abbrev pub Survives : RtspMessage → Handle (World K) → Type 0
  Survives request f =
      (response : RtspMessage) (address : ℕ) (s : Session K)
      → (s' : Session K) × ((f request response address (some s)).1 ≡ some s')

  base_unknown-Survives : (request : RtspMessage) → Survives request base_unknown
  base_unknown-Survives request response address s = (s, refl)

  select-Survives :
      (request : RtspMessage) (otherwise : Handle (World K)) (m : List (Text × Handle (World K)))
      → Survives request otherwise
      → All (λ e. text_eq (e.0) request.method ≡ true → Survives request (e.1)) m
      → Survives request (select request.method otherwise m)
  unfolding select
  select-Survives request otherwise [] k ks = k
  select-Survives request otherwise ((name, f) ∷ m) k ks =
      elim (Bool-cases (text_eq name request.method)) [
        | inl hit ↦ rw hit (ks.0 hit)
        | inr miss ↦ rw miss (select-Survives request otherwise m k (ks.1))
      ]

  on_options-Survives :
      (request : RtspMessage)
      → length (header (codes "Apple-Challenge") request) ≡ 0
      → Survives request (on_options ssl receiver_port control_port)
  unfolding on_options base_options
  on_options-Survives request plain response address s =
      let e : length (header (codes "Apple-Challenge") request) == 0 ≡ true =
        ground (arith, plain) in
      (s, rw e refl)

  on_message-Survives :
      (request : RtspMessage)
      → text_eq (codes "ANNOUNCE") request.method ≡ false
      → length (header (codes "Apple-Challenge") request) ≡ 0
      → Survives request (on_message (airplay_handler ssl receiver_port control_port))
  unfolding on_message on_setup on_teardown
  on_message-Survives request quiet plain =
      let same = base_unknown-Survives request in
      select-Survives request base_unknown
        (method_map (airplay_handler ssl receiver_port control_port)) same
        (
          (λ h. on_options-Survives request plain),
          (
            (λ h. same),
            (
              (λ h r address s. (record s { is_receiving = true }, refl)),
              (
                (λ h. same),
                (
                  (λ h. same),
                  (
                    (λ h. same),
                    (
                      (λ h. absurd (true-false (sym h ∙ quiet))),
                      (
                        (λ h r address s. (record s { is_receiving = false }, refl)),
                        ((λ h. same), ((λ h. same), ((λ h. same), tt))),
                      ),
                    ),
                  ),
                ),
              ),
            ),
          ),
        )
    where
      true-false : true ≡ false → ⊥
      true-false h = cc h

  -- What `airplay_respond` gives for bytes: an answer with the CSeq of the request, which is empty if the request has none
  abbrev pub Answered : Regex → ℕ → Text → Session K → Type 0
  Answered rx address bytes s =
      (r : Text × Session K) × (response : RtspMessage) × (airplay_respond ssl receiver_port
          control_port rx address bytes s
        ≡ some r)
      × (r.0 ≡ serialize response)
      × (find (codes "CSeq") response.headers
          ≡ some (header (codes "CSeq") (deserialize_request rx bytes)))

  handler_answers :
      (rx : Regex) (address : ℕ) (bytes : Text) (s after : Session K)
      → (respond rx (airplay_handler ssl receiver_port control_port) address bytes (some s)).1
        ≡ some after
      → Answered rx address bytes s
  unfolding airplay_respond
  handler_answers rx address bytes s after e =
      let answer =
        respond rx (airplay_handler ssl receiver_port control_port) address bytes (some s) in
      let (response, text, c_seq) = answer_c_seq rx address bytes (some s) in
      ((answer.0, after), response, ap (Option.map λ (x : Session K). (answer.0, x)) e, text, c_seq)

  -- Whatever bytes a client of the Airplay source sends, and whatever session there is, either the handler's answer carries
  -- the CSeq of the request, which is empty if the request has none; or nothing is sent, and then the request
  -- is an ANNOUNCE, or has a challenge.
  pub airplay_respond_c_seq :
      (rx : Regex) (address : ℕ) (bytes : Text) (s : Session K)
      → let request = (header_ref (codes "CSeq") (deserialize_request rx bytes)).1 in
        Answered rx address bytes s
        ⊎ ((airplay_respond ssl receiver_port control_port rx address bytes s ≡ none)
            × ((text_eq (codes "ANNOUNCE") request.method ≡ true)
                ⊎ (0 < length (header (codes "Apple-Challenge") request))))
  unfolding airplay_respond
  airplay_respond_c_seq rx address bytes s =
      let request = (header_ref (codes "CSeq") (deserialize_request rx bytes)).1 in
      let c_seq = (header_ref (codes "CSeq") (deserialize_request rx bytes)).0 in
      let answer =
        respond rx (airplay_handler ssl receiver_port control_port) address bytes (some s) in
      elim (Option-cases (answer.1)) [
        | inr (after, e) ↦ inl (handler_answers rx address bytes s after e)
        | inl dead ↦ inr (
          ap (Option.map λ (x : Session K). (answer.0, x)) dead,
          elim (Bool-cases (text_eq (codes "ANNOUNCE") request.method)) [
            | inl announces ↦ inl announces
            | inr other ↦
                elim (Bool-cases (length (header (codes "Apple-Challenge") request) == 0)) [
                  | inr challenged ↦ inr (ground (arith, challenged))
                  | inl plain ↦
                      let (s', lives) =
                        on_message-Survives request other (ground (arith, plain))
                          (create_response c_seq) address s in
                      let lives' : answer.1 ≡ some s' = unfold respond in lives in
                      let clash : none ≡ some s' = sym dead ∙ lives' in absurd (cc clash)
                ]
          ],
        )
      ]

  -- An ANNOUNCE whose first medium has no attribute `rsaaeskey`, `aesiv` or `fmtp` ends the server: `at` throws, and
  -- nothing catches it. One without media changes nothing.
  pub on_announce_incomplete :
      (request response : RtspMessage) (address : ℕ) (m : Media) (ms : List Media) (w : World K)
      → request.sdp ≡ m ∷ ms
      → (find (codes "rsaaeskey") m.attributes ≡ none)
        ⊎ ((find (codes "aesiv") m.attributes ≡ none) ⊎ (find (codes "fmtp") m.attributes ≡ none))
      → (on_announce ssl receiver_port control_port request response address w).1 ≡ none
  unfolding on_announce announce Option.bind
  on_announce_incomplete request response address m ms none first a = rw first refl
  on_announce_incomplete request response address m ms (some s) first a = rw first (
      one_missing (find (codes "rsaaeskey") m.attributes) (find (codes "aesiv") m.attributes)
        (find (codes "fmtp") m.attributes) _ a)

  -- A full session: after an ANNOUNCE with all three attributes whose key and vector can be decoded and
  -- decrypted, the session's decrypter has the AES key of the decrypted key, and the vector; the decoder has the format
  -- line, and whether the receiver is started stays as it was.
  pub on_announce_complete :
      (request response : RtspMessage) (address : ℕ) (m : Media) (ms : List Media) (s : Session K)
      (key iv fmtp : Text) (sealed aes vector : List ℕ)
      → request.sdp ≡ m ∷ ms
      → find (codes "rsaaeskey") m.attributes ≡ some key
      → find (codes "aesiv") m.attributes ≡ some iv
      → find (codes "fmtp") m.attributes ≡ some fmtp
      → base64_decode key ≡ some sealed
      → ssl.rsa_private_decrypt sealed ≡ some aes
      → base64_decode iv ≡ some vector
      → (on_announce ssl receiver_port control_port request response address (some s)).1
        ≡ some (record {
          decrypter = record { aes_key = ssl.aes_set_decrypt_key aes; iv = vector };
          fmtp = fmtp;
          is_receiving = s.is_receiving;
        })
  unfolding on_announce announce Option.bind init init_key init_iv
  on_announce_complete request response address m ms s key iv fmtp sealed aes vector first a b c d e
        f =
      rw (first, a, b, c, d, e, f) refl
