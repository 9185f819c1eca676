-- ===== src/Rtp/Decoder/Sequence.antt =====
-- The sequence numbers that the decoder follows, over the packets of a session.
use libcornrow.Audio.Types.{AudioCodec}
use libcornrow.Base.{
  ltb, leb, ◌==◌, if_true, Bool-cases, length, get_elem?, replicate, get_elem?-overwrite, ℕ, ◌+◌,
  ◌-◌, ◌*◌, ◌%◌, ◌^◌, ◌≤◌, ◌≡◌, refl, sym, ap, subst, ◌∙◌, inl, inr, true, false, ◌&&◌, Option,
  some, List, [], ◌∷◌, arith,
}
use libcornrow.Core.Buffer.{Buffer, contents}
use libcornrow.Core.Buffer.Bounds.{IsSound}
use libcornrow.Rtp.Header.{header_of}
use libcornrow.Rtp.Decoder.{
  RtpDecoder, Event, byte, swap_header, header, track, on_process, on_stop, starts, continues,
  jumps,
}
use libcornrow.Rtp.Decoder.Payload.{at, payload_type, byte-at, header-swap_header}
use mathlib.Core.Option

-- The sequence number as it stands in the packet, big-endian.
abbrev pub sequence : List ℕ → ℕ
sequence packet = at packet 3 + 256 * at packet 2

swapped : Buffer → List ℕ
swapped b = byte b 3 ∷ byte b 2 ∷ byte b 7 ∷ byte b 6 ∷ byte b 5 ∷ byte b 4 ∷ []

header-sequence :
    {b : Buffer}
    → IsSound b
    → 12 ≤ b.size
    → (header (swap_header b)).sequence_number ≡ sequence (contents b)
unfolding header header_of swap_header swapped
header-sequence {b} v h =
    let bytes = get_elem?-overwrite (b.offset + 2) (swapped b) b.buffer in
    let e2 = bytes (b.offset + 2) (omega arith) in
    let e3 = bytes (b.offset + 3) (omega arith) in
    let inside2 : leb (b.offset + 2) (b.offset + 2) && ltb (b.offset + 2) (b.offset + 2 + 6)
        ≡ true =
      ground arith in
    let inside3 : leb (b.offset + 2) (b.offset + 3) && ltb (b.offset + 3) (b.offset + 2 + 6)
        ≡ true =
      ground arith in
    let i2 : b.offset + 2 - (b.offset + 2) ≡ 0 = omega arith in
    let i3 : b.offset + 3 - (b.offset + 2) ≡ 1 = omega arith in
    let b2 : byte (swap_header b) 2 ≡ byte b 3 =
      ap (λ o. Option.get_or o 0) (e2 ∙ if_true _ _ inside2 ∙ ap (get_elem? (swapped b)) i2) in
    let b3 : byte (swap_header b) 3 ≡ byte b 2 =
      ap (λ o. Option.get_or o 0) (e3 ∙ if_true _ _ inside3 ∙ ap (get_elem? (swapped b)) i3) in
    rw (b2, b3, byte-at b 2 (omega arith), byte-at b 3 (omega arith)) refl

-- What the decoder reports of the packets of a session, one after the other.
unfoldable pub on_packets : AudioCodec → RtpDecoder → List Buffer → List (Option Event)
on_packets codec d [] = []
on_packets codec d (b ∷ bs) =
    let r = on_process codec d b in r.event ∷ on_packets codec r.decoder bs

-- A packet that is not refused, with the sequence number `k`.
pub record IsNumbered (k : ℕ) (b : Buffer) : Type 0 where
  pub sound : IsSound b
  pub long : 12 ≤ b.size
  pub dynamic : 96 ≤ payload_type (contents b)
  pub number : sequence (contents b) ≡ k % 2 ^ 16

-- Packets with consecutive sequence numbers from `k` on, which start again at 0 behind 65535.
unfoldable pub AreNumbered : ℕ → List Buffer → Type 0
AreNumbered k [] = Unit
AreNumbered k (b ∷ bs) = IsNumbered k b × AreNumbered (k + 1) bs

on_process-numbered :
    (codec : AudioCodec) (d : RtpDecoder) {k : ℕ} {b : Buffer}
    → IsNumbered k b
    → let r = on_process codec d b in
      (r.event ≡ some (track d (k % 2 ^ 16)).0) × (r.decoder ≡ (track d (k % 2 ^ 16)).1)
unfolding on_process
on_process-numbered codec d {k} {b} v =
    let first : ltb b.size 12 ≡ false = ground (arith, v.long) in
    let pt = (header-swap_header v.sound v.long).1 in
    let second : ltb (header (swap_header b)).payload_type 96 ≡ false = ground (arith, v.dynamic) in
    let seq = header-sequence v.sound v.long ∙ v.number in rw (first, second, seq) (refl, refl)

-- The decoder runs, and its last packet had the number before `k`.
record Follows (k : ℕ) (d : RtpDecoder) : Type 0 where
  running : d.is_flushed ≡ false
  next : (d.seq + 1) % 2 ^ 16 ≡ k % 2 ^ 16

track-next : (k : ℕ) (d : RtpDecoder) → Follows k d → (track d (k % 2 ^ 16)).0 ≡ continues
unfolding track
track-next k d f =
    let same : (d.seq + 1) % 2 ^ 16 == k % 2 ^ 16 ≡ true = ground (arith, f.next) in
    rw (f.running, same) refl

follows : (k : ℕ) (d : RtpDecoder) → d.is_flushed ≡ false → d.seq ≡ k % 2 ^ 16 → Follows (k + 1) d
follows k d running seq = record { running = running; next = rw seq (omega arith) }

track-Follows : (k : ℕ) (d : RtpDecoder) → Follows (k + 1) (track d (k % 2 ^ 16)).1
unfolding track
track-Follows k d = elim (Bool-cases d.is_flushed) [
  | inl flushed ↦ rw flushed (follows k _ refl refl)
  | inr running ↦ elim (Bool-cases ((d.seq + 1) % 2 ^ 16 == k % 2 ^ 16)) [
    | inl same ↦ rw (running, same) (follows k _ refl refl)
    | inr other ↦ rw (running, other) (follows k _ refl refl)
  ]
]

on_packets-Follows :
    (codec : AudioCodec) (k : ℕ) (d : RtpDecoder) (bs : List Buffer)
    → Follows k d
    → AreNumbered k bs
    → on_packets codec d bs ≡ replicate (length bs) (some continues)
unfolding on_packets AreNumbered
on_packets-Follows codec k d [] f v = refl
on_packets-Follows codec k d (b ∷ bs) f (here, there) =
    let (event, next) = on_process-numbered codec d here in
    let after = subst (λ d'. Follows (k + 1) d') (sym next) (track-Follows k d) in
    let rest = on_packets-Follows codec (k + 1) (on_process codec d b).decoder bs after there in
    rw (event, track-next k d f, rest) refl

-- After a stop, packets that are not refused, with consecutive numbers that start again at 0 behind
-- 65535, are reported as one sequence: its first packet starts it and no other is a discontinuity.
pub on_packets_consecutive :
    (codec : AudioCodec) (d : RtpDecoder) (k : ℕ) (b : Buffer) (bs : List Buffer)
    → AreNumbered k (b ∷ bs)
    → on_packets codec (on_stop d) (b ∷ bs) ≡ some starts ∷ replicate (length bs) (some continues)
unfolding on_packets AreNumbered on_stop
on_packets_consecutive codec d k b bs (here, there) =
    let (event, next) = on_process-numbered codec (on_stop d) here in
    let after = subst (λ d'. Follows (k + 1) d') (sym next) (track-Follows k (on_stop d)) in
    let rest =
      on_packets-Follows codec (k + 1) (on_process codec (on_stop d) b).decoder bs after there in
    let first : (track (on_stop d) (k % 2 ^ 16)).0 ≡ starts = unfold track in refl in
    rw (event, first, rest) refl

-- A packet that is not the next of a running sequence is reported, and the sequence goes on from it.
pub on_process_jump :
    (codec : AudioCodec) (d : RtpDecoder) {k : ℕ} {b : Buffer}
    → d.is_flushed ≡ false
    → IsNumbered k b
    → (d.seq + 1) % 2 ^ 16 == k % 2 ^ 16 ≡ false
    → let r = on_process codec d b in
      (r.event ≡ some jumps) × (r.decoder.seq ≡ k % 2 ^ 16) × (r.decoder.is_flushed ≡ false)
on_process_jump codec d {k} {b} running here other =
    let (event, next) = on_process-numbered codec d here in
    let t : track d (k % 2 ^ 16) ≡ (jumps, record d { seq = k % 2 ^ 16 }) =
      unfold track in rw (running, other) refl in
    (
      event ∙ ap (λ (p : Event × RtpDecoder). some p.0) t,
      ap (λ (d' : RtpDecoder). d'.seq) (next ∙ ap (λ (p : Event × RtpDecoder). p.1) t),
      ap (λ (d' : RtpDecoder). d'.is_flushed) (next ∙ ap (λ (p : Event × RtpDecoder). p.1) t)
          ∙ running,
    )
