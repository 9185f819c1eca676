-- ===== src/Audio/Sbc/Frames.antt =====
-- One frame of a payload in the decoding loop.
use libcornrow.Base.{
  le→leb, length, drop, length-append, drop-append, slice, overwrite, length-overwrite,
  slice-overwrite_apart, slice-append, add_size, ℕ, suc, ◌+◌, ◌-◌, ◌^◌, ◌≤◌, ◌<◌, ◌≡◌, refl, sym,
  ap, ap₂, ◌∙◌, ◌⊎◌, true, some, List, [], ◌∷◌, ◌++◌, append_assoc, arith,
}
use libcornrow.Core.Buffer.Contents.{drop_of_slice}
use libcornrow.Audio.Sbc.{Sbc, Progress, after_call, decode_round}

-- A frame, and the samples it stands for
pub record Frame : Type 0 where
  pub bytes : List ℕ
  pub pcm : List ℕ

abbrev pub bytes_of : List Frame → List ℕ
bytes_of [] = []
bytes_of (f ∷ fs) = f.bytes ++ bytes_of fs

abbrev pub pcm_of : List Frame → List ℕ
pcm_of [] = []
pcm_of (f ∷ fs) = f.pcm ++ pcm_of fs

abbrev pub frame_count : List Frame → ℕ
frame_count [] = 0
frame_count (f ∷ fs) = suc (frame_count fs)

module _ {S : Type 0} (lib : Sbc S) where
  -- Whatever follows a frame, the library takes the frame alone, and writes its samples.
  abbrev pub Decodes : ℕ → S → List Frame → S → Type 0
  Decodes room s [] t = s ≡ t
  Decodes room s (f ∷ fs) t =
      (s' : S) × ((rest : List ℕ)
        → lib.sbc_decode (f.bytes ++ rest) room s
          ≡ (record { res = some (length f.bytes); pcm = f.pcm }, s'))
      × (0 < length f.bytes)
      × Decodes room s' fs t

  -- Where the loop stands: the frames left are the rest of the payload, and the region has room for their samples,
  -- apart from the payload.
  pub record Ready (size total from to : ℕ) (fs : List Frame) (p : Progress S) : Type 0 where
    pub left : p.read_bytes + length (bytes_of fs) ≡ total
    pub input : slice (from + p.read_bytes) (length (bytes_of fs)) p.storage ≡ bytes_of fs
    pub fits : total ≤ size
    pub inside : from + total ≤ length p.storage
    pub room : to + p.written_bytes + length (pcm_of fs) ≤ length p.storage
    pub apart : (to + p.written_bytes + length (pcm_of fs) ≤ from) ⊎ (from + total ≤ to)
    pub small : length p.storage < 2 ^ 62

  -- What the loop leaves
  pub record Finished (to : ℕ) (fs : List Frame) (t : S) (p q : Progress S) : Type 0 where
    pub written :
        slice to q.written_bytes q.storage ≡ slice to p.written_bytes p.storage ++ pcm_of fs
    pub count : q.written_bytes ≡ p.written_bytes + length (pcm_of fs)
    pub long : length q.storage ≡ length p.storage
    pub decoded : (p.ok ≡ true) ⊎ (0 < frame_count fs) → q.ok ≡ true
    pub state : q.state ≡ t

  -- The variables after a frame
  abbrev pub next_progress : ℕ → Frame → S → Progress S → Progress S
  next_progress to f s p = record {
    storage = overwrite (to + p.written_bytes) f.pcm p.storage;
    read_bytes = p.read_bytes + length f.bytes;
    written_bytes = p.written_bytes + length f.pcm;
    ok = true;
    state = s;
  }

  -- The library sees the frame, and something behind it.
  seen :
      (size total from to : ℕ) (f : Frame) (fs : List Frame) (p : Progress S)
      → Ready size total from to (f ∷ fs) p
      → (rest : List ℕ) × (slice (from + p.read_bytes) size p.storage ≡ f.bytes ++ rest)
  seen size total from to f fs p r =
      let n = length (bytes_of (f ∷ fs)) in
      let i = from + p.read_bytes in
      let more = slice (i + n) (size - n) p.storage in
      (
        bytes_of fs ++ more,
        ap (λ k. slice i k p.storage) (omega (arith, r))
            ∙ slice-append i n (size - n) p.storage (omega (arith, r))
            ∙ ap (λ x. x ++ more) r.input
            ∙ append_assoc f.bytes (bytes_of fs) more,
      )

  pub round_runs :
      (size total from to : ℕ) (f : Frame) (fs : List Frame) (s : S) (p : Progress S)
      → Ready size total from to (f ∷ fs) p
      → ((rest : List ℕ)
          → lib.sbc_decode (f.bytes ++ rest) size p.state
            ≡ (record { res = some (length f.bytes); pcm = f.pcm }, s))
      → decode_round lib size from to p ≡ some (next_progress to f s p)
  unfolding decode_round after_call
  round_runs size total from to f fs s p r d =
      let (rest, e) = seen size total from to f fs p r in
      let lb = length-append f.bytes (bytes_of fs) in
      let lp = length-append f.pcm (pcm_of fs) in
      let read : add_size p.read_bytes (length f.bytes) ≡ p.read_bytes + length f.bytes =
        omega (arith, r, lb) in
      let wrote : add_size p.written_bytes (length f.pcm) ≡ p.written_bytes + length f.pcm =
        omega (arith, r, lp) in
      rw
        (
          e,
          d rest,
          le→leb (to + p.written_bytes + length f.pcm) (length p.storage) (omega (arith, r, lp)),
          read,
          wrote,
        )
        refl

  pub next_Ready :
      (size total from to : ℕ) (f : Frame) (fs : List Frame) (s : S) (p : Progress S)
      → Ready size total from to (f ∷ fs) p
      → Ready size total from to fs (next_progress to f s p)
  next_Ready size total from to f fs s p r =
      let lb = length-append f.bytes (bytes_of fs) in
      let lp = length-append f.pcm (pcm_of fs) in
      let i = from + p.read_bytes in
      let n = length f.bytes in
      let k = length (bytes_of fs) in
      let keep = length-overwrite (to + p.written_bytes) f.pcm p.storage in
      record {
        left = omega (arith, r, lb);
        input =
            slice-overwrite_apart (to + p.written_bytes) (from + (p.read_bytes + n)) k f.pcm
              p.storage (omega (arith, r, lp)) (ground (arith, r, lb, lp))
            ∙ ap₂ (λ x y. slice x y p.storage) (omega arith) (omega (arith, lb))
            ∙ sym
                (drop_of_slice i (length (f.bytes ++ bytes_of fs)) n p.storage (omega (arith, lb)))
            ∙ ap (drop n) r.input
            ∙ drop-append f.bytes (bytes_of fs);
        fits = r.fits;
        inside = omega (arith, r, keep);
        room = omega (arith, r, lp, keep);
        apart = ground (arith, r, lp);
        small = omega (arith, r, keep);
      }
