-- ===== src/Audio/Sbc/Laws.antt =====
-- The decoding loop on a payload of whole frames.
use libcornrow.Base.{
  ltb, lt→ltb, length, length-append, slice, overwrite, length-overwrite, slice-overwrite,
  slice-overwrite_apart, slice-append, sub_size, mul_size, ℕ, zero, suc, ◌+◌, ◌*◌, ◌^◌, ◌≤◌, ◌<◌,
  ◌≡◌, refl, sym, ap, ap₂, subst, ◌∙◌, inl, inr, true, false, some, List, [], ◌∷◌, ◌++◌, append-nil,
  append_assoc, arith,
}
use libcornrow.Audio.Types.{AudioConf}
use libcornrow.Core.Buffer.{Allocator, Buffer, contents, acquire, commit}
use libcornrow.Core.Buffer.Bounds.{IsSound, HasSlack, IsAligned, Acquired, acquire-Acquired}
use libcornrow.Core.Buffer.Contents.{length-contents}
use libcornrow.Audio.Sbc.{
  Sbc, Progress, SbcDecoder, decode_loop, decoded_conf, decode_payload, on_process,
}
use libcornrow.Audio.Sbc.Frames.{
  Frame, bytes_of, pcm_of, frame_count, Decodes, Ready, Finished, next_progress, round_runs,
  next_Ready,
}

module _ {S : Type 0} (lib : Sbc S) where
  next_Finished :
      (size total from to : ℕ) (f : Frame) (fs : List Frame) (s t : S) (p : Progress S)
      {q : Progress S}
      → Ready lib size total from to (f ∷ fs) p
      → Finished lib to fs t (next_progress lib to f s p) q
      → Finished lib to (f ∷ fs) t p q
  next_Finished size total from to f fs s t p {q} r fin =
      let lp = length-append f.pcm (pcm_of fs) in
      let at = to + p.written_bytes in
      let keep = length-overwrite at f.pcm p.storage in
      let s1 = overwrite at f.pcm p.storage in
      record {
        written =
            fin.written
            ∙ ap (λ x. x ++ pcm_of fs)
                (slice-append to p.written_bytes (length f.pcm) s1 (omega (arith, r, lp, keep))
                  ∙ ap₂ ◌++◌
                      (slice-overwrite_apart at to p.written_bytes f.pcm p.storage
                        (omega (arith, r, lp)) (inl (omega arith)))
                      (slice-overwrite at f.pcm p.storage (omega (arith, r, lp))))
            ∙ append_assoc (slice to p.written_bytes p.storage) f.pcm (pcm_of fs);
        count = omega (arith, fin, lp);
        long = fin.long ∙ keep;
        decoded = λ h. fin.decoded (inl refl);
        state = fin.state;
      }

  decode_loop-Finished :
      (n size total from to : ℕ) (fs : List Frame) (t : S) (p : Progress S)
      → frame_count fs < n
      → Ready lib size total from to fs p
      → Decodes lib size p.state fs t
      → (q : Progress S) × (decode_loop lib n size total from to p ≡ some q)
        × Finished lib to fs t p q
  unfolding decode_loop
  decode_loop-Finished zero size total from to fs t p h r d = absurd (omega arith)
  decode_loop-Finished (suc n) size total from to [] t p h r d =
      let stop : ltb p.read_bytes total ≡ false = ground (arith, r) in
      (
        p,
        rw stop refl,
        record {
          written = sym (append-nil _);
          count = omega arith;
          long = refl;
          decoded = λ h. elim h [ inl e ↦ e | inr e ↦ absurd (omega arith) ];
          state = d;
        },
      )
  decode_loop-Finished (suc n) size total from to (f ∷ fs) t p h r (s, call, some_bytes, d) =
      let lb = length-append f.bytes (bytes_of fs) in
      let go : ltb p.read_bytes total ≡ true = lt→ltb _ _ (omega (arith, r, lb)) in
      let (q, e, fin) =
        decode_loop-Finished n size total from to fs t (next_progress lib to f s p) (omega arith)
          (next_Ready lib size total from to f fs s p r) d in
      (
        q,
        rw (go, round_runs lib size total from to f fs s p r call) e,
        next_Finished size total from to f fs s t p r fin,
      )

  -- The variables before the loop
  abbrev first_progress : Buffer → S → Progress S
  first_progress b s = record {
    storage = b.buffer;
    read_bytes = 0;
    written_bytes = 0;
    ok = false;
    state = s;
  }

  -- The loop on all of a buffer that has acquired five times its size
  loop_in_buffer :
      (fuel : ℕ) (f : Frame) (fs : List Frame) (s t : S) {b b1 : Buffer}
      → Acquired (b.size * 5) b b1
      → IsSound b
      → contents b ≡ bytes_of (f ∷ fs)
      → Decodes lib b1.size s (f ∷ fs) t
      → frame_count (f ∷ fs) < fuel
      → length (pcm_of (f ∷ fs)) ≤ 5 * b.size
      → (q : Progress S) × (decode_loop lib fuel b1.size b1.size b1.offset b1.acquired_offset
            (first_progress b1 s)
          ≡ some q)
        × Finished lib b1.acquired_offset (f ∷ fs) t (first_progress b1 s) q
  loop_in_buffer fuel f fs s t {b} {b1} acq v whole calls enough five =
      let whole_length : length (contents b) ≡ length (bytes_of (f ∷ fs)) = ap length whole in
      let start : b1.offset + 0 ≡ b1.offset = omega arith in
      let sound = acq.sound in
      let size_eq : length (bytes_of (f ∷ fs)) ≡ b1.size =
        omega (arith, acq, length-contents v, whole_length) in
      decode_loop-Finished fuel b1.size b1.size b1.offset b1.acquired_offset (f ∷ fs) t
        (first_progress b1 s) enough
        (record {
          left = omega (arith, size_eq);
          input = ap₂ (λ x y. slice x y b1.buffer) start size_eq ∙ acq.kept ∙ whole;
          fits = omega arith;
          inside = sound.inside;
          room = omega (arith, acq, five);
          apart = ground (arith, acq, five);
          small = sound.small;
        })
        calls

  -- With fuel for one round more than there are frames: a payload without RTP that consists of whole SBC frames, one at
  -- least, in a sound buffer whose data ends at a multiple of 4, with three spare bytes behind it, and whose samples are
  -- no more than five times its bytes, becomes its samples in order, with the format of the library's state behind the
  -- last frame. No write leaves the storage.
  pub on_process-decoded :
      (a : Allocator) (fuel : ℕ) (conf : AudioConf) (d : SbcDecoder S) (f : Frame) (fs : List Frame)
      {b : Buffer} {t : S}
      → conf.is_rtp_payloaded ≡ false
      → contents b ≡ bytes_of (f ∷ fs)
      → Decodes lib b.size d.sbc (f ∷ fs) t
      → frame_count (f ∷ fs) < fuel
      → length (pcm_of (f ∷ fs)) ≤ 5 * b.size
      → IsSound b
      → HasSlack b
      → IsAligned b
      → b.offset + b.size + b.size * 5 < 2 ^ 61
      → (c : Buffer) × (on_process lib a fuel conf d b
          ≡ some (record { conf = decoded_conf lib t; sbc = t }, c))
        × (contents c ≡ pcm_of (f ∷ fs))
  unfolding on_process decode_payload commit
  on_process-decoded a fuel conf d f fs {b} {t} plain whole calls enough five v slack al small =
      let times : mul_size b.size 5 ≡ b.size * 5 = omega arith in
      let acq = acquire-Acquired a (b.size * 5) v slack al small in
      let b1 = acquire a (b.size * 5) b in
      let total : sub_size b1.size 0 ≡ b1.size = omega (arith, acq.sound) in
      let start : b1.offset + 0 ≡ b1.offset = omega arith in
      let (q, e, fin) =
        loop_in_buffer fuel f fs d.sbc t acq v whole
          (subst (λ n. Decodes lib n d.sbc (f ∷ fs) t) (sym acq.size_kept) calls) enough five in
      (
        record b1 { buffer = q.storage; offset = b1.acquired_offset; size = q.written_bytes },
        rw (plain, times, total, start, e, fin.decoded (inr (omega arith)), fin.state) refl,
        fin.written,
      )
