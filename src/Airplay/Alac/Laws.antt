-- ===== src/Airplay/Alac/Laws.antt =====
-- A packet becomes its samples.
use libcornrow.Base.{
  length, drop, take-append-drop, ℕ, ◌+◌, ◌^◌, ◌≤◌, ◌<◌, ◌≡◌, refl, sym, ap, ◌∙◌, some, List, ◌++◌,
}
use libcornrow.Core.Buffer.{Allocator, Buffer, contents, acquire}
use libcornrow.Core.Buffer.Bounds.{IsSound, HasSlack, IsAligned, Acquired, acquire-Acquired}
use libcornrow.Core.Buffer.Contents.{commit_written}
use libcornrow.Airplay.Alac.{Alac, alac_conf, on_process}

module _ {S : Type 0} (lib : Alac S) where
  -- Whatever follows the packet, the library decodes the packet alone.
  abbrev pub DecodesPacket : List ℕ → S → List ℕ → S → Type 0
  DecodesPacket packet s pcm s' =
      (rest : List ℕ) → lib.alac_decode_frame (packet ++ rest) s ≡ (pcm, s')

  input_of :
      {n : ℕ} {b b1 : Buffer}
      → Acquired n b b1
      → drop b1.offset b1.buffer ≡ contents b ++ drop b1.size (drop b1.offset b1.buffer)
  input_of {n} {b} {b1} acq =
      sym (take-append-drop b1.size (drop b1.offset b1.buffer))
      ∙ ap (λ x. x ++ drop b1.size (drop b1.offset b1.buffer)) acq.kept

  -- A packet in a sound buffer whose data ends at a multiple of 4, with three spare bytes behind it, that decodes to no
  -- more than the 2048 bytes asked for, is replaced by its samples; no write leaves the storage.
  pub on_process_samples :
      (a : Allocator) (s s' : S) (pcm : List ℕ) {b : Buffer}
      → DecodesPacket (contents b) s pcm s'
      → IsSound b
      → HasSlack b
      → IsAligned b
      → b.offset + b.size + 2048 < 2 ^ 61
      → length pcm ≤ 2048
      → (c : Buffer) × (on_process lib a s b ≡ some (alac_conf lib, c, s'))
        × (contents c ≡ pcm)
        × IsSound c
  unfolding on_process
  on_process_samples a s s' pcm {b} decodes v slack al small fits =
      let acq = acquire-Acquired a 2048 v slack al small in
      let b1 = acquire a 2048 b in
      let (c, e, whole, w) = commit_written 2048 pcm acq fits in
      let call =
        ap (λ x. lib.alac_decode_frame x s) (input_of acq)
        ∙ decodes (drop b1.size (drop b1.offset b1.buffer)) in
      (c, rw (call, e) refl, whole, w)
