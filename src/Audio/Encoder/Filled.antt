-- ===== src/Audio/Encoder/Filled.antt =====
-- The frames that are filled and pushed from one buffer.
use libcornrow.Base.{
  Bool-cases, All, ℕ, zero, suc, ◌+◌, ◌*◌, ◌<◌, ◌≡◌, refl, ap, subst, ◌∙◌, inl, inr, Bool, true,
  false, Option, none, some, List, [], ◌∷◌, ◌++◌, append_assoc, arith,
}
use libcornrow.Audio.Types.{AudioConf}
use libcornrow.Audio.Encoder.{
  Context, AvFrame, Libav, create_frame, fill_frame, push_frame, after_fill, fill_frames,
}
use libcornrow.Audio.Encoder.Frames.{
  interleaved, IsUsable, sample_bytes, Filled, fill_frame-Filled, interleaved-create_frame,
}
use libcornrow.Core.Buffer.{Allocator, Buffer, contents}
use libcornrow.Core.Buffer.Bounds.{IsSound}
use libcornrow.Core.Node.{Node}
use mathlib.Core.Option

abbrev pub bytes_of : Context → List AvFrame → List ℕ
bytes_of c [] = []
bytes_of c (f ∷ fs) = interleaved c f ++ bytes_of c fs

abbrev pub held : Context → Option AvFrame → List ℕ
held c none = []
held c (some f) = interleaved c f

abbrev pub IsPartial : Context → Option AvFrame → Type 0
IsPartial c none = Unit
IsPartial c (some f) = f.nb_samples < c.frame_size

module _ {W : Type 0} (av : Libav W) (a : Allocator) (next : List (Node W)) where
  -- Frames pushed one after the other
  unfoldable pub push_all : AudioConf → List AvFrame → W → Option W
  unfolding Option.bind
  push_all conf [] w = some w
  push_all conf (f ∷ fs) w = Option.bind (push_frame av a next conf f w) λ w'. push_all conf fs w'

  -- A run pushes full frames and ends with a partial one; the frames, the partial one and the rest of
  -- the buffer are what there was at first, and less than a sample is left of the bytes of the buffer.
  pub record Encoded (c : Context) (conf : AudioConf) (before : List ℕ) (size : ℕ)
      (run : W → Option (AvFrame × Buffer × W)) : Type 0 where
    pub pushed : List AvFrame
    pub last : AvFrame
    pub rest : Buffer
    pub runs : (w : W) → run w ≡ Option.map (λ w'. (last, rest, w')) (push_all conf pushed w)
    pub full : All (λ f. f.nb_samples ≡ c.frame_size) pushed
    pub part : last.nb_samples < c.frame_size
    pub less : rest.size < sample_bytes c
    pub taken : ℕ
    pub eaten : rest.size + taken * sample_bytes c ≡ size
    pub kept : bytes_of c pushed ++ (interleaved c last ++ contents rest) ≡ before

  after_fill-true :
      (conf : AudioConf) (r : Bool × AvFrame × Buffer) (w : W)
      (more : Buffer → W → Option (AvFrame × Buffer × W))
      → r.0 ≡ true
      → after_fill av a next conf r w more
        ≡ Option.bind (push_frame av a next conf r.1 w) (λ w'. more r.2 w')
  unfolding after_fill
  after_fill-true conf (true, f, b) w more e = refl
  after_fill-true conf (false, f, b) w more e = cc e

  after_fill-false :
      (conf : AudioConf) (r : Bool × AvFrame × Buffer) (w : W)
      (more : Buffer → W → Option (AvFrame × Buffer × W))
      → r.0 ≡ false
      → after_fill av a next conf r w more ≡ some (r.1, r.2, w)
  unfolding after_fill
  after_fill-false conf (true, f, b) w more e = cc e
  after_fill-false conf (false, f, b) w more e = refl

  pub bind_ext :
      {A B C : Type 0} (o : Option A) (g : A → Option B) (h : B → C) (g' : A → Option C)
      → ((x : A) → g' x ≡ Option.map h (g x))
      → Option.bind o g' ≡ Option.map h (Option.bind o g)
  unfolding Option.bind
  bind_ext none g h g' e = refl
  bind_ext (some x) g h g' e = e x

  -- One round, with what follows a full frame.
  pub after_fill-Encoded :
      (c : Context) (conf : AudioConf) (f : AvFrame) {b : Buffer}
      (more : Buffer → W → Option (AvFrame × Buffer × W))
      → IsUsable c
      → IsSound b
      → f.nb_samples < c.frame_size
      → ((b' : Buffer)
          → IsSound b'
          → b'.size < b.size
          → Encoded c conf (contents b') b'.size (more b'))
      → Encoded c conf
          (interleaved c f ++ contents b)
          b.size
          (λ w. after_fill av a next conf (fill_frame c f b) w more)
  unfolding push_all
  after_fill-Encoded c conf f {b} more u v h then = elim (Bool-cases r.0) [
    | inl returned ↦
        let done = filled.full returned in
        let ih = then r.2 filled.sound done.1 in
        record {
          pushed = r.1 ∷ ih.pushed;
          last = ih.last;
          rest = ih.rest;
          runs = λ w.
              after_fill-true conf r w more returned
              ∙ bind_ext (push_frame av a next conf r.1 w) (λ w'. push_all conf ih.pushed w')
                  (λ w'. (ih.last, ih.rest, w')) (λ w'. more r.2 w') ih.runs;
          full = (done.0, ih.full);
          part = ih.part;
          less = ih.less;
          taken = filled.taken + ih.taken;
          eaten = omega (arith, filled.eaten, ih.eaten);
          kept =
              append_assoc (interleaved c r.1) (bytes_of c ih.pushed)
                (interleaved c ih.last ++ contents ih.rest)
              ∙ ap (λ x. interleaved c r.1 ++ x) ih.kept
              ∙ filled.kept;
        }
    | inr kept ↦ record {
      pushed = [];
      last = r.1;
      rest = r.2;
      runs = λ w. after_fill-false conf r w more kept;
      full = tt;
      part = (filled.part kept).0;
      less = (filled.part kept).1;
      taken = filled.taken;
      eaten = filled.eaten;
      kept = filled.kept;
    }
  ]
    where
      r : Bool × AvFrame × Buffer
      r = fill_frame c f b

      filled : Filled c f b r
      filled = fill_frame-Filled c f u v h

  fill_frames-Encoded :
      (c : Context) (conf : AudioConf) (fuel : ℕ) (f : AvFrame) {b : Buffer}
      → IsUsable c
      → IsSound b
      → f.nb_samples < c.frame_size
      → b.size < fuel
      → Encoded c conf
          (interleaved c f ++ contents b)
          b.size
          (fill_frames av a next c conf fuel f b)
  unfolding fill_frames create_frame
  fill_frames-Encoded c conf zero f u v h enough = absurd (omega arith)
  fill_frames-Encoded c conf (suc fuel) f {b} u v h enough =
      after_fill-Encoded c conf f (λ b' w'. fill_frames av a next c conf fuel create_frame b' w') u
        v h
        λ b' v' less.
          subst
            (λ x.
              Encoded c conf (x ++ contents b') b'.size
                (fill_frames av a next c conf fuel create_frame b'))
            (interleaved-create_frame c)
            (fill_frames-Encoded c conf fuel create_frame u v' u.frame_filled (omega arith))

  -- All the frames of a buffer from the first on, as `whole_frames` gets them
  pub from_new-Encoded :
      (c : Context) (conf : AudioConf) {b : Buffer}
      → IsUsable c
      → IsSound b
      → Encoded c conf
          (contents b)
          b.size
          (fill_frames av a next c conf (suc (suc b.size)) create_frame b)
  unfolding create_frame
  from_new-Encoded c conf {b} u v =
      subst
        (λ x.
          Encoded c conf (x ++ contents b) b.size
            (fill_frames av a next c conf (suc (suc b.size)) create_frame b))
        (interleaved-create_frame c)
        (fill_frames-Encoded c conf (suc (suc b.size)) create_frame u v u.frame_filled
          (omega arith))
