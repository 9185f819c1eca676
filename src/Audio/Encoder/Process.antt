-- ===== src/Audio/Encoder/Process.antt =====
-- `onProcess` of the encoder: no sample is lost, and the loop ends.
use libcornrow.Audio.Encoder.Filled.{
  bytes_of, held, IsPartial, push_all, Encoded, bind_ext, after_fill-Encoded, from_new-Encoded,
}
use libcornrow.Base.{
  ltb, ◌==◌, Bool-cases, All, ℕ, suc, ◌+◌, ◌-◌, ◌*◌, ◌≤◌, ◌<◌, ◌≡◌, refl, sym, ap, ◌∙◌, inl, inr,
  Bool, true, false, Option, none, some, List, [], ◌++◌, append-nil, arith,
}
use libcornrow.Audio.Types.{AudioConf, conf_eq}
use libcornrow.Audio.Encoder.{
  Context, AvFrame, Libav, AudioEncoder, create_frame, fill_frame, push_frame, after_fill,
  fill_frames, flush, assert_empty, whole_frames, after_partial, complete_partial, on_process,
}
use libcornrow.Audio.Encoder.Frames.{
  interleaved, IsUsable, sample_bytes, IsWhole, Filled, fill_frame-Filled,
}
use libcornrow.Core.Buffer.{Allocator, Buffer, contents}
use libcornrow.Core.Buffer.Bounds.{IsSound}
use libcornrow.Core.Node.{Node}
use native.Mathlib.Nat.{mul-le-mul_right}
use mathlib.Core.Option

module _ {W : Type 0} (av : Libav W) (a : Allocator) (next : List (Node W)) where
  -- Whole samples leave nothing behind.
  nothing_left :
      (c : Context) (conf : AudioConf) (before : List ℕ) (b : Buffer)
      (run : W → Option (AvFrame × Buffer × W)) (enc : Encoded av a next c conf before b.size run)
      → IsWhole c b
      → enc.rest.size ≡ 0
  nothing_left c conf before b run enc whole = elim (Bool-cases (ltb enc.taken whole.0)) [
    | inl fewer ↦
        let more : suc enc.taken * sample_bytes c ≤ whole.0 * sample_bytes c =
          mul-le-mul_right (sample_bytes c) (ground (arith, fewer)) in
        absurd (omega (arith, more, enc.eaten, whole.1, enc.less))
    | inr all ↦
        let at_most : whole.0 * sample_bytes c ≤ enc.taken * sample_bytes c =
          mul-le-mul_right (sample_bytes c) (ground (arith, all)) in
        omega (arith, at_most, enc.eaten, whole.1)
  ]

  still-IsWhole :
      (c : Context) (f : AvFrame) {b : Buffer} (r : Bool × AvFrame × Buffer)
      → Filled c f b r
      → IsWhole c b
      → IsWhole c r.2
  still-IsWhole c f r filled whole = elim (Bool-cases (ltb whole.0 filled.taken)) [
    | inl more ↦
        let over : suc whole.0 * sample_bytes c ≤ filled.taken * sample_bytes c =
          mul-le-mul_right (sample_bytes c) (ground (arith, more)) in
        (0, omega (arith, over, filled.eaten, whole.1))
    | inr enough ↦
        let split : whole.0 ≡ (whole.0 - filled.taken) + filled.taken = ground (arith, enough) in
        (
          whole.0 - filled.taken,
          omega (arith, filled.eaten, whole.1, ap (λ x. x * sample_bytes c) split),
        )
  ]

  -- The assertion holds at the end of a run that leaves nothing.
  assert_empty_lem :
      (e : AudioEncoder) (f : AvFrame) (b : Buffer) (o : Option W)
      → b.size ≡ 0
      → Option.bind (Option.map (λ w'. (f, b, w')) o) (assert_empty av a next e)
        ≡ Option.map
            (λ (s : AvFrame × Buffer × W). (record e { partial_frame = some s.0 }, s.1, s.2))
            (Option.map (λ w'. (f, b, w')) o)
  unfolding assert_empty Option.bind
  assert_empty_lem e f b none h = refl
  assert_empty_lem e f b (some w) h = rw h refl

  whole_frames_lem :
      (c : Context) (e : AudioEncoder) {b : Buffer} (w : W)
      → IsUsable c
      → IsSound b
      → IsWhole c b
      → whole_frames av a next c e b w
        ≡ Option.map
            (λ s. (record e { partial_frame = some s.0 }, s.1, s.2))
            (fill_frames av a next c e.conf (suc (suc b.size)) create_frame b w)
  unfolding whole_frames
  whole_frames_lem c e {b} w u v whole =
      let run = fill_frames av a next c e.conf (suc (suc b.size)) create_frame b in
      let enc = from_new-Encoded av a next c e.conf u v in
      let empty = nothing_left c e.conf (contents b) b run enc whole in
      rw (enc.runs w)
        (assert_empty_lem e enc.last enc.rest (push_all av a next e.conf enc.pushed w) empty)

  after_partial_lem :
      (c : Context) (e : AudioEncoder) (r : Bool × AvFrame × Buffer) (w : W)
      → IsUsable c
      → IsSound r.2
      → IsWhole c r.2
      → after_partial av a next c e r w
        ≡ Option.map
            (λ s. (record e { partial_frame = some s.0 }, s.1, s.2))
            (after_fill av a next e.conf r w
              (λ b' w'. fill_frames av a next c e.conf (suc (suc b'.size)) create_frame b' w'))
  unfolding after_partial after_fill
  after_partial_lem c e (true, f, b) w u v whole =
      bind_ext av a next (push_frame av a next e.conf f w) _ _ _
        (λ x. whole_frames_lem c (record e { partial_frame = none }) x u v whole)
  after_partial_lem c e (false, f, b) w u v whole = refl

  -- What the encoder is after a run of `onProcess` with an unchanged format.
  pub record Processed (c : Context) (e : AudioEncoder) (conf : AudioConf) (b : Buffer)
      (run : W → Option (AudioEncoder × AudioConf × Buffer × W)) : Type 0 where
    pub pushed : List AvFrame
    pub last : AvFrame
    pub rest : Buffer
    pub runs :
        (w : W)
        → run w
          ≡ Option.map
              (λ w'. (record e { partial_frame = some last }, conf, rest, w'))
              (push_all av a next e.conf pushed w)
    pub full : All (λ f. f.nb_samples ≡ c.frame_size) pushed
    pub part : last.nb_samples < c.frame_size
    pub nothing_left_over : rest.size ≡ 0
    pub kept : bytes_of c pushed ++ interleaved c last ≡ held c e.partial_frame ++ contents b

  map-map :
      {A B C : Type 0} (o : Option A) (f : A → B) (g : B → C)
      → Option.map g (Option.map f o) ≡ Option.map (λ x. g (f x)) o
  map-map none f g = refl
  map-map (some x) f g = refl

  process_known :
      (c : Context) (e : AudioEncoder) (conf : AudioConf) (b : Buffer) (w : W)
      → e.context ≡ some c
      → conf_eq e.conf conf ≡ true
      → 0 < b.size
      → on_process av a next conf e b w
        ≡ Option.map
            (λ (s : AudioEncoder × Buffer × W). (s.0, conf, s.1, s.2))
            (complete_partial av a next c e b w)
  unfolding on_process flush Option.bind
  process_known c e conf b w known same h =
      let some_data : (b.size == 0) ≡ false = ground (arith, h) in rw (same, known, some_data) refl

  processed_of :
      (c : Context) (e : AudioEncoder) (conf : AudioConf) {b : Buffer}
      (run : W → Option (AvFrame × Buffer × W))
      → e.context ≡ some c
      → conf_eq e.conf conf ≡ true
      → 0 < b.size
      → ((w : W)
          → complete_partial av a next c e b w
            ≡ Option.map (λ s. (record e { partial_frame = some s.0 }, s.1, s.2)) (run w))
      → (enc : Encoded av a next c e.conf (held c e.partial_frame ++ contents b) b.size run)
      → IsWhole c b
      → Processed c e conf b (on_process av a next conf e b)
  processed_of c e conf {b} run known same h completes enc whole = record {
    pushed = enc.pushed;
    last = enc.last;
    rest = enc.rest;
    runs = λ w.
        process_known c e conf b w known same h
        ∙ ap (Option.map (λ (s : AudioEncoder × Buffer × W). (s.0, conf, s.1, s.2))) (
            completes w
            ∙ ap
                (Option.map
                  (λ (s : AvFrame × Buffer × W). (record e { partial_frame = some s.0 }, s.1, s.2)))
                (enc.runs w)
            ∙ map-map (push_all av a next e.conf enc.pushed w) _ _)
        ∙ map-map (push_all av a next e.conf enc.pushed w) _ _;
    full = enc.full;
    part = enc.part;
    nothing_left_over = empty;
    kept =
        ap (λ x. bytes_of c enc.pushed ++ x)
          (sym (append-nil _) ∙ ap (λ x. interleaved c enc.last ++ x) (sym no_data))
        ∙ enc.kept;
  }
    where
      empty : enc.rest.size ≡ 0
      empty = nothing_left c e.conf (held c e.partial_frame ++ contents b) b run enc whole

      no_data : contents enc.rest ≡ []
      no_data = rw empty refl

  with_partial-Processed :
      (c : Context) (e : AudioEncoder) (conf : AudioConf) {b : Buffer} (o : Option AvFrame)
      → e.partial_frame ≡ o
      → e.context ≡ some c
      → conf_eq e.conf conf ≡ true
      → IsUsable c
      → IsSound b
      → IsWhole c b
      → IsPartial c o
      → 0 < b.size
      → Processed c e conf b (on_process av a next conf e b)
  unfolding complete_partial
  with_partial-Processed c e conf {b} none hit known same u v whole part h =
      processed_of c e conf (fill_frames av a next c e.conf (suc (suc b.size)) create_frame b) known
        same h (λ w. with_none w ∙ whole_frames_lem c e w u v whole)
        (rw hit (from_new-Encoded av a next c e.conf u v)) whole
    where
      with_none : (w : W) → complete_partial av a next c e b w ≡ whole_frames av a next c e b w
      with_none w = rw hit refl
  with_partial-Processed c e conf {b} (some f) hit known same u v whole part h =
      processed_of c e conf (λ w. after_fill av a next e.conf (fill_frame c f b) w more) known same
        h (λ w. rw hit (after_partial_lem c e (fill_frame c f b) w u filled.sound still))
        (rw hit (
          after_fill-Encoded av a next c e.conf f more u v part
            λ b' v' less. from_new-Encoded av a next c e.conf u v'))
        whole
    where
      filled : Filled c f b (fill_frame c f b)
      filled = fill_frame-Filled c f u v part

      still : IsWhole c (fill_frame c f b).2
      still = still-IsWhole c f (fill_frame c f b) filled whole

      more : Buffer → W → Option (AvFrame × Buffer × W)
      more b' w' = fill_frames av a next c e.conf (suc (suc b'.size)) create_frame b' w'

  -- With an unchanged format, a positive frame size, at least one channel and samples of 2 or 4 bytes,
  -- `onProcess` on a sound buffer with data, which are samples of all channels, ends, and loses no sample: nothing
  -- is left in the buffer, so the assertion at the end holds; the frames that it pushes to the encoder are
  -- full, and together with the new partial frame they hold the bytes of the old partial frame and of the
  -- buffer, in this order.
  pub on_process-Processed :
      (c : Context) (e : AudioEncoder) (conf : AudioConf) {b : Buffer}
      → e.context ≡ some c
      → conf_eq e.conf conf ≡ true
      → IsUsable c
      → IsSound b
      → IsWhole c b
      → IsPartial c e.partial_frame
      → 0 < b.size
      → Processed c e conf b (on_process av a next conf e b)
  on_process-Processed c e conf known same u v whole part h =
      with_partial-Processed c e conf e.partial_frame refl known same u v whole part h
