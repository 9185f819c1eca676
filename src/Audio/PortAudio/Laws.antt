-- ===== src/Audio/PortAudio/Laws.antt =====
-- An open stream has the format of the sink's configuration.
use libcornrow.Base.{
  ◌==◌, if◌then◌else◌, if_true, if_false, Bool-cases, Option-cases, ℕ, ◌/◌, ◌≤◌, ◌<◌, ◌≡◌, refl, ap,
  ◌∙◌, ◌≢◌, ◌⊎◌, inl, inr, Bool, true, false, Option, none, some, List, [], ◌∷◌, arith,
}
use libcornrow.Audio.Types.{AudioCodec, codec_size, channel_count, AudioConf, frame_size, conf_eq}
use libcornrow.Core.Buffer.{Buffer, contents}
use libcornrow.Audio.PortAudio.{
  StreamParameters, PortAudio, sample_format, parameters, on_start, on_stop, on_config, on_process,
  invalid_format,
}
use libcornrow.Core.Flags.{Flags}
use mathlib.Core.Option

abbrev pub is_some : Option StreamParameters → Bool
is_some none = false
is_some (some p) = true

-- What PortAudio documents: a stream that opens has a sample format and channels; a call that throws changes nothing;
-- a stream that was opened is not active before it is started, and stopping or closing an active one does not
-- throw.
pub record Documented {W : Type 0} (pa : PortAudio W) : Type 0 where
  pub current : W → Option StreamParameters
  pub active : W → Bool
  pub is_open_current : (w : W) → pa.is_open w ≡ is_some (current w)
  pub open_current :
      (p : StreamParameters) (w : W)
      → current ((pa.open_stream p w).1) ≡ (if (pa.open_stream p w).0 then some p else current w)
  pub open_valid :
      (p : StreamParameters) (w : W)
      → (pa.open_stream p w).0 ≡ true
      → (p.format ≢ invalid_format) × (0 < p.channels)
  pub start_active : (w : W) → (pa.start_stream w).0 ≡ true → active ((pa.start_stream w).1) ≡ true
  pub open_fresh :
      (p : StreamParameters) (w : W)
      → (pa.open_stream p w).0 ≡ true
      → active ((pa.open_stream p w).1) ≡ false
  pub open_active :
      (p : StreamParameters) (w : W)
      → (pa.open_stream p w).0 ≡ false
      → active ((pa.open_stream p w).1) ≡ active w
  pub write_active : (bytes : List ℕ) (n : ℕ) (w : W) → active ((pa.write bytes n w).1) ≡ active w
  pub start_current : (w : W) → current ((pa.start_stream w).1) ≡ current w
  pub stop_current : (w : W) → current ((pa.stop_stream w).1) ≡ current w
  pub stop_works : (w : W) → pa.is_open w ≡ true → active w ≡ true → (pa.stop_stream w).0 ≡ true
  pub close_current : (w : W) → current ((pa.close_stream w).1) ≡ none
  pub write_current :
      (bytes : List ℕ) (n : ℕ) (w : W) → current ((pa.write bytes n w).1) ≡ current w

pub data Event : Type 0 where
  start stop : Event
  config : AudioConf → Event
  buffer : Buffer → Event

module _ {W : Type 0} (pa : PortAudio W) where
  unfoldable pub step : Event → AudioConf × W → Option (AudioConf × W)
  unfolding on_config
  step start (c, w) = some (c, on_start pa c w)
  step stop (c, w) = some (c, on_stop pa w)
  step (config new) (c, w) = some (on_config pa new c w)
  step (buffer b) (c, w) = Option.map (λ w'. (c, w')) (on_process pa b c w)

  unfoldable pub run : List Event → AudioConf × W → Option (AudioConf × W)
  unfolding step Option.bind
  run [] s = some s
  run (e ∷ es) s = Option.bind (step e s) (run es)

channel_count-le : (channels : Flags) → channel_count channels ≤ 6
unfolding channel_count
channel_count-le channels = ground arith

sample_bytes_of :
    (k : AudioCodec) → sample_format k ≢ invalid_format → (codec_size k ≡ 2) ⊎ (codec_size k ≡ 4)
unfolding sample_format codec_size
sample_bytes_of AudioCodec.raw_int16 h = inl refl
sample_bytes_of AudioCodec.raw_float32 h = inr refl
sample_bytes_of _ h = absurd (h refl)

frame_size_pos :
    (c : AudioConf)
    → sample_format c.codec ≢ invalid_format
    → 0 < channel_count c.channels
    → 0 < frame_size c
unfolding frame_size
frame_size_pos c known some_channels =
    let few = channel_count-le c.channels in
    elim (sample_bytes_of c.codec known) [
      | inl two ↦ rw two (omega arith)
      | inr four ↦ rw four (omega arith)
    ]

module _ {W : Type 0} (pa : PortAudio W) (doc : Documented pa) where
  open doc use {current, active}

  -- No start of an open stream that is not active fails.
  abbrev pub Starts : Type 0
  Starts = (w : W) → pa.is_open w ≡ true → active w ≡ false → (pa.start_stream w).0 ≡ true

  -- No stream is open, or an active one with the parameters of the configuration, which has frames of some bytes.
  abbrev pub Matches : AudioConf × W → Type 0
  Matches (c, w) =
      (current w ≡ none)
      ⊎ ((current w ≡ some (parameters c)) × (active w ≡ true) × (0 < frame_size c))

  on_start-Matches :
      Starts → (c : AudioConf) (w : W) → Matches (c, w) → Matches (c, on_start pa c w)
  unfolding on_start
  on_start-Matches starts c w m =
      let now = doc.open_current (parameters c) w in
      elim (Bool-cases ((pa.open_stream (parameters c) w).0)) [
        | inl ok ↦
            let w1 = (pa.open_stream (parameters c) w).1 in
            let is : current w1 ≡ some (parameters c) = now ∙ if_true _ _ ok in
            let goes : (pa.start_stream w1).0 ≡ true =
              starts w1 (doc.is_open_current w1 ∙ ap is_some is)
                (doc.open_fresh (parameters c) w ok) in
            let (known, channels) = doc.open_valid (parameters c) w ok in
            rw ok (
              inr (
                doc.start_current _ ∙ is,
                doc.start_active w1 goes,
                frame_size_pos c (unfold parameters in known) (unfold parameters in channels),
              ))
        | inr failed ↦
            let same = now ∙ if_false _ _ failed in
            rw failed (elim m [
              | inl shut ↦ inl (same ∙ shut)
              | inr (is, act, pos) ↦
                  inr (same ∙ is, doc.open_active (parameters c) w failed ∙ act, pos)
            ])
      ]

  open_of : (w : W) → pa.is_open w ≡ false → current w ≡ none
  open_of w down = elim (Option-cases (current w)) [
    | inl shut ↦ shut
    | inr (p, is) ↦ let h = doc.is_open_current w in absurd (cc (h, down, ap is_some is))
  ]

  -- After `onStop` no stream is open.
  on_stop_closes : (c : AudioConf) (w : W) → Matches (c, w) → current (on_stop pa w) ≡ none
  unfolding on_stop
  on_stop_closes c w m = elim (Bool-cases (pa.is_open w)) [
    | inl up ↦ elim m [
      | inl shut ↦ let h = doc.is_open_current w in absurd (cc (h, up, ap is_some shut))
      | inr (is, act, pos) ↦ rw (up, doc.stop_works w up act) (doc.close_current _)
    ]
    | inr down ↦ rw down (open_of w down)
  ]

  on_config-Matches :
      Starts → (new c : AudioConf) (w : W) → Matches (c, w) → Matches (on_config pa new c w)
  unfolding on_config
  on_config-Matches starts new c w m = elim (Bool-cases (conf_eq c new)) [
    | inl same ↦ rw same m
    | inr other ↦ elim (Bool-cases (pa.is_open w)) [
      | inl up ↦
          rw (other, up) (on_start-Matches starts new (on_stop pa w) (inl (on_stop_closes c w m)))
      | inr down ↦ rw (other, down) (inl (open_of w down))
    ]
  ]

  on_process-Matches :
      (b : Buffer) (c : AudioConf) (w : W)
      → Matches (c, w)
      → (w' : W) × (on_process pa b c w ≡ some w') × Matches (c, w')
  unfolding on_process
  on_process-Matches b c w m = elim (Bool-cases (pa.is_open w)) [
    | inr down ↦ (w, rw down refl, m)
    | inl up ↦ elim m [
      | inl shut ↦ let h = doc.is_open_current w in absurd (cc (h, up, ap is_some shut))
      | inr (is, act, pos) ↦
          let some_bytes : (frame_size c == 0) ≡ false = ground (arith, pos) in
          (
            (pa.write (contents b) (b.size / frame_size c) w).1,
            rw (up, some_bytes) refl,
            inr (doc.write_current _ _ w ∙ is, doc.write_active _ _ w ∙ act, pos),
          )
    ]
  ]

  step-Matches :
      Starts
      → (e : Event) (s : AudioConf × W) → Matches s
      → (r : AudioConf × W) × (step pa e s ≡ some r) × Matches r
  unfolding step
  step-Matches starts start (c, w) m = ((c, on_start pa c w), refl, on_start-Matches starts c w m)
  step-Matches starts stop (c, w) m = ((c, on_stop pa w), refl, inl (on_stop_closes c w m))
  step-Matches starts (config new) (c, w) m =
      (on_config pa new c w, refl, on_config-Matches starts new c w m)
  step-Matches starts (buffer b) (c, w) m =
      let (w', e, m') = on_process-Matches b c w m in ((c, w'), rw e refl, m')

  -- Over PortAudio as documented, as long as no stream that was opened fails to start: whatever sequence of starts, stops, configurations and buffers reaches a sink without
  -- an open stream: no call divides by zero, and a stream that is open afterwards has the channels, the sample format
  -- and the rate of the sink's configuration.
  pub run-Matches :
      Starts
      → (es : List Event) (s : AudioConf × W) → Matches s
      → (r : AudioConf × W) × (run pa es s ≡ some r) × Matches r
  unfolding run
  run-Matches starts [] s m = (s, refl, m)
  run-Matches starts (e ∷ es) s m =
      let (s', now, m') = step-Matches starts e s m in
      let (r, later, m'') = run-Matches starts es s' m' in (r, rw (now, Option.bind) later, m'')
