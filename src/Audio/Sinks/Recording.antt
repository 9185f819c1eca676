-- ===== src/Audio/Sinks/Recording.antt =====
-- What the file sink promises: a file holds what came since it was opened.
use libcornrow.Base.{
  if◌then◌else◌, Bool-cases, Text, text_eq, text_eq_refl, ℕ, ◌≡◌, refl, ap, ◌∙◌, ◌⊎◌, inl, inr,
  Bool, Option, none, some, List, [], ◌∷◌, ◌++◌,
}
use libcornrow.Core.Buffer.{Buffer, contents}
use libcornrow.Audio.Sinks.{
  Disk, put, FileSink, write, on_stop, on_start, set_file_name, on_process,
}
use mathlib.Core.Option

pub data Event : Type 0 where
  start stop : Event
  set_name : Text → Event
  process : Buffer → Event

-- The name to record under, and what was taken since the recording began
pub record Recording : Type 0 where
  pub name : Text
  pub taken : Option (List ℕ)

module _ (opens : Text → Bool) where
  unfoldable pub step : Event → FileSink × Disk → FileSink × Disk
  step start (s, d) = on_start opens s d
  step stop (s, d) = (on_stop s, d)
  step (set_name name) (s, d) = set_file_name opens name s d
  step (process b) (s, d) = (let (b', s', d') = on_process opens b s d in (s', d'))

  unfoldable pub run : List Event → FileSink × Disk → FileSink × Disk
  unfolding step
  run [] x = x
  run (e ∷ es) x = run es (step e x)

  abbrev pub begin : Text → Option (List ℕ)
  begin name = if opens name then some [] else none

  -- What is recorded, without a file
  unfoldable pub record_step : Event → Recording → Recording
  record_step start r = record r { taken = begin r.name }
  record_step stop r = record r { taken = none }
  record_step (set_name name) r =
      if text_eq r.name name
      then r
      else record { name = name; taken = elim r.taken [ none ↦ none | some _ ↦ begin name ] }
  record_step (process b) r = record r {
    taken =
        Option.map (λ bytes. bytes ++ contents b)
          (elim r.taken [ none ↦ begin r.name | some bytes ↦ some bytes ]);
  }

  unfoldable pub record_run : List Event → Recording → Recording
  unfolding record_step
  record_run [] r = r
  record_run (e ∷ es) r = record_run es (record_step e r)

-- The sink and the disk hold the recording: the file of its name is open and has the bytes, or none is open.
abbrev pub Held : Recording → FileSink × Disk → Type 0
Held r (s, d) =
    (s.file_name ≡ r.name)
    × (((r.taken ≡ none) × (s.file ≡ none))
        ⊎ ((bytes : List ℕ) × (r.taken ≡ some bytes)
            × (s.file ≡ some r.name)
            × (d r.name ≡ some bytes)))

put_same : (n : Text) (bytes : List ℕ) (d : Disk) → put n bytes d n ≡ some bytes
put_same n bytes d = rw (text_eq_refl n) refl

write-put :
    (n : Text) (old bytes : List ℕ) (d : Disk)
    → d n ≡ some old
    → write bytes (some n) d ≡ put n (old ++ bytes) d
unfolding write
write-put n old bytes d has = rw (has, write) refl

module _ (opens : Text → Bool) where
  on_start-Held :
      (r : Recording) (s : FileSink) (d : Disk)
      → s.file_name ≡ r.name
      → Held (record_step opens start r) (on_start opens s d)
  unfolding record_step on_start on_stop
  on_start-Held r s d same = elim (Bool-cases (opens r.name)) [
    | inl good ↦ rw (same, good) (refl, inr ([], refl, refl, put_same r.name [] d))
    | inr bad ↦ rw (same, bad) (refl, inl (refl, refl))
  ]

  write-Held :
      (r : Recording) (s : FileSink) (d : Disk) (bytes : List ℕ)
      → Held r (s, d)
      → Held
          (record r { taken = Option.map (λ old. old ++ bytes) r.taken })
          (s, write bytes s.file d)
  unfolding write
  write-Held r s d bytes (same, inl (idle, shut)) = rw (idle, shut) (same, inl (refl, refl))
  write-Held r s d bytes (same, inr (old, taken, is_open, has)) =
      rw (taken, is_open)
        (
          same,
          inr (
            old ++ bytes,
            refl,
            refl,
            ap (λ f. f r.name) (write-put r.name old bytes d has)
                ∙ put_same r.name (old ++ bytes) d,
          ),
        )

  step-Held :
      (e : Event) (r : Recording) (x : FileSink × Disk)
      → Held r x
      → Held (record_step opens e r) (step opens e x)
  unfolding step record_step on_stop set_file_name on_process
  step-Held start r (s, d) (same, held) = on_start-Held r s d same
  step-Held stop r (s, d) (same, held) = (same, inl (refl, refl))
  step-Held (set_name name) r (s, d) (same, held) = elim (Bool-cases (text_eq r.name name)) [
    | inl kept ↦ rw (same, kept) (refl, held)
    | inr other ↦ elim held [
      | inl (idle, shut) ↦ rw (same, other, idle, shut) (refl, inl (refl, shut))
      | inr (old, taken, is_open, has) ↦
          rw (same, other, taken, is_open)
            (on_start-Held (record { name = name; taken = some old })
              (record { file_name = name; file = some r.name }) d refl)
    ]
  ]
  step-Held (process b) r (s, d) (same, inl (idle, shut)) =
      let begun = on_start-Held r s d same in rw (idle, shut) (write-Held _ _ _ (contents b) begun)
  step-Held (process b) r (s, d) (same, inr h) =
      let (old, taken, is_open, has) = h in
      rw (taken, is_open)
        (write-Held (record r { taken = some old }) s d (contents b)
          (same, inr (old, refl, is_open, has)))

  -- Whatever sequence of starts, stops, changes of the name and buffers reaches the sink: where it and the disk hold the
  -- recording at first, they hold it afterwards. A recording begins at a start, a change of the name or a buffer
  -- that comes while none runs, takes the data of each buffer, and ends at a stop or where the name does not open.
  pub run-Held :
      (es : List Event) (r : Recording) (x : FileSink × Disk)
      → Held r x
      → Held (record_run opens es r) (run opens es x)
  unfolding run record_run
  run-Held [] r x held = held
  run-Held (e ∷ es) r x held = run-Held es _ _ (step-Held e r x held)
