-- ===== src/Audio/Alsa/Recover.antt =====
-- The member function `recover` of src/audio/AlsaSink.cpp, which nothing calls. `pause` is `sleep(1)`.
use libcornrow.Base.{
  ◌==◌, if◌then◌else◌, Bool-cases, ℕ, zero, suc, ◌≡◌, refl, inl, inr, Bool, true, false, Option,
  none, some,
}
use libcornrow.Audio.Alsa.{Code, Alsa, done, failed}

-- `-EAGAIN`, `-EPIPE` and `-ESTRPIPE` as the numbers of a `failed`
abbrev pub eagain : ℕ
eagain = 10

abbrev pub epipe : ℕ
epipe = 31

abbrev pub estrpipe : ℕ
estrpipe = 85

abbrev pub is_again : Code → Bool
is_again (done n) = false
is_again (failed e) = e == eagain

module _ {W : Type 0} (alsa : Alsa W) (pause : W → W) where
  -- The loop, on fuel
  unfoldable pub wait_resume : ℕ → W → Option (Code × W)
  wait_resume zero w = none
  wait_resume (suc fuel) w =
      let rest = wait_resume fuel (pause ((alsa.resume w).1)) in
      if is_again ((alsa.resume w).0) then rest else some (alsa.resume w)

  -- Whether a call did not fail
  unfoldable pub succeeded : Code × W → Bool × W
  succeeded (done n, w) = (true, w)
  succeeded (failed e, w) = (false, w)

  -- After the wait a stream that does not resume is prepared.
  unfoldable pub after_wait : Code × W → Bool × W
  unfolding succeeded
  after_wait (done n, w) = (true, w)
  after_wait (failed e, w) = succeeded (alsa.prepare w)

  unfoldable pub recover_error : ℕ → ℕ → W → Option (Bool × W)
  unfolding wait_resume succeeded after_wait
  recover_error fuel e w =
      if e == epipe
      then some (succeeded (alsa.prepare w))
      else if e == estrpipe
      then elim (wait_resume fuel w) [ none ↦ none | some r ↦ some (after_wait r) ]
      else some (false, w)

  -- The device after that many refused resumes
  abbrev pub paused : ℕ → W → W
  paused zero w = w
  paused (suc k) w = paused k (pause ((alsa.resume w).1))

  -- Where the device resumes, or fails to for good, after `k` seconds, one round more is enough.
  pub wait_resume_enough :
      (k : ℕ) (w : W)
      → is_again ((alsa.resume (paused k w)).0) ≡ false
      → (r : Code × W) × (wait_resume (suc k) w ≡ some r)
  unfolding wait_resume
  wait_resume_enough zero w over = (alsa.resume w, rw over refl)
  wait_resume_enough (suc k) w over = elim (Bool-cases (is_again ((alsa.resume w).0))) [
    | inl again ↦
        let (r, e) = wait_resume_enough k (pause ((alsa.resume w).1)) over in (r, rw again e)
    | inr ready ↦ (alsa.resume w, rw ready refl)
  ]
