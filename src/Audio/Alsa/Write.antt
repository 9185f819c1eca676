-- ===== src/Audio/Alsa/Write.antt =====
-- `AlsaSink::writeSimple`: the loop, on fuel, and what the device has got when it ends.
use libcornrow.Base.{
  length, take, drop, take_split, ℕ, zero, suc, ◌+◌, ◌-◌, ◌*◌, ◌/◌, ◌%◌, ◌^◌, ◌≤◌, ◌<◌, ◌≡◌, refl,
  sym, ap, ◌∙◌, ◌≢◌, Option, none, some, List, ◌++◌, append-nil, append_assoc, arith,
}
use libcornrow.Audio.Alsa.{Code, Alsa, done, failed}

module _ {W : Type 0} (alsa : Alsa W) where
  -- What the loop does with the number of frames, after a recovery if one was needed.
  unfoldable pub after_recover : Code × W → (ℕ → W → Option (ℕ × W)) → ℕ → Option (ℕ × W)
  after_recover (failed e, w) next frame_count = some (frame_count, w)
  after_recover (done n, w) next frame_count = next n w

  unfoldable pub after_write : Code × W → (ℕ → W → Option (ℕ × W)) → ℕ → Option (ℕ × W)
  unfolding after_recover
  after_write (done zero, w) next frame_count = some (frame_count, w)
  after_write (done (suc n), w) next frame_count = next (suc n) w
  after_write (failed e, w) next frame_count = after_recover (alsa.recover e w) next frame_count

  -- The frames that are left when the loop ends, and the device; `none` if the fuel does not last.
  unfoldable pub write_loop : ℕ → List ℕ → ℕ → W → Option (ℕ × W)
  unfolding after_write
  write_loop zero bytes frame_count w = none
  write_loop (suc fuel) bytes zero w = some (0, w)
  write_loop (suc fuel) bytes (suc left) w =
      after_write (alsa.writei bytes (suc left) w)
        (λ n w'. write_loop fuel (drop (4 * n) bytes) (suc left - n) w') (suc left)

  -- `bytesCount` has 32 bits.
  unfoldable pub write_simple : ℕ → List ℕ → W → Option (ℕ × W)
  unfolding write_loop
  write_simple fuel bytes w = write_loop fuel bytes (length bytes % 2 ^ 32 / 4) w

-- A device that keeps what it accepts. `budget` bounds the writes that fail from a state on; `recover`
-- returns 0 or an error.
pub record Device {W : Type 0} (alsa : Alsa W) : Type 0 where
  pub accepted : W → List ℕ
  pub budget : W → ℕ
  pub write_done :
      (bytes : List ℕ) (n k : ℕ) (w w' : W)
      → alsa.writei bytes n w ≡ (done k, w')
      → (k ≤ n) × (accepted w' ≡ accepted w ++ take (4 * k) bytes) × (budget w' ≤ budget w)
  pub write_failed :
      (bytes : List ℕ) (n e : ℕ) (w w' : W)
      → alsa.writei bytes n w ≡ (failed e, w')
      → (accepted w' ≡ accepted w) × (budget w' < budget w)
  pub recover_done :
      (e k : ℕ) (w w' : W)
      → alsa.recover e w ≡ (done k, w')
      → (k ≡ 0) × (accepted w' ≡ accepted w) × (budget w' ≤ budget w)
  pub recover_failed :
      (e e' : ℕ) (w w' : W) → alsa.recover e w ≡ (failed e', w') → accepted w' ≡ accepted w

module _ {W : Type 0} (alsa : Alsa W) (device : Device alsa) where
  open device use {accepted, budget}

  -- The device has got all frames but those that are left, once and in order.
  pub record Written (bytes : List ℕ) (n : ℕ) (w : W) (r : Option (ℕ × W)) : Type 0 where
    pub left : ℕ
    pub after : W
    pub ends : r ≡ some (left, after)
    pub fewer : left ≤ n
    pub got : accepted after ≡ accepted w ++ take (4 * (n - left)) bytes

  stopped :
      (bytes : List ℕ) (n : ℕ) (w w' : W) {r : Option (ℕ × W)}
      → r ≡ some (n, w')
      → accepted w' ≡ accepted w
      → Written bytes n w r
  stopped bytes n w w' e same =
      let z : 4 * (n - n) ≡ 0 = omega arith in
      record {
        left = n;
        after = w';
        ends = e;
        fewer = omega arith;
        got = same ∙ rw z (sym (append-nil (accepted w)));
      }

  -- The loop goes on behind `k` accepted frames.
  went_on :
      (bytes : List ℕ) (n k : ℕ) (w w' : W) {r : Option (ℕ × W)}
      → k ≤ n
      → accepted w' ≡ accepted w ++ take (4 * k) bytes
      → Written (drop (4 * k) bytes) (n - k) w' r
      → Written bytes n w r
  went_on bytes n k w w' le got v =
      let few = v.fewer in
      let sum : 4 * k + 4 * (n - k - v.left) ≡ 4 * (n - v.left) = omega arith in
      record {
        left = v.left;
        after = v.after;
        ends = v.ends;
        fewer = omega arith;
        got =
            v.got
            ∙ ap (λ xs. xs ++ take (4 * (n - k - v.left)) (drop (4 * k) bytes)) got
            ∙ append_assoc (accepted w) (take (4 * k) bytes) _
            ∙ ap (◌++◌ (accepted w)) (take_split (4 * k) (4 * (n - k - v.left)) bytes)
            ∙ ap (λ m. accepted w ++ take m bytes) sum;
      }

  Goes : ℕ → List ℕ → ℕ → (ℕ → W → Option (ℕ × W)) → Type 0
  Goes fuel bytes n next =
      (k : ℕ) (w : W) → n - k + budget w < fuel → Written (drop (4 * k) bytes) (n - k) w (next k w)

  recovered :
      (fuel : ℕ) (bytes : List ℕ) (n e : ℕ) (w w' : W) (next : ℕ → W → Option (ℕ × W))
      (c : Code × W)
      → alsa.recover e w' ≡ c
      → accepted w' ≡ accepted w
      → n + budget w' < fuel
      → Goes fuel bytes n next
      → Written bytes n w (after_recover alsa c next n)
  unfolding after_recover Goes
  recovered fuel bytes n e w w' next (failed e', w2) is same h go =
      stopped bytes n w w2 refl (device.recover_failed e e' w' w2 is ∙ same)
  recovered fuel bytes n e w w' next (done k, w2) is same h go =
      let (z, kept, less) = device.recover_done e k w' w2 is in
      let nothing : 4 * k ≡ 0 = omega arith in
      went_on bytes n k w w2 (omega arith)
        (kept ∙ same ∙ rw nothing (sym (append-nil (accepted w)))) (go k w2 (omega arith))

  answered :
      (fuel : ℕ) (bytes : List ℕ) (n : ℕ) (w : W) (next : ℕ → W → Option (ℕ × W)) (c : Code × W)
      → alsa.writei bytes n w ≡ c
      → n + budget w < suc fuel
      → Goes fuel bytes n next
      → Written bytes n w (after_write alsa c next n)
  unfolding after_write Goes
  answered fuel bytes n w next (done zero, w') is h go =
      let (le, got, less) = device.write_done bytes n 0 w w' is in
      stopped bytes n w w' refl (got ∙ append-nil (accepted w))
  answered fuel bytes n w next (done (suc k), w') is h go =
      let (le, got, less) = device.write_done bytes n (suc k) w w' is in
      went_on bytes n (suc k) w w' le got (go (suc k) w' (omega arith))
  answered fuel bytes n w next (failed e, w') is h go =
      let (same, less) = device.write_failed bytes n e w w' is in
      recovered fuel bytes n e w w' next (alsa.recover e w') refl same (omega arith) go

  write_loop-Written :
      (fuel : ℕ) (bytes : List ℕ) (n : ℕ) (w : W)
      → n + budget w < fuel
      → Written bytes n w (write_loop alsa fuel bytes n w)
  unfolding write_loop Goes
  write_loop-Written zero bytes n w h = absurd (omega arith)
  write_loop-Written (suc fuel) bytes zero w h = stopped bytes 0 w w refl refl
  write_loop-Written (suc fuel) bytes (suc n) w h =
      answered fuel bytes (suc n) w _ (alsa.writei bytes (suc n) w) refl h
        (λ k w' less. write_loop-Written fuel (drop (4 * k) bytes) (suc n - k) w' less)

  -- With a bound on the writes that fail, the loop ends, and whatever is accepted in parts, fails and is
  -- recovered, the device has got the frames of the bytes that
  -- a 32-bit count tells of once and in order, up to those that are left;
  -- a rest that is no whole frame is not written.
  pub write_simple-Written :
      (fuel : ℕ) (bytes : List ℕ) (w : W)
      → length bytes % 2 ^ 32 / 4 + budget w < fuel
      → Written bytes (length bytes % 2 ^ 32 / 4) w (write_simple alsa fuel bytes w)
  unfolding write_simple
  write_simple-Written fuel bytes w h =
      write_loop-Written fuel bytes (length bytes % 2 ^ 32 / 4) w h

-- A device that accepts a frame at least of those that it is given, and recovers from every error.
pub record Willing {W : Type 0} (alsa : Alsa W) : Type 0 where
  pub accepts :
      (bytes : List ℕ) (n k : ℕ) (w w' : W) → alsa.writei bytes (suc n) w ≡ (done k, w') → 0 < k
  pub recovers : (e e' : ℕ) (w w' : W) → alsa.recover e w ≢ (failed e', w')

module _ {W : Type 0} (alsa : Alsa W) (willing : Willing alsa) where
  Finishes : (ℕ → W → Option (ℕ × W)) → Type 0
  Finishes next = (k : ℕ) (w : W) (left : ℕ) (w' : W) → next k w ≡ some (left, w') → left ≡ 0

  recovered_whole :
      (e n : ℕ) (w : W) (next : ℕ → W → Option (ℕ × W)) (c : Code × W) {left : ℕ} {w' : W}
      → alsa.recover e w ≡ c
      → Finishes next
      → after_recover alsa c next n ≡ some (left, w')
      → left ≡ 0
  unfolding after_recover Finishes
  recovered_whole e n w next (failed e', w1) is go h = absurd (willing.recovers e e' w w1 is)
  recovered_whole e n w next (done k, w1) {left} {w'} is go h = go k w1 left w' h

  answered_whole :
      (bytes : List ℕ) (n : ℕ) (w : W) (next : ℕ → W → Option (ℕ × W)) (c : Code × W) {left : ℕ}
      {w' : W}
      → alsa.writei bytes (suc n) w ≡ c
      → Finishes next
      → after_write alsa c next (suc n) ≡ some (left, w')
      → left ≡ 0
  unfolding after_write Finishes
  answered_whole bytes n w next (done zero, w1) is go h =
      absurd (omega (arith, willing.accepts bytes n 0 w w1 is))
  answered_whole bytes n w next (done (suc k), w1) {left} {w'} is go h = go (suc k) w1 left w' h
  answered_whole bytes n w next (failed e, w1) is go h =
      recovered_whole e (suc n) w1 next (alsa.recover e w1) refl go h

  -- On such a device no frame is left when the loop ends.
  write_loop_whole :
      (fuel : ℕ) (bytes : List ℕ) (n : ℕ) (w : W) {left : ℕ} {w' : W}
      → write_loop alsa fuel bytes n w ≡ some (left, w')
      → left ≡ 0
  unfolding write_loop Finishes
  write_loop_whole zero bytes n w h = cc h
  write_loop_whole (suc fuel) bytes zero w h = cc h
  write_loop_whole (suc fuel) bytes (suc n) w h =
      answered_whole bytes n w _ (alsa.writei bytes (suc n) w) refl
        (λ k w1 left' w2 e. write_loop_whole fuel (drop (4 * k) bytes) (suc n - k) w1 e) h

  pub write_simple_whole :
      (fuel : ℕ) (bytes : List ℕ) (w : W) {left : ℕ} {w' : W}
      → write_simple alsa fuel bytes w ≡ some (left, w')
      → left ≡ 0
  unfolding write_simple
  write_simple_whole fuel bytes w h = write_loop_whole fuel bytes (length bytes % 2 ^ 32 / 4) w h
