-- ===== src/Audio/Alsa/Runs.antt =====
-- A device, and the theorems on the sink at it. It fails a number of times, then takes one frame at a
-- time.
use libcornrow.Base.{
  ◌==◌, if◌then◌else◌, take, replicate, overwrite, codes, ℕ, zero, suc, ◌-◌, ◌*◌, ◌≤◌, ◌<◌, ◌≡◌,
  refl, sym, ap, ◌∙◌, inl, true, false, some, List, [], ◌∷◌, ◌++◌, append-nil, arith,
}
use libcornrow.Audio.Types.{AudioCodec, SampleRate, AudioConf, conf_of, conf_eq}
use libcornrow.Core.Buffer.{Allocator, Buffer, blank, contents, clear}
use libcornrow.Core.Buffer.Bounds.{IsSound}
use libcornrow.Audio.Alsa.Burst.{IsBurst, do_ac3_payload-IsBurst}
use libcornrow.Audio.Alsa.{Code, Alsa, do_ac3_payload, done, failed}
use libcornrow.Audio.Alsa.Write.{
  after_recover, after_write, write_loop, write_simple, Device, Written, write_simple-Written,
  Willing,
}
use libcornrow.Audio.Alsa.Sink.{AlsaSink, on_process, on_process-Written}
use libcornrow.Audio.Alsa.Recover.{eagain, estrpipe, wait_resume, after_wait, recover_error}
use mathlib.Core.Option

-- What was accepted, and how often the device still fails.
abbrev World : Type 0
World = List ℕ × ℕ

abbrev toy_writei : List ℕ → ℕ → World → Code × World
toy_writei bytes n (got, suc b) = (failed 31, (got, b))
toy_writei bytes zero (got, zero) = (done 0, (got, zero))
toy_writei bytes (suc n) (got, zero) = (done 1, (got ++ take 4 bytes, zero))

abbrev fine : World → Code × World
fine w = (done 0, w)

abbrev toy : Alsa World
toy = record {
  hw_params_any = fine;
  set_access = fine;
  set_format = fine;
  set_channels = λ n w. (done 0, w);
  set_rate_near = λ n w. (done 0, n, w);
  set_period_size_near = λ n w. (done 0, n, w);
  set_buffer_size_near = λ n w. (done 0, w);
  hw_params = fine;
  sw_params_current = fine;
  set_start_threshold = λ n w. (done 0, w);
  set_avail_min = λ n w. (done 0, w);
  sw_params = fine;
  hw_params_current = fine;
  get_buffer_size = λ w. w;
  prepare = λ w. (done 0, w);
  resume = λ w. (done 0, w);
  drain = λ w. w;
  close = λ w. w;
  open_device = λ d w. (done 0, true, w);
  writei = toy_writei;
  recover = λ e w. (done 0, w);
}

-- A device that is not there, and one that has no stereo.
abbrev absent : Alsa World
absent = record toy { open_device = λ d w. (failed 1, false, w) }

abbrev mono : Alsa World
mono = record toy { set_channels = λ n w. (failed 21, w) }

toy_write_done :
    (bytes : List ℕ) (n k : ℕ) (w w' : World)
    → toy_writei bytes n w ≡ (done k, w')
    → (k ≤ n) × (w'.0 ≡ w.0 ++ take (4 * k) bytes) × (w'.1 ≤ w.1)
toy_write_done bytes n k (got, suc b) w' is = let e : failed 31 ≡ done k = ap (λ p. p.0) is in cc e
toy_write_done bytes zero k (got, zero) w' is =
    let e : 0 ≡ k = (let c : done 0 ≡ done k = ap (λ p. p.0) is in cc c) in
    let same : (got, zero) ≡ w' = ap (λ p. p.1) is in
    let nothing : 4 * k ≡ 0 = omega arith in
    (
      omega arith,
      ap (λ p. p.0) (sym same) ∙ rw nothing (sym (append-nil got)),
      omega (arith, ap (λ p. p.1) same),
    )
toy_write_done bytes (suc n) k (got, zero) w' is =
    let e : 1 ≡ k = (let c : done 1 ≡ done k = ap (λ p. p.0) is in cc c) in
    let same : (got ++ take 4 bytes, zero) ≡ w' = ap (λ p. p.1) is in
    let four : 4 * k ≡ 4 = omega arith in
    (omega arith, ap (λ p. p.0) (sym same) ∙ rw four refl, omega (arith, ap (λ p. p.1) same))

toy_write_failed :
    (bytes : List ℕ) (n e : ℕ) (w w' : World)
    → toy_writei bytes n w ≡ (failed e, w')
    → (w'.0 ≡ w.0) × (w'.1 < w.1)
toy_write_failed bytes n e (got, suc b) w' is =
    let same : (got, b) ≡ w' = ap (λ p. p.1) is in
    (ap (λ p. p.0) (sym same), omega (arith, ap (λ p. p.1) same))
toy_write_failed bytes zero e (got, zero) w' is =
    let c : done 0 ≡ failed e = ap (λ p. p.0) is in cc c
toy_write_failed bytes (suc n) e (got, zero) w' is =
    let c : done 1 ≡ failed e = ap (λ p. p.0) is in cc c

toy_recover_done :
    (e k : ℕ) (w w' : World)
    → Path (Code × World) (done 0, w) (done k, w')
    → (k ≡ 0) × (w'.0 ≡ w.0) × (w'.1 ≤ w.1)
toy_recover_done e k w w' is =
    let same : w ≡ w' = ap (λ p. p.1) is in
    let z : 0 ≡ k = (let c : done 0 ≡ done k = ap (λ p. p.0) is in cc c) in
    (sym z, ap (λ p. p.0) (sym same), omega (arith, ap (λ p. p.1) same))

abbrev toy_device : Device toy
toy_device = record {
  accepted = λ w. w.0;
  budget = λ w. w.1;
  write_done = toy_write_done;
  write_failed = toy_write_failed;
  recover_done = λ e k w w1 is. toy_recover_done e k w w1 is;
  recover_failed = λ e e' w w' is. (let c : done 0 ≡ failed e' = ap (λ p. p.0) is in cc c);
}

-- Two frames, behind one failure
writes :
    write_simple toy 9 (1 ∷ 2 ∷ 3 ∷ 4 ∷ 5 ∷ 6 ∷ 7 ∷ 8 ∷ 9 ∷ []) ([], 1)
    ≡ some (0, (1 ∷ 2 ∷ 3 ∷ 4 ∷ 5 ∷ 6 ∷ 7 ∷ 8 ∷ [], 0))
unfolding write_simple write_loop after_write after_recover
writes = refl

abbrev exact : Allocator
exact = record { growth = λ c n. n; growth_enough = λ c n. omega arith }

-- An AC-3 frame of five bytes in front of which eight are free: its bytes are swapped in pairs, the last
-- one with the byte behind it, and the storage is the frame.
abbrev frame : Buffer
frame = record blank {
  buffer = replicate 8 0 ++ (11 ∷ 119 ∷ 21 ∷ 22 ∷ 23 ∷ 15 ∷ 0 ∷ 0 ∷ []);
  reserved = 4;
  offset = 8;
  size = 5;
}

payloads :
    Option.map contents (do_ac3_payload exact frame)
    ≡ some (0x72 ∷ 0xf8 ∷ 0x1f ∷ 0x4e ∷ 1 ∷ 7 ∷ 40 ∷ 0 ∷ 119 ∷ 11 ∷ 22 ∷ 21 ∷ 15 ∷ 23 ∷ 0 ∷ 0 ∷ [])
unfolding do_ac3_payload overwrite
payloads = refl

-- A frame of six bytes behind eight
abbrev even_frame : Buffer
even_frame = record blank {
  buffer = replicate 8 0 ++ (11 ∷ 119 ∷ 21 ∷ 22 ∷ 23 ∷ 15 ∷ 0 ∷ 0 ∷ []);
  reserved = 4;
  offset = 8;
  size = 6;
}

even_frame-IsSound : IsSound even_frame
even_frame-IsSound = record {
  whole = refl;
  inside = omega arith;
  small = omega arith;
  backed = omega arith;
}

do_ac3_payload-IsBurst_example :
    (c : Buffer) × (do_ac3_payload exact even_frame ≡ some c) × IsBurst even_frame c
do_ac3_payload-IsBurst_example =
    do_ac3_payload-IsBurst exact even_frame-IsSound (inl refl) (omega arith) (omega arith) refl

abbrev pcm : AudioConf
pcm = conf_of AudioCodec.raw_int16 SampleRate.rate44100 2

abbrev closed : AlsaSink
closed = record { is_open = false; device = codes "hw:0"; conf = pcm }

abbrev sample : Buffer
sample = record blank { buffer = 1 ∷ 2 ∷ 3 ∷ 4 ∷ 5 ∷ 6 ∷ 7 ∷ 8 ∷ []; reserved = 2; size = 8 }

write_simple-Written_example :
    Written toy toy_device
      (1 ∷ 2 ∷ 3 ∷ 4 ∷ 5 ∷ [])
      1
      ([], 1)
      (write_simple toy 3 (1 ∷ 2 ∷ 3 ∷ 4 ∷ 5 ∷ []) ([], 1))
write_simple-Written_example =
    write_simple-Written toy toy_device 3 (1 ∷ 2 ∷ 3 ∷ 4 ∷ 5 ∷ []) ([], 1) (omega arith)

toy_accepts :
    (bytes : List ℕ) (n k : ℕ) (w w' : World) → toy_writei bytes (suc n) w ≡ (done k, w') → 0 < k
toy_accepts bytes n k (got, suc b) w' is = let e : failed 31 ≡ done k = ap (λ p. p.0) is in cc e
toy_accepts bytes n k (got, zero) w' is =
    let e : 1 ≡ k = (let c : done 1 ≡ done k = ap (λ p. p.0) is in cc c) in omega arith

toy-Willing : Willing toy
toy-Willing = record {
  accepts = toy_accepts;
  recovers = λ e e' w w' is. (let c : done 0 ≡ failed e' = ap (λ p. p.0) is in cc c);
}

on_process-Written_example :
    (w' : World) × (on_process toy exact 4 pcm sample (record closed { is_open = true }) ([], 1)
      ≡ some (pcm, clear sample, record closed { is_open = true }, w'))
    × (w'.0 ≡ [] ++ take 8 (contents sample))
on_process-Written_example =
    on_process-Written toy toy_device exact 4 pcm sample (record closed { is_open = true }) ([], 1)
      toy-Willing refl (unfold conf_eq in refl) refl (omega arith) (omega arith)

-- A device that is suspended for that many seconds more
abbrev suspended : Alsa ℕ
suspended = record {
  hw_params_any = quiet;
  set_access = quiet;
  set_format = quiet;
  set_channels = λ n w. (done 0, w);
  set_rate_near = λ n w. (done 0, n, w);
  set_period_size_near = λ n w. (done 0, n, w);
  set_buffer_size_near = λ n w. (done 0, w);
  hw_params = quiet;
  sw_params_current = quiet;
  set_start_threshold = λ n w. (done 0, w);
  set_avail_min = λ n w. (done 0, w);
  sw_params = quiet;
  hw_params_current = quiet;
  get_buffer_size = λ w. w;
  prepare = quiet;
  resume = λ w. (if w == 0 then done 0 else failed eagain, w);
  drain = λ w. w;
  close = λ w. w;
  open_device = λ d w. (done 0, true, w);
  writei = λ bytes n w. (done n, w);
  recover = λ e w. (done 0, w);
}
  where
    quiet : ℕ → Code × ℕ
    quiet w = (done 0, w)

-- Two seconds take three rounds.
resumes : recover_error suspended (λ w. w - 1) 3 estrpipe 2 ≡ some (true, 0)
unfolding recover_error wait_resume after_wait
resumes = refl
