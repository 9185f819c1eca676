-- ===== src/Audio/Alsa/Sink.antt =====
-- `AlsaSink` as a node: the handle, the device and the configuration.
use libcornrow.Base.{
  if◌then◌else◌, length, take, Text, text_eq, ℕ, zero, suc, ◌+◌, ◌-◌, ◌*◌, ◌/◌, ◌%◌, ◌^◌, ◌<◌, ◌≡◌,
  refl, ap, ◌∙◌, Bool, true, false, not, Option, none, some, ◌++◌, arith,
}
use libcornrow.Audio.Types.{AudioCodec, rate_to_int, AudioConf, codec_eq, conf_eq}
use libcornrow.Core.Buffer.{Allocator, Buffer, contents, clear}
use libcornrow.Audio.Alsa.{Code, Alsa, set_params2, do_ac3_payload, done, failed}
use libcornrow.Audio.Alsa.Write.{
  write_simple, Device, write_simple-Written, Willing, write_simple_whole,
}
use mathlib.Core.Option

-- `is_open` says that `m_pcm` is not null.
pub record AlsaSink : Type 0 where
  pub is_open : Bool
  pub device : Text
  pub conf : AudioConf

module _ {W : Type 0} (alsa : Alsa W) where
  abbrev pub is_zero : Code → Bool
  is_zero (done zero) = true
  is_zero (done (suc n)) = false
  is_zero (failed e) = false

  -- `openSimple`: whether it succeeds, the handle, and the device's state
  unfoldable pub open_simple : AudioConf → AlsaSink → W → Bool × AlsaSink × W
  open_simple conf s w =
      let (err, handle, w1) = alsa.open_device s.device w in
      let opened = record s { is_open = handle } in
      let (err2, w2) = set_params2 alsa 2 (rate_to_int conf.rate) w1 in
      if s.is_open
      then (false, s, w)
      else if not (is_zero err)
      then (false, opened, w1)
      else if not (is_zero err2)
      then (false, opened, w2)
      else (true, opened, w2)

  after_hw : Code × W → W
  after_hw (failed e, w) = w
  after_hw (done n, w) = (alsa.prepare (alsa.get_buffer_size w)).1

  after_sw : Code × W → W
  after_sw (failed e, w) = w
  after_sw (done n, w) = after_hw (alsa.hw_params_current w)

  -- What `start` does with the open device: it asks for the parameters that it logs, and prepares it.
  unfoldable pub ask : W → W
  unfolding after_sw after_hw
  ask w = after_sw (alsa.sw_params_current w)

  -- `start`; `none` if ALSA is asked for the parameters of a null handle. The result of `openSimple`
  -- is not looked at.
  unfoldable pub start : AudioConf → AlsaSink → W → Option (AlsaSink × W)
  start conf s w =
      let (ok, s1, w1) = open_simple conf s w in if s1.is_open then some (s1, ask w1) else none

  unfoldable pub on_stop : AlsaSink → W → AlsaSink × W
  on_stop s w =
      if s.is_open then (record s { is_open = false }, alsa.close (alsa.drain w)) else (s, w)

  -- `setDevice`
  unfoldable pub set_device : Text → AlsaSink → W → Option (AlsaSink × W)
  unfolding start on_stop
  set_device device s w =
      let (s1, w1) = on_stop (record s { device = device }) w in
      let started = start s.conf s1 w1 in if text_eq device s.device then some (s, w) else started

  -- The first two tests of `onProcess`
  unfoldable pub configure : AudioConf → AlsaSink → W → Option (AlsaSink × W)
  unfolding start on_stop
  configure conf s w =
      let (s1, w1) = on_stop s w in
      let restarted = Option.map (λ r. (record r.0 { conf = conf }, r.1)) (start conf s1 w1) in
      let opened = start conf s w in
      if not (conf_eq s.conf conf) then restarted else if not s.is_open then opened else some (s, w)

  unfoldable pub on_process :
      Allocator → ℕ → AudioConf → Buffer → AlsaSink → W → Option (AudioConf × Buffer × AlsaSink × W)
  unfolding configure Option.bind
  on_process a fuel conf b s w =
      let framed = if codec_eq conf.codec AudioCodec.ac3 then do_ac3_payload a b else some b in
      Option.bind (configure conf s w) λ r. Option.bind framed λ b'.
        Option.map (λ d. (conf, clear b', r.0, d.1)) (write_simple alsa fuel (contents b') r.1)

  -- A device that cannot be opened is fatal: `start` then asks ALSA for the parameters of a null handle.
  pub start_unopened :
      (conf : AudioConf) (s : AlsaSink) (w w' : W) (e : ℕ)
      → s.is_open ≡ false
      → alsa.open_device s.device w ≡ (failed e, false, w')
      → start conf s w ≡ none
  unfolding start open_simple
  start_unopened conf s w w' e closed fails = rw (closed, fails) refl

  -- A sink that starts on a device that opens, with parameters that are refused.
  start_refused :
      (conf : AudioConf) (s : AlsaSink) (w w1 w2 : W) (e : ℕ)
      → s.is_open ≡ false
      → alsa.open_device s.device w ≡ (done 0, true, w1)
      → set_params2 alsa 2 (rate_to_int conf.rate) w1 ≡ (failed e, w2)
      → (w3 : W) × (start conf s w ≡ some (record s { is_open = true }, w3))
  unfolding start open_simple
  start_refused conf s w w1 w2 e closed opens refused = (ask w2, rw (closed, opens, refused) refl)

  configure_open :
      (conf : AudioConf) (s : AlsaSink) (w : W)
      → s.is_open ≡ true
      → conf_eq s.conf conf ≡ true
      → configure conf s w ≡ some (s, w)
  unfolding configure
  configure_open conf s w live same = rw (same, live) refl

  configure_closed :
      (conf : AudioConf) (s : AlsaSink) (w : W)
      → s.is_open ≡ false
      → conf_eq s.conf conf ≡ true
      → configure conf s w ≡ start conf s w
  unfolding configure
  configure_closed conf s w closed same = rw (same, closed) refl

  -- A device that opens and then refuses the parameters stays open: the sink takes it for started, and
  -- does not set the parameters again while the configuration stays the same.
  pub configure_refused :
      (conf : AudioConf) (s : AlsaSink) (w w1 w2 : W) (e : ℕ)
      → s.is_open ≡ false
      → conf_eq s.conf conf ≡ true
      → alsa.open_device s.device w ≡ (done 0, true, w1)
      → set_params2 alsa 2 (rate_to_int conf.rate) w1 ≡ (failed e, w2)
      → (r : AlsaSink × W) × (configure conf s w ≡ some r)
        × (r.0.is_open ≡ true)
        × (configure conf r.0 r.1 ≡ some r)
  configure_refused conf s w w1 w2 e closed same opens refused =
      let (w3, started) = start_refused conf s w w1 w2 e closed opens refused in
      (
        (record s { is_open = true }, w3),
        configure_closed conf s w closed same ∙ started,
        refl,
        configure_open conf (record s { is_open = true }) w3 refl same,
      )

  -- With enough fuel for the writes, a format that is not AC-3, and fewer than 2 ^ 32 bytes, on a sink that is open with
  -- that configuration, and a device that accepts a frame at least of each write that does not fail, and recovers from
  -- all errors: the device gets all whole frames of the buffer, once and in order, the chain gets the buffer back
  -- empty, and the sink stays as it is.
  pub on_process-Written :
      (dev : Device alsa) (a : Allocator) (fuel : ℕ) (conf : AudioConf) (b : Buffer) (s : AlsaSink)
      (w : W)
      → Willing alsa
      → s.is_open ≡ true
      → conf_eq s.conf conf ≡ true
      → codec_eq conf.codec AudioCodec.ac3 ≡ false
      → length (contents b) < 2 ^ 32
      → length (contents b) / 4 + dev.budget w < fuel
      → (w' : W) × (on_process a fuel conf b s w ≡ some (conf, clear b, s, w'))
        × (dev.accepted w' ≡ dev.accepted w ++ take (length (contents b) / 4 * 4) (contents b))
  unfolding on_process Option.bind
  on_process-Written dev a fuel conf b s w willing live same plain small enough =
      let count : length (contents b) % 2 ^ 32 ≡ length (contents b) = omega arith in
      let v = write_simple-Written alsa dev fuel (contents b) w (omega arith) in
      let ready = configure_open conf s w live same in
      let none_left = write_simple_whole alsa willing fuel (contents b) w v.ends in
      let all : 4 * (length (contents b) % 2 ^ 32 / 4 - v.left) ≡ length (contents b) / 4 * 4 =
        omega (arith, count, none_left) in
      (
        v.after,
        rw (plain, ready, v.ends) refl,
        v.got ∙ ap (λ k. dev.accepted w ++ take k (contents b)) all,
      )
