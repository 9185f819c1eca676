-- ===== src/Airplay/Source/Steps.antt =====
-- The nodes of the chain one by one, and the way as far as the decoder.
use libcornrow.Base.{
  if◌then◌else◌, length, ℕ, ◌+◌, ◌*◌, ◌^◌, ◌≤◌, ◌<◌, ◌≡◌, refl, sym, ap, ◌∙◌, ◌≢◌, true, some, List,
  [], ◌∷◌, arith,
}
use libcornrow.Audio.Types.{AudioCodec, SampleRate, AudioConf, conf_of, conf_eq}
use libcornrow.Audio.Types.Channels.{stereo}
use libcornrow.Core.Buffer.{Allocator, Buffer, contents, is_valid}
use libcornrow.Core.Buffer.Bounds.{IsSound, HasSlack, IsAligned}
use libcornrow.Core.Buffer.Contents.{length-contents}
use libcornrow.Core.Pool.{Entry}
use libcornrow.Core.Node.{Buffers, apply, process}
use libcornrow.Core.Node.Laws.{process_step}
use libcornrow.Core.AppSink.{
  set_start_callback, set_stop_callback, set_process_callback, app_sink_node,
}
use libcornrow.Rtp.Decoder.Payload.{rtp_size}
use libcornrow.Airplay.Decrypter.{OpenSsl}
use libcornrow.Airplay.Decrypter.Laws.{KeepsLength}
use libcornrow.Audio.Decoder.{
  SampleFormat, DecodedFrame, LibavDecoder, AudioDecoder, take_frame, update_conf,
}
use libcornrow.Audio.Decoder.Laws.{IsFull, with_conf-IsSound}
use libcornrow.Airplay.Source.{
  State, World, receiver_node, rtp_node, after_decrypter, after_decoder, decrypter_node,
  decoder_node, buffers, on_sink_process, sink, chain,
}
use libcornrow.Airplay.Source.Stages.{
  IsAudioPacket, CutBy, rtp-CutBy, Decrypted, decrypter-Decrypted,
}
use libcornrow.Rtp.Decoder as Rtp
use libcornrow.Airplay.Decrypter as Crypt
use libcornrow.Audio.Decoder as Audio

-- The format that the decrypter announces
abbrev pub alac_conf : AudioConf
alac_conf = conf_of AudioCodec.alac SampleRate.rate44100 stereo

-- A packet in the storage: sound, apart from its neighbours, its end at a multiple of 4
pub record Arrived (b : Buffer) : Type 0 where
  pub sound : IsSound b
  pub slack : HasSlack b
  pub aligned : IsAligned b
  pub packet : IsAudioPacket (contents b)
  pub small : b.offset + b.size + b.size < 2 ^ 61

pub valid_of : (b : Buffer) → 0 < b.size → is_valid b ≡ true
unfolding is_valid
valid_of b h = ground arith

module _ {K L V : Type 0} where
  apply_receiver : (e : Entry) (w : World K L V) → apply receiver_node e w ≡ (some e, w)
  unfolding apply receiver_node
  apply_receiver e w = refl

  -- The buffer behind the RTP decoder
  abbrev pub unpacked : Entry → State K L V → Entry
  unpacked e s =
      let r = Rtp.on_process AudioCodec.alac s.rtp_decoder e.object in
      record e { object = record r.buffer { audio_conf = r.conf } }

  abbrev pub tracked : Entry → State K L V → State K L V
  tracked e s = record s {
    rtp_decoder = (Rtp.on_process AudioCodec.alac s.rtp_decoder e.object).decoder;
  }

  apply_rtp :
      (e : Entry) (s : State K L V)
      → apply rtp_node e (some s) ≡ (some (unpacked e s), some (tracked e s))
  unfolding apply rtp_node
  apply_rtp e s = refl

module _ {K L V : Type 0} (ssl : OpenSsl K) (a : Allocator) where
  apply_decrypter :
      (e : Entry) (s : State K L V) {c : Buffer}
      → Crypt.on_process ssl a s.decrypter e.object ≡ some (alac_conf, c)
      → apply (decrypter_node ssl a) e (some s)
        ≡ (some (record e { object = record c { audio_conf = alac_conf } }), some s)
  unfolding apply decrypter_node
  apply_decrypter e s runs =
      ap
        (λ r.
          let (conf, b, w) = after_decrypter e.object.audio_conf e.object s r in
          (some (record e { object = record b { audio_conf = conf } }), w))
        runs

module _ {K L V : Type 0} (av : LibavDecoder L) (a : Allocator) where
  pub apply_decoder :
      (e : Entry) (s : State K L V) {d : AudioDecoder} {b : Buffer} {l : L}
      → Audio.on_process av a s.decoder e.object s.libav ≡ some (d, b, l)
      → apply (decoder_node av a) e (some s)
        ≡ (some (record e { object = b }), some (record s { decoder = d; libav = l }))
  unfolding apply decoder_node
  apply_decoder e s runs = ap (after_decoder e s) runs

module _ {K L V : Type 0} (pool : Buffers V) (me : ℕ) where
  pub apply-sink :
      (e : Entry) (w : World K L V)
      → apply (app_sink_node (sink pool me)) e w ≡ on_sink_process pool me e w
  unfolding apply app_sink_node sink set_stop_callback set_process_callback set_start_callback
  apply-sink e w = refl

with_conf-CutBy :
    (n : ℕ) (b c : Buffer) (conf : AudioConf)
    → CutBy n b c
    → CutBy n b (record c { audio_conf = conf })
with_conf-CutBy n b c conf t = record {
  cut = t.cut;
  sound = with_conf-IsSound conf t.sound;
  offset = t.offset;
  size = t.size;
  long = t.long;
}

pub CutBy-ends : (n : ℕ) {b c : Buffer} → CutBy n b c → c.offset + c.size ≡ b.offset + b.size
CutBy-ends n t = let e = t.offset in let e' = t.size in omega arith

module _ {K L V : Type 0} (av : LibavDecoder L) (a : Allocator) where
  -- The decoder opened for the format of the decrypter
  abbrev pub tuned : State K L V → AudioDecoder × L
  tuned s =
      if conf_eq s.decoder.conf alac_conf
      then (s.decoder, s.libav)
      else update_conf av a (record s.decoder { conf = alac_conf }) s.libav

  -- What libav makes of a payload
  abbrev pub frame_of : State K L V → List ℕ → DecodedFrame × L
  frame_of s x = av.receive_frame (av.send_packet x (tuned s).1)

  -- A payload that decodes to samples
  pub record Plays (s : State K L V) (x : List ℕ) : Type 0 where
    pub opens : (tuned s).0.is_open ≡ true
    pub full : IsFull (frame_of s x).0
    pub known : (frame_of s x).0.format ≢ SampleFormat.other_format
    pub some_samples : 3 ≤ (frame_of s x).0.linesize * (frame_of s x).0.nb_channels
    pub small : (frame_of s x).0.linesize * (frame_of s x).0.nb_channels < 2 ^ 60

  pub decoder_runs :
      (s : State K L V) (b : Buffer) {c : Buffer}
      → (tuned s).0.is_open ≡ true
      → take_frame a (frame_of s (contents b)).0 (record b { audio_conf = alac_conf }) ≡ some c
      → Audio.on_process av a s.decoder (record b { audio_conf = alac_conf }) s.libav
        ≡ some ((tuned s).0, c, (frame_of s (contents b)).1)
  unfolding Audio.on_process
  decoder_runs s b opens taken = rw (opens, taken) refl

module _ {K L V : Type 0} (ssl : OpenSsl K) (av : LibavDecoder L) (a : Allocator) (pool : Buffers V)
    (me : ℕ) where
  -- As far as the decoder every packet gets through.
  pub record Unlocked (e : Entry) (s : State K L V) : Type 0 where
    pub before : Buffer
    pub after : Buffer
    pub cut : CutBy (rtp_size (contents e.object)) e.object before
    pub plain : Decrypted ssl a s.decrypter before after
    pub way :
        process (buffers pool me) receiver_node (chain ssl av a pool me) e (some s)
        ≡ process
            (buffers pool me)
            (decoder_node av a)
            (app_sink_node (sink pool me) ∷ [])
            (record e { object = record after { audio_conf = alac_conf } })
            (some (tracked e s))

  pub unlock :
      (e : Entry) (s : State K L V)
      → KeepsLength ssl
      → length s.decrypter.iv ≡ 16
      → Arrived e.object
      → Unlocked e s
  unfolding chain
  unlock e s keeps sixteen v =
      let whole = length-contents v.sound in
      let p = v.packet in
      let (conf, t) = rtp-CutBy s.rtp_decoder v.sound p (sym whole) in
      let r = Rtp.on_process AudioCodec.alac s.rtp_decoder e.object in
      let b : Buffer = record r.buffer { audio_conf = r.conf } in
      let cut = with_conf-CutBy (rtp_size (contents e.object)) e.object r.buffer r.conf t in
      let same = CutBy-ends (rtp_size (contents e.object)) cut in
      let size = cut.size in
      let long = cut.long in
      let (c, d) =
        decrypter-Decrypted ssl a s.decrypter keeps sixteen cut.sound
          (omega (arith, v.slack, same, long)) (omega (arith, v.aligned, same))
          (omega (arith, v.small, same, size)) in
      let some_bytes : 0 < b.size = omega (arith, size, whole, p.payload) in
      let some_left : 0 < c.size = omega (arith, some_bytes, d.size) in
      record {
        before = b;
        after = c;
        cut = cut;
        plain = d;
        way =
            process_step (buffers pool me) receiver_node _ _ e (some s) (apply_receiver e (some s))
              (valid_of e.object (omega (arith, size, some_bytes)))
            ∙ process_step (buffers pool me) rtp_node _ _ e (some s) (apply_rtp e s)
                (valid_of b some_bytes)
            ∙ process_step (buffers pool me) (decrypter_node ssl a) _ _ (unpacked e s)
                (some (tracked e s)) (apply_decrypter ssl a (unpacked e s) (tracked e s) d.runs)
                (valid_of (record c { audio_conf = alac_conf }) some_left);
      }
