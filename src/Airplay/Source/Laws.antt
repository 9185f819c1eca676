-- ===== src/Airplay/Source/Laws.antt =====
-- What becomes of a packet on its way through the chain.
use libcornrow.Base.{
  length, drop, ℕ, ◌+◌, ◌%◌, ◌^◌, ◌≤◌, ◌<◌, ◌≡◌, refl, sym, ap, subst, ◌∙◌, some, List, [], ◌∷◌,
  arith,
}
use libcornrow.Core.Buffer.{Allocator, Buffer, contents, capacity}
use libcornrow.Core.Buffer.Bounds.{IsSound, HasSlack, IsAligned}
use libcornrow.Core.Buffer.Contents.{length-contents}
use libcornrow.Core.Pool.{Entry}
use libcornrow.Core.Node.{Buffers, end_chain, process}
use libcornrow.Core.Node.Laws.{process_step}
use libcornrow.Core.AppSink.{app_sink_node}
use libcornrow.Rtp.Decoder.Payload.{rtp_size}
use libcornrow.Airplay.Decrypter.{OpenSsl}
use libcornrow.Airplay.Decrypter.Laws.{KeepsLength}
use libcornrow.Audio.Decoder.{LibavDecoder, to_coro}
use libcornrow.Audio.Decoder.Laws.{
  sample_bytes, interleaved_long, with_conf-IsSound, take_frame_interleaved, samples,
}
use libcornrow.Airplay.Source.{
  State, receiver_node, decoder_node, buffers, on_sink_process, sink, chain,
}
use libcornrow.Airplay.Source.Stages.{decrypted, Decrypted-roomy}
use libcornrow.Airplay.Source.Steps.{
  alac_conf, Arrived, valid_of, tracked, apply_decoder, apply-sink, CutBy-ends, tuned, frame_of,
  Plays, decoder_runs, Unlocked, unlock,
}

-- The payload of a packet, decrypted
abbrev pub payload : {K L V : Type 0} → OpenSsl K → State K L V → List ℕ → List ℕ
payload ssl s packet = decrypted ssl s.decrypter (drop (rtp_size packet) packet)

module _ {K L V : Type 0} (ssl : OpenSsl K) (av : LibavDecoder L) (a : Allocator) (pool : Buffers V)
    (me : ℕ) where
  -- The state of the nodes after a packet, the application apart
  abbrev pub played : Entry → State K L V → State K L V
  played e s =
      let x = payload ssl s (contents e.object) in
      record (tracked e s) { decoder = (tuned av a s).0; libav = (frame_of av a s x).1 }

  payload_of :
      {e : Entry} {s : State K L V}
      → (u : Unlocked ssl av a pool me e s) → contents u.after ≡ payload ssl s (contents e.object)
  payload_of {e} {s} u = u.plain.plain ∙ ap (decrypted ssl s.decrypter) u.cut.cut

  -- From the decoder on, with room for the next region
  decoded :
      (e : Entry) (s : State K L V) (c : Buffer)
      → Plays av a s (contents c)
      → IsSound c
      → HasSlack c
      → IsAligned c
      → c.offset + c.size < 2 ^ 60
      → let f = (frame_of av a s (contents c)).0 in
        (q : Entry) × (process
            (buffers pool me)
            (decoder_node av a)
            (app_sink_node (sink pool me) ∷ [])
            (record e { object = record c { audio_conf = alac_conf } })
            (some s)
          ≡ end_chain (buffers pool me) (capacity q.object) (
              on_sink_process pool me q (
                some (record s {
                  decoder = (tuned av a s).0;
                  libav = (frame_of av a s (contents c)).1;
                }))))
        × (contents q.object ≡ samples f)
        × (q.object.audio_conf.rate ≡ to_coro f.sample_rate)
        × (q.address ≡ e.address)
  unfolding process
  decoded e s c plays v slack al small =
      let (f, l) = frame_of av a s (contents c) in
      let (b, taken, whole, w, rate, known) =
        take_frame_interleaved a f plays.full plays.known (with_conf-IsSound alac_conf v) slack al
          (omega (arith, small, plays.small)) in
      let q : Entry = record e { object = b } in
      let long = interleaved_long (sample_bytes f.format) f plays.full.unpadded plays.full.planes in
      let count : length (contents b) ≡ length (samples f) = ap length whole in
      let full : 0 < b.size = omega (arith, length-contents w, count, long, plays.some_samples) in
      (
        q,
        process_step (buffers pool me) (decoder_node av a) (app_sink_node (sink pool me)) []
              (record e { object = record c { audio_conf = alac_conf } }) (some s)
              (apply_decoder av a (record e { object = record c { audio_conf = alac_conf } }) s
                (decoder_runs av a s c plays.opens taken))
              (valid_of b full)
            ∙ ap (end_chain (buffers pool me) (capacity b))
                (apply-sink pool me q (some (record s { decoder = (tuned av a s).0; libav = l }))),
        whole,
        rate,
        refl,
      )

  tracked-Plays :
      (e : Entry) (s : State K L V) {x : List ℕ} → Plays av a s x → Plays av a (tracked e s) x
  tracked-Plays e s p = record {
    opens = p.opens;
    full = p.full;
    known = p.known;
    some_samples = p.some_samples;
    small = p.small;
  }

  -- A packet with room for itself behind it (three bytes more) and a size in whole elements, whose payload decodes to a
  -- frame, reaches the sink as the samples of that frame: the callback pushes a buffer with exactly these, in the
  -- frame's rate, into the source, and the receiver gets back what the callback leaves, emptied.
  pub process-samples :
      (e : Entry) (s : State K L V)
      → KeepsLength ssl
      → length s.decrypter.iv ≡ 16
      → Arrived e.object
      → e.object.size % 4 ≡ 0
      → e.object.offset + e.object.size + e.object.size + 3 ≤ length e.object.buffer
      → length e.object.buffer < 2 ^ 60
      → Plays av a s (payload ssl s (contents e.object))
      → let f = (frame_of av a s (payload ssl s (contents e.object))).0 in
        (q : Entry) × (process (buffers pool me) receiver_node (chain ssl av a pool me) e (some s)
          ≡ end_chain
              (buffers pool me)
              (capacity q.object)
              (on_sink_process pool me q (some (played e s))))
        × (contents q.object ≡ samples f)
        × (q.object.audio_conf.rate ≡ to_coro f.sample_rate)
        × (q.address ≡ e.address)
  process-samples e s keeps sixteen v whole room bound plays =
      let u = unlock ssl av a pool me e s keeps sixteen v in
      let n = rtp_size (contents e.object) in
      let four : n % 4 ≡ 0 = unfold rtp_size in omega arith in
      let ends = CutBy-ends n u.cut in
      let size = u.cut.size in
      let long = u.cut.long in
      let (slack, al, inside) =
        Decrypted-roomy ssl a s.decrypter u.plain u.cut.sound (omega (arith, v.aligned, ends))
          (omega (arith, size, four, whole)) (omega (arith, ends, size, long, room)) in
      let e' = payload_of u in
      subst
        (λ x.
          let f = (frame_of av a s x).0 in
          (q : Entry) × (process (buffers pool me) receiver_node (chain ssl av a pool me) e (some s)
            ≡ end_chain (buffers pool me) (capacity q.object) (
                on_sink_process pool me q (
                  some (record (tracked e s) {
                    decoder = (tuned av a s).0;
                    libav = (frame_of av a s x).1;
                  }))))
          × (contents q.object ≡ samples f)
          × (q.object.audio_conf.rate ≡ to_coro f.sample_rate)
          × (q.address ≡ e.address))
        e'
        (let (q, way, whole', rate, place) =
            decoded e (tracked e s) u.after
              (tracked-Plays e s (subst (Plays av a s) (sym e') plays)) u.plain.sound slack al
              (omega (arith, inside, long, bound)) in
          (q, u.way ∙ way, whole', rate, place))
