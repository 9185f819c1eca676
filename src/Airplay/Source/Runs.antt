-- ===== src/Airplay/Source/Runs.antt =====
-- A packet of 28 bytes through the chain, with a cipher that changes nothing and a codec that takes whatever it gets
-- for a frame of eight samples for each of two channels.
use libcornrow.Base.{replicate, ℕ, ◌≡◌, refl, false, some, List, [], ◌∷◌, ◌++◌, arith}
use libcornrow.Audio.Types.{conf_eq}
use libcornrow.Core.Buffer.{Allocator, words, blank, contents, capacity}
use libcornrow.Core.Pool.{Entry, Pool}
use libcornrow.Core.Node.{Node, end_chain, process}
use libcornrow.Core.Node.Pooled.{pooled}
use libcornrow.Core.Source.{new_source}
use libcornrow.Core.Selector.{System}
use libcornrow.Rtp.Decoder.{on_process, on_stop}
use libcornrow.Rtp.Decoder.Payload.{rtp_size}
use libcornrow.Audio.Decoder.{SampleFormat, DecodedFrame, LibavDecoder, to_coro, update_conf}
use libcornrow.Audio.Decoder.Laws.{samples}
use libcornrow.Airplay.Decrypter.{OpenSsl}
use libcornrow.Airplay.Source.{State, receiver_node, buffers, on_sink_process, chain}
use libcornrow.Airplay.Source.Steps.{Arrived, Plays}
use libcornrow.Airplay.Source.Laws.{played, process-samples}
use libcornrow.Rtp.Decoder as Rtp
use libcornrow.Audio.Decoder as Audio

abbrev plain : OpenSsl (List ℕ)
plain = record {
  rsa_private_decrypt = λ bytes. some bytes;
  rsa_private_encrypt = λ bytes. bytes;
  aes_set_decrypt_key = λ bytes. bytes;
  aes_cbc_decrypt = λ k iv bytes. bytes;
}

abbrev exact : Allocator
exact = record { growth = λ c n. n; growth_enough = λ c n. omega arith }

abbrev eight_samples : DecodedFrame
eight_samples = record {
  format = SampleFormat.s16p;
  sample_rate = 44100;
  nb_channels = 2;
  nb_samples = 8;
  linesize = 16;
  plane = λ c. replicate 16 c;
}

abbrev codec : LibavDecoder (List ℕ)
codec = record {
  open_codec = λ id bytes l. [];
  send_packet = λ bytes l. bytes;
  receive_frame = λ l. (eight_samples, l);
}

abbrev AppWorld : Type 0
AppWorld = Pool × List ℕ

-- The application keeps what is pushed.
abbrev player : Node AppWorld
player = record {
  is_bypassed = false;
  on_start = λ w. w;
  on_stop = λ w. w;
  on_config = λ c w. w;
  on_process = λ e w. (some e, (w.0, contents e.object));
  on_process_conf = λ c b w. (c, b, w);
}

abbrev app : System AppWorld
app = record {
  source = λ i. new_source player [];
  sources = 0 ∷ [];
  world = (record { buffers = []; next = 1 }, []);
}

abbrev state : State (List ℕ) (List ℕ) AppWorld
state = record {
  rtp_decoder = Rtp.new_decoder;
  decrypter = record { aes_key = []; iv = replicate 16 0 };
  decoder = Audio.new_decoder;
  libav = [];
  app = app;
}

-- The packet in a storage of `28 + n` bytes
abbrev received : ℕ → ℕ → Entry
received n words = record {
  address = 0;
  object = record blank {
    buffer = 128 ∷ 96 ∷ replicate 10 0 ++ (replicate 16 7 ++ replicate n 0);
    reserved = words;
    size = 28;
  };
}

received-Arrived : Arrived (received 36 16).object
received-Arrived = record {
  sound = record { whole = refl; inside = omega arith; small = omega arith; backed = omega arith };
  slack = omega arith;
  aligned = refl;
  packet = record { dynamic = omega arith; payload = unfold rtp_size in omega arith };
  small = omega arith;
}

state-Plays : (x : List ℕ) → Plays codec exact state x
unfolding update_conf conf_eq
state-Plays x = record {
  opens = refl;
  full = record { unpadded = refl; planes = λ c h. refl };
  known = λ e. cc e;
  some_samples = omega arith;
  small = omega arith;
}

process-samples_example :
    (q : Entry) × (process
        (buffers (pooled exact (List ℕ)) 0)
        receiver_node
        (chain plain codec exact (pooled exact (List ℕ)) 0)
        (received 36 16)
        (some state)
      ≡ end_chain (buffers (pooled exact (List ℕ)) 0) (capacity q.object) (
          on_sink_process
            (pooled exact (List ℕ))
            0
            q
            (some (played plain codec exact (pooled exact (List ℕ)) 0 (received 36 16) state))))
    × (contents q.object ≡ samples eight_samples)
    × (q.object.audio_conf.rate ≡ to_coro 44100)
    × (q.address ≡ 0)
process-samples_example =
    process-samples plain codec exact (pooled exact (List ℕ)) 0 (received 36 16) state
      (λ k iv bytes. refl) refl received-Arrived refl (omega arith) (omega arith) (state-Plays _)
