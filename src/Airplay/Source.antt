-- ===== src/Airplay/Source.antt =====
-- src/airplay/AirplaySource.cpp, AirplaySourcePrivate.cpp and its header, and Airplay2SourcePrivate.cpp, which builds
-- the same: the chain from the receiver of RTP packets to the sink whose callbacks push into the source itself.
pub mod Stages
pub mod Steps
pub mod Laws
mod Runs
use libcornrow.Base.{Text, codes, ℕ, ◌≡◌, refl, false, Option, none, some, List, [], ◌∷◌, ◌++◌}
use libcornrow.Audio.Types.{AudioCodec, SampleRate, AudioConf, conf_of}
use libcornrow.Audio.Types.Channels.{stereo}
use libcornrow.Audio.Decoder.{LibavDecoder, AudioDecoder, on_process}
use libcornrow.Core.Buffer.{Allocator, Buffer}
use libcornrow.Core.Pool.{Entry}
use libcornrow.Core.Node.{Node, Buffers}
use libcornrow.Core.Source.{push_config}
use libcornrow.Core.Selector.{System, start, stop, push_buffer}
use libcornrow.Core.AppSink.{
  ProcessCallback, AppSink, new_app_sink, set_start_callback, set_stop_callback,
  set_process_callback, app_sink_node,
}
use libcornrow.Rtp.Decoder.{RtpDecoder, on_stop}
use libcornrow.Airplay.Decrypter.{OpenSsl, AirplayDecrypter}
use libcornrow.ZeroConf.{TxtRecords, ZeroConfService}
use mathlib.Core.Option
use libcornrow.Audio.Decoder as Audio
use libcornrow.Rtp.Decoder as Rtp
use libcornrow.Airplay.Decrypter as Crypt

-- The nodes' state, libav's, and the sources of the application, of which this one is number `me`.
pub record State (K L V : Type 0) : Type 0 where
  pub rtp_decoder : RtpDecoder
  pub decrypter : AirplayDecrypter K
  pub decoder : AudioDecoder
  pub libav : L
  pub app : System V

-- `none` once a node has written out of a buffer's storage, or used a decoder that is not open.
abbrev pub World : Type 0 → Type 0 → Type 0 → Type 0
World K L V = Option (State K L V)

-- The map of `txtRecords`, in the order of its keys
abbrev pub txt_records : TxtRecords
txt_records =
    (codes "ch", codes "2")
    ∷ (codes "cn", codes "0,1")
    ∷ (codes "ek", codes "1")
    ∷ (codes "et", codes "0,1")
    ∷ (codes "pw", codes "false")
    ∷ (codes "sm", codes "false")
    ∷ (codes "sr", codes "44100")
    ∷ (codes "ss", codes "16")
    ∷ (codes "tp", codes "UDP")
    ∷ (codes "txtvers", codes "1")
    ∷ (codes "vn", codes "3")
    ∷ []

-- What is registered for a source of this name, with the port of the RTSP server
unfoldable pub service : Text → ℕ → ZeroConfService
service name port = record {
  name = codes "010203040506@" ++ name;
  type_of = codes "_raop._tcp";
  port = port;
  txt_records = txt_records;
}

module _ {K L V : Type 0} where
  -- The receiver as the first node of its chain, which changes nothing
  unfoldable pub receiver_node : Node (World K L V)
  receiver_node = record {
    is_bypassed = false;
    on_start = λ w. w;
    on_stop = λ w. w;
    on_config = λ c w. w;
    on_process = λ e w. (some e, w);
    on_process_conf = λ c b w. (c, b, w);
  }

  unfoldable pub rtp_node : Node (World K L V)
  unfolding Rtp.on_process Rtp.on_stop
  rtp_node = record {
    is_bypassed = false;
    on_start = λ w. w;
    on_stop = Option.map λ (s : State K L V). record s { rtp_decoder = Rtp.on_stop s.rtp_decoder };
    on_config = λ c w. w;
    on_process = λ e w. (some e, w);
    on_process_conf = λ c b w. elim w [
      | none ↦ (c, b, none)
      | some s ↦
          let r = Rtp.on_process AudioCodec.alac s.rtp_decoder b in
          (r.conf, r.buffer, some (record s { rtp_decoder = r.decoder }))
    ];
  }

-- What a call that may write out of the storage leaves of the world
module _ {K L V : Type 0} where
  abbrev pub after_decrypter :
      AudioConf
      → Buffer
      → State K L V
      → Option (AudioConf × Buffer)
      → AudioConf × Buffer × World K L V
  after_decrypter c b s none = (c, b, none)
  after_decrypter c b s (some (c', b')) = (c', b', some s)

  abbrev pub after_decoder :
      Entry → State K L V → Option (AudioDecoder × Buffer × L) → Option Entry × World K L V
  after_decoder e s none = (some e, none)
  after_decoder e s (some (d, b, l)) =
      (some (record e { object = b }), some (record s { decoder = d; libav = l }))

  abbrev pub after_push :
      Entry → State K L V → Option (Entry × System V) → Option Entry × World K L V
  after_push e s none = (some e, none)
  after_push e s (some (e', app)) = (some e', some (record s { app = app }))

module _ {K L V : Type 0} (ssl : OpenSsl K) (a : Allocator) where
  unfoldable pub decrypter_node : Node (World K L V)
  unfolding Crypt.on_process
  decrypter_node = record {
    is_bypassed = false;
    on_start = λ w. w;
    on_stop = λ w. w;
    on_config = λ c w. w;
    on_process = λ e w. (some e, w);
    on_process_conf = λ c b w. elim w [
      | none ↦ (c, b, none)
      | some s ↦ after_decrypter c b s (Crypt.on_process ssl a s.decrypter b)
    ];
  }

module _ {K L V : Type 0} (av : LibavDecoder L) (a : Allocator) where
  unfoldable pub decoder_node : Node (World K L V)
  unfolding Audio.on_process
  decoder_node = record {
    is_bypassed = false;
    on_start = λ w. w;
    on_stop = λ w. w;
    on_config = λ c w. w;
    on_process = λ e w. elim w [
      | none ↦ (some e, none)
      | some s ↦ after_decoder e s (Audio.on_process av a s.decoder e.object s.libav)
    ];
    on_process_conf = λ c b w. (c, b, w);
  }

module _ {K L V : Type 0} (pool : Buffers V) (me : ℕ) where
  -- `Buffer::create` for the nodes of this chain: the pool is that of the application.
  unfoldable pub create : ℕ → World K L V → Option (Entry × World K L V)
  create n none = none
  create n (some s) =
      Option.map (λ r. (r.0, some (record s { app = record s.app { world = r.1 } })))
        (pool.create n s.app.world)

  abbrev pub IsGoodWorld : World K L V → Type 0
  IsGoodWorld none = ⊥
  IsGoodWorld (some s) = pool.IsGood s.app.world

  pub create_empty :
      (n : ℕ) (w : World K L V)
      → IsGoodWorld w
      → (r : Entry × World K L V) × (create n w ≡ some r) × (r.0.object.size ≡ 0) × IsGoodWorld r.1
  unfolding create
  create_empty n none g = absurd g
  create_empty n (some s) g =
      let (r, e, z, g') = pool.create_empty n s.app.world g in
      ((r.0, some (record s { app = record s.app { world = r.1 } })), rw e refl, z, g')

  abbrev pub buffers : Buffers (World K L V)
  buffers = record { create = create; IsGood = IsGoodWorld; create_empty = create_empty }

  -- The start callback: `pushConfig`, then `start`
  unfoldable pub on_sink_start : World K L V → World K L V
  unfolding push_config start
  on_sink_start = Option.map λ (s : State K L V).
      let conf = conf_of AudioCodec.raw_int16 SampleRate.rate44100 stereo in
      record s {
        app =
            start me
              (record s.app { world = push_config (s.app.source me).chain conf s.app.world });
      }

  unfoldable pub on_sink_stop : World K L V → World K L V
  unfolding stop
  on_sink_stop = Option.map λ (s : State K L V). record s { app = stop me s.app }

  -- The process callback: `pushBuffer` of the source itself
  unfoldable pub on_sink_process : ProcessCallback (World K L V)
  unfolding push_buffer
  on_sink_process e none = (some e, none)
  on_sink_process e (some s) = after_push e s (push_buffer pool me e s.app)

  -- The sink as the constructor of `AirplaySource` leaves it
  unfoldable pub sink : AppSink (World K L V)
  unfolding on_sink_start on_sink_stop on_sink_process set_start_callback set_stop_callback
      set_process_callback
  sink =
      set_stop_callback on_sink_stop
        (set_process_callback on_sink_process (set_start_callback on_sink_start new_app_sink))

module _ {K L V : Type 0} (ssl : OpenSsl K) (av : LibavDecoder L) (a : Allocator) (pool : Buffers V)
    (me : ℕ) where
  -- The nodes behind the receiver, as `Node::link` joins them
  unfoldable pub chain : List (Node (World K L V))
  unfolding rtp_node decrypter_node decoder_node app_sink_node sink
  chain = rtp_node ∷ decrypter_node ssl a ∷ decoder_node av a ∷ app_sink_node (sink pool me) ∷ []
