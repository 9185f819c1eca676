-- ===== src/Audio/Encoder/Packets.antt =====
-- What the encoder hands to the next node, and what its stop does.
use libcornrow.Base.{◌==◌, length, ◌^◌, ◌<◌, ◌≡◌, refl, true, ◌||◌, some, List, [], ◌∷◌, arith}
use libcornrow.Audio.Types.{AudioCodec, AudioConf, codec_eq}
use libcornrow.Audio.Encoder.{AvFrame, Libav, hand_packet, push_frame, on_stop}
use libcornrow.Core.Buffer.{Allocator, Buffer, resize, new_buffer, contents}
use libcornrow.Core.Buffer.Bounds.{IsSound, new_buffer-IsSound, HasSlack, IsAligned}
use libcornrow.Core.Buffer.Contents.{contents-produce}
use libcornrow.Core.Node.{Node, process_conf}

turned_away :
    (a : Allocator) (conf : AudioConf)
    → codec_eq conf.codec AudioCodec.invalid || ((new_buffer a 0).size == 0) ≡ true
turned_away a conf =
    let e : (new_buffer a 0).size ≡ 0 = (new_buffer-IsSound a 0 (omega arith)).2 in
    ground (arith, e)

fresh_room : (a : Allocator) → HasSlack (new_buffer a 16332) × IsAligned (new_buffer a 16332)
fresh_room a =
    let room = (new_buffer-IsSound a 16332 (omega arith)).1 in
    let off : (new_buffer a 16332).offset ≡ 0 = unfold new_buffer resize in refl in
    let none_yet : (new_buffer a 16332).size ≡ 0 = (new_buffer-IsSound a 16332 (omega arith)).2 in
    (omega (arith, room, off, none_yet), omega (arith, off, none_yet))

module _ {W : Type 0} where
  -- The encoder's `onStop` is meant to flush: it processes an empty buffer. But `Node::process` turns
  -- an empty buffer away, so whatever node the encoder is and whatever is behind it, `onStop` changes
  -- nothing: a partial frame is not sent, and the encoder is not drained.
  pub on_stop_keeps :
      (a : Allocator) (n : Node W) (rest : List (Node W)) (conf : AudioConf) (w : W)
      → on_stop a n rest conf w ≡ w
  unfolding on_stop process_conf
  on_stop_keeps a n [] conf w = rw (on_stop, turned_away a conf) refl
  on_stop_keeps a n (m ∷ rest) conf w = rw (on_stop, turned_away a conf) refl

  -- A frame that is pushed reaches libav, and the packet that libav returns, up to 2 ^ 60 bytes, is
  -- handed on whole, as the contents of a sound buffer: no write leaves the storage.
  pub push_frame-hand_packet :
      (av : Libav W) (a : Allocator) (next : List (Node W)) (conf : AudioConf) (f : AvFrame) (w : W)
      → length (av.receive_packet (av.send_frame (some f) w)).0 < 2 ^ 60
      → (b : Buffer) × (contents b ≡ (av.receive_packet (av.send_frame (some f) w)).0)
        × IsSound b
        × (push_frame av a next conf f w
            ≡ some (
                hand_packet av a next
                  (record conf { codec = AudioCodec.ac3 })
                  b
                  (av.receive_packet (av.send_frame (some f) w)).1))
  unfolding push_frame new_buffer resize
  push_frame-hand_packet av a next conf f w h =
      let packet = (av.receive_packet (av.send_frame (some f) w)).0 in
      let fresh = new_buffer-IsSound a 16332 (omega arith) in
      let made =
        contents-produce a (length packet) packet fresh.0 (fresh_room a).0 (fresh_room a).1
          (omega arith) (omega arith) in
      (made.0, made.2, made.3, rw made.1 refl)
