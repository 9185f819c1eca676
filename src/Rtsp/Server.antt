-- ===== src/Rtsp/Server.antt =====
-- src/rtsp/RtspServerPrivate.cpp: the server as a machine that waits for the completion of the
-- asynchronous operations it has started. An error code is a Boolean. `socket.close()` is not
-- modelled: no other operation is outstanding when the server calls it.
pub mod Cycle
mod Runs
use libcornrow.Rtsp.Headers.{Regex}
use libcornrow.Base.{if◌then◌else◌, Text, ℕ, ◌≡◌, Bool, List, [], ◌∷◌, ◌++◌}
use libcornrow.Rtsp.Message.{RtspMessageHandler, respond}

pub data Operation : Type 0 where
  accept receive send : Operation

pub record Server (W : Type 0) : Type 0 where
  pub outstanding : List Operation
  pub send_buffer : Text
  pub world : W

-- The completion of an outstanding operation
pub data Event : Type 0 where
  accepted : Bool → Event
  received : Bool → Text → Event
  sent : Bool → Event

abbrev pub operation_of : Event → Operation
operation_of (Event.accepted error) = Operation.accept
operation_of (Event.received error bytes) = Operation.receive
operation_of (Event.sent error) = Operation.send

module _ {W : Type 0} where
  unfoldable pub do_accept : Server W → Server W
  do_accept s = record s { outstanding = s.outstanding ++ Operation.accept ∷ [] }

  unfoldable pub do_receive : Server W → Server W
  do_receive s = record s { outstanding = s.outstanding ++ Operation.receive ∷ [] }

  unfoldable pub do_send : Text → Server W → Server W
  do_send response s = record s {
    send_buffer = response;
    outstanding = s.outstanding ++ Operation.send ∷ [];
  }

  unfoldable pub new_server : W → Server W
  unfolding do_accept
  new_server w = do_accept (record { outstanding = []; send_buffer = []; world = w })

  unfoldable pub on_accepted : Bool → Server W → Server W
  unfolding do_accept do_receive
  on_accepted error s = if error then do_accept s else do_receive s

  module _ (rx : Regex) (h : RtspMessageHandler W) (address : ℕ) where
    unfoldable pub on_received : Bool → Text → Server W → Server W
    unfolding do_accept do_send
    on_received error bytes s =
        let (response, w) = respond rx h address bytes s.world in
        if error then do_accept s else do_send response (record s { world = w })

    unfoldable pub on_sent : Bool → Server W → Server W
    unfolding do_receive
    on_sent error s = if error then s else do_receive s

    unfoldable pub handle : Event → Server W → Server W
    unfolding on_accepted on_received on_sent
    handle (Event.accepted error) s = on_accepted error s
    handle (Event.received error bytes) s = on_received error bytes s
    handle (Event.sent error) s = on_sent error s

    -- One completion: its operation is outstanding, is so no more, and its handler runs.
    pub data Step : Event → Server W → Server W → Type 0 where
      complete :
          (e : Event) (before after : List Operation) (s : Server W)
          → s.outstanding ≡ before ++ operation_of e ∷ after
          → Step e s (handle e (record s { outstanding = before ++ after }))
