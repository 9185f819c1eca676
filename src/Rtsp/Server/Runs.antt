-- ===== src/Rtsp/Server/Runs.antt =====
-- A run of the server, and the theorems on runs at it.
use libcornrow.Rtsp.Headers.{Regex}
use libcornrow.Base.{Text, codes, ◌≡◌, refl, true, false, none, List, [], ◌∷◌}
use libcornrow.Rtsp.Message.{RtspMessageHandler, base_handler, respond}
use libcornrow.Rtsp.Server.{
  complete, Operation, Server, Event, do_accept, do_receive, do_send, new_server, on_accepted,
  on_received, on_sent, handle, Step,
}
use libcornrow.Rtsp.Server.Cycle.{start, next, Run, expected, Run-outstanding, Run-dead}

abbrev no_regex : Regex
no_regex = record { search = λ p s. none }

abbrev base : RtspMessageHandler Unit
base = base_handler

abbrev waiting : Server Unit
waiting = record { outstanding = Operation.accept ∷ []; send_buffer = []; world = tt }

-- A client connects, sends a request, and is gone before the response is sent.
abbrev request : Text
request = codes "OPTIONS"

abbrev gone : List Event
gone = Event.sent true ∷ Event.received false request ∷ Event.accepted false ∷ []

abbrev connected : Server Unit
connected = record waiting { outstanding = Operation.receive ∷ [] }

abbrev answering : Server Unit
answering = record {
  outstanding = Operation.send ∷ [];
  send_buffer = (respond no_regex base 0 request tt).0;
  world = tt;
}

Run-connected : Run no_regex base 0 tt (Event.accepted false ∷ []) connected
unfolding new_server handle on_accepted do_accept do_receive
Run-connected = next start (complete (Event.accepted false) [] [] waiting refl)

Run-answering :
    Run no_regex base 0 tt (Event.received false request ∷ Event.accepted false ∷ []) answering
unfolding handle on_received do_send
Run-answering = next Run-connected (complete (Event.received false request) [] [] connected refl)

Step-sent : Step no_regex base 0 (Event.sent true) answering (record answering { outstanding = [] })
unfolding handle on_sent
Step-sent = complete (Event.sent true) [] [] answering refl

Run-gone : Run no_regex base 0 tt gone (record answering { outstanding = [] })
Run-gone = next Run-answering Step-sent

Run-outstanding_example :
    answering.outstanding ≡ expected (Event.received false request ∷ Event.accepted false ∷ [])
Run-outstanding_example = Run-outstanding no_regex base 0 Run-answering

Run-dead_run :
    ¬ Step no_regex base 0 (Event.accepted false) (record answering { outstanding = [] }) waiting
Run-dead_run = Run-dead no_regex base 0 Run-gone (Event.accepted false) waiting
