-- ===== src/Rtsp/Server/Cycle.antt =====
-- Which operation is outstanding after any run of the server.
use libcornrow.Rtsp.Headers.{Regex}
use libcornrow.Base.{
  length, length-append, ℕ, ◌≤◌, ◌≡◌, refl, sym, ap, ap₂, subst, ◌∙◌, true, false, List, [], ◌∷◌,
  ◌++◌, arith,
}
use libcornrow.Rtsp.Message.{RtspMessageHandler}
use libcornrow.Rtsp.Server.{
  complete, Operation, Server, Event, operation_of, do_accept, do_receive, do_send, new_server,
  on_accepted, on_received, on_sent, handle, Step,
}

-- The runs of a new server, with their events, the last one first.
pub data Run {W : Type 0} (rx : Regex) (h : RtspMessageHandler W) (address : ℕ) (w : W)
    : List Event → Server W → Type 0 where
  start : Run rx h address w [] (new_server w)
  next :
      {es : List Event} {e : Event} {s s' : Server W}
      → Run rx h address w es s
      → Step rx h address e s s'
      → Run rx h address w (e ∷ es) s'

-- What is outstanding, by the last event alone.
unfoldable pub expected : List Event → List Operation
expected [] = Operation.accept ∷ []
expected (Event.accepted true ∷ es) = Operation.accept ∷ []
expected (Event.accepted false ∷ es) = Operation.receive ∷ []
expected (Event.received true bytes ∷ es) = Operation.accept ∷ []
expected (Event.received false bytes ∷ es) = Operation.send ∷ []
expected (Event.sent true ∷ es) = []
expected (Event.sent false ∷ es) = Operation.receive ∷ []

one_at_most : (es : List Event) → length (expected es) ≤ 1
unfolding expected
one_at_most [] = omega arith
one_at_most (Event.accepted true ∷ es) = omega arith
one_at_most (Event.accepted false ∷ es) = omega arith
one_at_most (Event.received true bytes ∷ es) = omega arith
one_at_most (Event.received false bytes ∷ es) = omega arith
one_at_most (Event.sent true ∷ es) = omega arith
one_at_most (Event.sent false ∷ es) = omega arith

empty_list : {A : Type 0} (xs : List A) → length xs ≡ 0 → xs ≡ []
empty_list [] h = refl
empty_list (x ∷ xs) h = absurd (omega arith)

alone :
    (es : List Event) (before after : List Operation) (op : Operation)
    → expected es ≡ before ++ op ∷ after
    → (before ≡ []) × (after ≡ [])
alone es before after op e =
    let few : length (before ++ op ∷ after) ≤ 1 = subst (λ xs. length xs ≤ 1) e (one_at_most es) in
    let sum = length-append before (op ∷ after) in
    (empty_list before (omega arith), empty_list after (omega arith))

module _ {W : Type 0} (rx : Regex) (h : RtspMessageHandler W) (address : ℕ) where
  handle-expected :
      (e : Event) (es : List Event) (s : Server W)
      → s.outstanding ≡ []
      → (handle rx h address e s).outstanding ≡ expected (e ∷ es)
  unfolding handle expected on_accepted on_received on_sent do_accept do_receive do_send
  handle-expected (Event.accepted true) es s none_left =
      ap (λ xs. xs ++ Operation.accept ∷ []) none_left
  handle-expected (Event.accepted false) es s none_left =
      ap (λ xs. xs ++ Operation.receive ∷ []) none_left
  handle-expected (Event.received true bytes) es s none_left =
      ap (λ xs. xs ++ Operation.accept ∷ []) none_left
  handle-expected (Event.received false bytes) es s none_left =
      ap (λ xs. xs ++ Operation.send ∷ []) none_left
  handle-expected (Event.sent true) es s none_left = none_left
  handle-expected (Event.sent false) es s none_left =
      ap (λ xs. xs ++ Operation.receive ∷ []) none_left

  -- In every run the operations that are outstanding are told by the last event alone: an accept after
  -- the start or an error of an accept or a receive, a receive after a connection or a response, a send
  -- after a request, and none after an error of a send.
  pub Run-outstanding :
      {w : W} {es : List Event} {s : Server W}
      → Run rx h address w es s
      → s.outstanding ≡ expected es
  Run-outstanding start = unfold new_server expected do_accept in refl
  Run-outstanding (next {es = es} r (complete e before after s is)) =
      let (b, a) = alone es before after (operation_of e) (sym (Run-outstanding r) ∙ is) in
      handle-expected e es _ (ap₂ ◌++◌ b a)

  -- The event that comes next in a run completes the one operation that is outstanding: a request is
  -- answered before the next one is received, and a connection is over before the next is accepted.
  pub Run-next :
      {w : W} {es : List Event} {e : Event} {s s' : Server W}
      → Run rx h address w es s
      → Step rx h address e s s'
      → expected es ≡ operation_of e ∷ []
  Run-next {es = es} r (complete e before after s is) =
      let whole = sym (Run-outstanding r) ∙ is in
      let (b, a) = alone es before after (operation_of e) whole in
      whole ∙ ap₂ (λ xs ys. xs ++ operation_of e ∷ ys) b a

  -- After an error of a send the server has stopped for good: it neither receives nor accepts.
  pub Run-dead :
      {w : W} {es : List Event} {s : Server W}
      → Run rx h address w (Event.sent true ∷ es) s
      → (e : Event) (s' : Server W) → ¬ Step rx h address e s s'
  Run-dead r e s' step =
      let n : Path (List Operation) [] (operation_of e ∷ []) = unfold expected in Run-next r step in
      cc n
