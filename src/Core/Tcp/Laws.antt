-- ===== src/Core/Tcp/Laws.antt =====
-- What a server gets of a buffer.
use libcornrow.Base.{
  ◌==◌, Bool-cases, Option-cases, length, take, take_all, Text, ℕ, zero, suc, ◌<◌, ◌≡◌, refl, sym,
  ap, ◌∙◌, ◌⊎◌, inl, inr, Bool, true, false, not, ◌||◌, some, List, ◌++◌, append-nil, arith,
}
use libcornrow.Core.Buffer.{Buffer, contents}
use libcornrow.Core.Tcp.{
  Net, TcpClientSink, wait, connected, set_deadline, connect_async, write_all, after_connect,
  on_process,
}

-- What the sink relies on: `write` sends bytes in order, and all of them unless it gives an error; closing sends
-- nothing; resolving and writing leave the socket open or closed as it is; and `close` closes it. A round of the main
-- loop may do anything, also send.
pub record IsHonest {W : Type 0} (net : Net W) : Type 0 where
  pub sent : W → List ℕ
  pub resolve_open :
      (h : Text) (p : ℕ) (w : W) → net.is_open ((net.resolve h p w).1) ≡ net.is_open w
  pub close_sent : (w : W) → sent (net.close w) ≡ sent w
  pub close_closes : (w : W) → net.is_open (net.close w) ≡ false
  pub write_sent :
      (bytes : List ℕ) (w : W)
      → sent ((net.write bytes w).2) ≡ sent w ++ take ((net.write bytes w).0) bytes
  pub write_whole :
      (bytes : List ℕ) (w : W) → (net.write bytes w).1 ≡ 0 → (net.write bytes w).0 ≡ length bytes
  pub write_open : (bytes : List ℕ) (w : W) → net.is_open ((net.write bytes w).2) ≡ net.is_open w

module _ {W : Type 0} (net : Net W) where
  -- The main loop after `k` rounds
  abbrev pub rounds : ℕ → W → W
  rounds zero w = w
  rounds (suc k) w = rounds k ((net.run_one w).1)

  -- The operation that is waited for completes in one of the first `n` rounds.
  abbrev pub Completes : ℕ → W → Type 0
  Completes n w = (k : ℕ) × (ec : ℕ) × (k < n) × ((net.run_one (rounds k w)).0 ≡ some ec)

  wait_ends : (n : ℕ) (w : W) → Completes n w → (r : ℕ × W) × (wait net n w ≡ some r)
  unfolding wait
  wait_ends zero w (k, ec, less, e) = absurd (omega arith)
  wait_ends (suc n) w (zero, ec, less, e) = ((ec, (net.run_one w).1), rw (e, wait) refl)
  wait_ends (suc n) w (suc k, ec, less, e) = elim (Option-cases ((net.run_one w).0)) [
    | inl idle ↦
        let (r, ends) = wait_ends n ((net.run_one w).1) (k, ec, omega arith, e) in
        (r, rw (idle, wait) ends)
    | inr (c, done) ↦ ((c, (net.run_one w).1), rw (done, wait) refl)
  ]

module _ {W : Type 0} (net : Net W) (honest : IsHonest net) where
  open honest use {sent}

  -- From `w` on, the whole buffer is sent and the socket open; or the socket is closed, and a prefix is sent.
  abbrev pub Sent : Buffer → W → W → Type 0
  Sent b w w' =
      ((net.is_open w' ≡ true) × (sent w' ≡ sent w ++ contents b))
      ⊎ ((net.is_open w' ≡ false) × (k : ℕ) × (sent w' ≡ sent w ++ take k (contents b)))

  write_all-Sent : (b : Buffer) (w : W) → net.is_open w ≡ true → Sent b w (write_all net b w)
  unfolding write_all
  write_all-Sent b w open_ =
      let r = net.write (contents b) w in
      elim (Bool-cases (r.1 == 0)) [
        | inl fine ↦
            let n = honest.write_whole (contents b) w (ground (arith, fine)) in
            rw fine (
              inl (
                honest.write_open (contents b) w ∙ open_,
                honest.write_sent (contents b) w
                    ∙ ap (λ x. sent w ++ x) (take_all _ (contents b) (omega (arith, n))),
              ))
        | inr bad ↦ rw bad (
            inr
              (honest.close_closes _, r.0, honest.close_sent _ ∙ honest.write_sent (contents b) w))
      ]

  connected_open : (r : ℕ × W) → net.is_open ((connected net r).1) ≡ (connected net r).0
  unfolding connected
  connected_open (ec, w) = elim (Bool-cases (not (ec == 0) || not (net.is_open w))) [
    | inl bad ↦ rw bad (honest.close_closes w)
    | inr fine ↦ rw fine (ground (arith, fine))
  ]

  -- `connectAsync` says whether the socket is open.
  connect_async_open :
      (fuel timeout : ℕ) (s : TcpClientSink) (w : W)
      → net.is_open w ≡ false
      → ((endpoints : List ℕ) (w' : W) → Completes net fuel (net.start_connect endpoints w'))
      → (r : Bool × TcpClientSink × W) × (connect_async net fuel timeout s w ≡ some r)
        × (net.is_open (r.2) ≡ r.0)
  unfolding connect_async
  connect_async_open fuel timeout s w shut ends =
      let w' = (net.resolve s.host s.port w).1 in
      elim (Option-cases ((net.resolve s.host s.port w).0)) [
        | inl lost ↦ ((false, s, w'), rw lost refl, honest.resolve_open s.host s.port w ∙ shut)
        | inr (eps, found) ↦
            let (r, done) = wait_ends net fuel (net.start_connect eps w') (ends eps w') in
            (
              ((connected net r).0, set_deadline net timeout s w', (connected net r).1),
              rw (found, done) refl,
              connected_open r,
            )
      ]

  after_connect-Sent :
      (b : Buffer) (r : Bool × TcpClientSink × W)
      → net.is_open (r.2) ≡ r.0
      → Sent b (r.2) ((after_connect net b r).1)
  unfolding after_connect
  after_connect-Sent b (false, s, w) shut = inr (shut, 0, sym (append-nil (sent w)))
  after_connect-Sent b (true, s, w) open_ = write_all-Sent b w open_

  -- Where a call starts to write: at once on an open socket, and else where `connectAsync` has returned.
  abbrev pub Begins : ℕ → TcpClientSink → W → W → Type 0
  Begins fuel s w w1 =
      ((net.is_open w ≡ true) × (w1 ≡ w))
      ⊎ ((net.is_open w ≡ false)
          × (t : TcpClientSink) × (connect_async net fuel 8 s w ≡ some (net.is_open w1, t, w1)))

  -- Where each connection attempt completes within `fuel` rounds of the main loop, whatever other handlers do in them:
  -- `onProcess` returns, and from where it starts to write the buffer is sent as a whole and the socket is open, or
  -- the socket is closed and no more than a first part of the buffer is sent. It starts at once on an open socket, and
  -- else where `connectAsync` has returned, which tells whether the socket is open.
  pub on_process-Sent :
      (fuel : ℕ) (b : Buffer) (s : TcpClientSink) (w : W)
      → ((endpoints : List ℕ) (w' : W) → Completes net fuel (net.start_connect endpoints w'))
      → (r : TcpClientSink × W) × (w1 : W) × (on_process net fuel b s w ≡ some r)
        × Begins fuel s w w1
        × Sent b w1 (r.1)
  unfolding on_process
  on_process-Sent fuel b s w ends = elim (Bool-cases (net.is_open w)) [
    | inl up ↦ ((s, write_all net b w), w, rw up refl, inl (up, refl), write_all-Sent b w up)
    | inr shut ↦
        let ((ok, t, w1), e, is) = connect_async_open fuel 8 s w shut ends in
        (
          after_connect net b (ok, t, w1),
          w1,
          rw (shut, e) refl,
          inr (shut, t, e ∙ ap (λ (x : Bool). some (x, t, w1)) (sym is)),
          after_connect-Sent b (ok, t, w1) is,
        )
  ]
