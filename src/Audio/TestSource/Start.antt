-- ===== src/Audio/TestSource/Start.antt =====
-- How a start of the test source ends.
use libcornrow.Base.{
  ◌==◌, if_true, if_false, Bool-cases, All, ℕ, zero, suc, ◌≡◌, refl, ap, ◌∙◌, inl, inr, true, false,
  some, List, ◌∷◌, arith,
}
use libcornrow.Core.Pool.{Entry}
use libcornrow.Core.Node.{Node, Buffers}
use libcornrow.Core.Node.Laws.{Keeps, process-Returned}
use libcornrow.Core.Source.{Source, start_chain, stop_chain}
use libcornrow.Core.Selector.{System, update, set_ready, stop}
use libcornrow.Core.Selector.Flags.{started, set_flag, set_flag_lem, set_ready-flags}
use libcornrow.Audio.TestSource.{AudioTestSource, process_times, on_start, start_test}
use mathlib.Core.Option

stop-started : {W : Type 0} (k : ℕ) (sys : System W) → started (stop k sys) k ≡ false
unfolding stop
stop-started {W} k sys = elim (Bool-cases (sys.source k).has_callback) [
  | inl set ↦ (set_ready-flags k false halted k (called ∙ set)).0 ∙ ground (arith, down, hit)
  | inr unset ↦
      let same : set_ready k false halted ≡ set_flag k false halted =
        unfold set_ready in if_false _ _ (called ∙ unset) in
      ap (λ s. started s k) same ∙ (set_flag_lem k false halted k).0 ∙ down
]
  where
    halted : System W
    halted = record (update k (record (sys.source k) { is_started = false }) sys) {
      world = stop_chain ((sys.source k).node ∷ (sys.source k).chain) sys.world;
    }

    hit : (k == k) ≡ true
    hit = ground arith

    called : (halted.source k).has_callback ≡ (sys.source k).has_callback
    called = ap (λ (s : Source W). s.has_callback) (if_true _ _ hit)

    down : started halted k ≡ false
    down = ap (λ (s : Source W). s.is_started) (if_true _ _ hit)

module _ {W : Type 0} (pool : Buffers W) (me : ℕ) where
  open pool use {IsGood}

  process_times-Returned :
      (n : Node W) (chain : List (Node W)) (k : ℕ) (e : Entry) (w : W)
      → Keeps pool n
      → All (Keeps pool) chain
      → IsGood w
      → (r : Entry × W) × (process_times pool n chain k e w ≡ some r) × IsGood (r.1)
  unfolding process_times Option.bind
  process_times-Returned n chain zero e w kn kc g = ((e, w), refl, g)
  process_times-Returned n chain (suc k) e w kn kc g =
      let (r, now, size, g') = process-Returned pool n chain e w kn kc g in
      let (r', later, g'') = process_times-Returned n chain k (r.0) (r.1) kn kc g' in
      (r', rw now later, g'')

  stop_world :
      (k : ℕ) (sys : System W)
      → (sys.source k).has_callback ≡ false
      → (stop k sys).world ≡ stop_chain ((sys.source k).node ∷ (sys.source k).chain) sys.world
  unfolding stop set_ready
  stop_world k sys unset = let hit : (k == k) ≡ true = ground arith in rw (hit, unset) refl

  on_start-stop :
      (u : AudioTestSource) (sys : System W) {e : Entry} {w : W}
      → process_times pool
          (sys.source me).node
          (sys.source me).chain
          u.num_buffers
          u.buffer
          sys.world
        ≡ some (e, w)
      → on_start pool me u sys ≡ some (record u { buffer = e }, stop me (record sys { world = w }))
  unfolding on_start
  on_start-stop u sys ends = rw ends refl

  -- A start of a source that is not bypassed and has no callback ends, whatever the nodes of its chain do with the buffers, and leaves the
  -- buffer that the last one came back in. The buffers go along the chain first; then all nodes are stopped, and only then
  -- those behind the source are started, while the source itself has stopped.
  pub start_test-start_chain :
      (u : AudioTestSource) (sys : System W)
      → Keeps pool (sys.source me).node
      → All (Keeps pool) (sys.source me).chain
      → IsGood sys.world
      → (sys.source me).node.is_bypassed ≡ false
      → (sys.source me).has_callback ≡ false
      → (e : Entry) × (w : W) × (r : AudioTestSource × System W) × (process_times pool
            (sys.source me).node
            (sys.source me).chain
            u.num_buffers
            u.buffer
            sys.world
          ≡ some (e, w))
        × (start_test pool me u sys ≡ some r)
        × (r.0.buffer ≡ e)
        × ((r.1).world
            ≡ start_chain
                (sys.source me).chain
                (stop_chain ((sys.source me).node ∷ (sys.source me).chain) w))
        × (started (r.1) me ≡ false)
  unfolding start_test
  start_test-start_chain u sys kn kc g live unset =
      let s = sys.source me in
      let sys' = update me (record s { is_started = true }) sys in
      let hit : (me == me) ≡ true = ground arith in
      let here : sys'.source me ≡ record s { is_started = true } = if_true _ _ hit in
      let (r, ends, g') =
        process_times-Returned s.node s.chain u.num_buffers u.buffer sys.world kn kc g in
      let quiet = stop me (record sys' { world = r.1 }) in
      let pushed = on_start-stop u sys' (
        ap (λ (x : Source W). process_times pool x.node x.chain u.num_buffers u.buffer sys.world)
          here
        ∙ ends) in
      let still : (sys'.source me).has_callback ≡ false =
        ap (λ (x : Source W). x.has_callback) here ∙ unset in
      let same : stop_chain ((sys'.source me).node ∷ (sys'.source me).chain) (r.1)
          ≡ stop_chain (s.node ∷ s.chain) (r.1) =
        ap (λ (x : Source W). stop_chain (x.node ∷ x.chain) (r.1)) here in
      (
        r.0,
        r.1,
        (record u { buffer = r.0 }, record quiet { world = start_chain s.chain quiet.world }),
        ends,
        ap
            (Option.map λ (x : AudioTestSource × System W).
              (x.0, record (x.1) { world = start_chain s.chain (x.1).world }))
            (if_false _ _ live ∙ pushed),
        refl,
        ap (start_chain s.chain) (stop_world me (record sys' { world = r.1 }) still ∙ same),
        stop-started me (record sys' { world = r.1 }),
      )
