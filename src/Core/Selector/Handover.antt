-- ===== src/Core/Selector/Handover.antt =====
-- What happens when a source stops, pushes a buffer, or is added.
use libcornrow.Base.{
  ◌==◌, if_true, if_false, Bool-cases, ℕ, ◌≡◌, sym, ap, ap₂, subst, ◌∙◌, ◌≢◌, inl, inr, true, false,
  not, ◌&&◌, ◌||◌, some, [], ◌∷◌, ◌++◌, arith,
}
use libcornrow.Core.Pool.{Entry}
use libcornrow.Core.Node.{Buffers}
use libcornrow.Core.Source.{Source, stop_chain, forward}
use libcornrow.Core.Selector.{
  System, update, any_started, start_ready, set_ready, stop, add_source, push_buffer,
}
use libcornrow.Core.Selector.Flags.{
  contains, started, ready, set_flag, set_flag_lem, set_ready_busy, set_ready_idle, set_ready-flags,
}
use libcornrow.Core.Selector.Running.{
  IsExclusive, any_started_none, sources-set_ready, set_ready-runs,
}
use mathlib.Core.Option

module _ {W : Type 0} where
  -- When a source with its callback set stops and no other source of the selector runs, every other
  -- source of the selector that is ready is started, not the first of them alone.
  pub stop-starts_waiting :
      (k : ℕ) (sys : System W) (j : ℕ)
      → (sys.source k).has_callback ≡ true
      → ((j : ℕ) → contains j sys.sources ≡ true → j ≢ k → started sys j ≡ false)
      → contains j sys.sources ≡ true
      → j ≢ k
      → started (stop k sys) j ≡ ready sys j
  unfolding stop
  stop-starts_waiting k sys j called alone member other =
      let off : (j == k) ≡ false = ground (arith, other) in
      let idle = any_started_none sys.sources halted down in
      let now = (set_ready-flags k false halted j called') in
      now.0 ∙ if_false _ _ idle ∙ ground (arith, down j member, member, off, same_ready off)
    where
      halted : System W
      halted = record (update k (record (sys.source k) { is_started = false }) sys) {
        world = stop_chain ((sys.source k).node ∷ (sys.source k).chain) sys.world;
      }

      same_ready : (j == k) ≡ false → ready halted j ≡ ready sys j
      same_ready off = ap (λ (s : Source W). s.is_ready) (if_false _ _ off)

      called' : (halted.source k).has_callback ≡ true
      called' =
          let hit : (k == k) ≡ true = ground arith in
          ap (λ (s : Source W). s.has_callback) (if_true _ _ hit) ∙ called

      down : (j : ℕ) → contains j sys.sources ≡ true → started halted j ≡ false
      down j c = elim (Bool-cases (j == k)) [
        | inl hit ↦ ap (λ (s : Source W). s.is_started) (if_true _ _ hit)
        | inr miss ↦
            ap (λ (s : Source W). s.is_started) (if_false _ _ miss)
            ∙ alone j c (λ e. ground (arith, e, miss))
      ]

  -- Two sources of a selector that are ready while a third one runs alone are both running after
  -- that one, whose callback is set, stops: the selector then mixes two sources.
  pub stop-not-IsExclusive :
      (k : ℕ) (sys : System W) (i j : ℕ)
      → (sys.source k).has_callback ≡ true
      → ((j : ℕ) → contains j sys.sources ≡ true → j ≢ k → started sys j ≡ false)
      → contains i sys.sources ≡ true
      → contains j sys.sources ≡ true
      → i ≢ k
      → j ≢ k
      → i ≢ j
      → ready sys i ≡ true
      → ready sys j ≡ true
      → ¬ IsExclusive (stop k sys)
  stop-not-IsExclusive k sys i j called alone ci cj ik jk ij ri rj ex =
      let up_i = stop-starts_waiting k sys i called alone ci ik ∙ ri in
      let up_j = stop-starts_waiting k sys j called alone cj jk ∙ rj in
      ij (
        ex i j (subst (λ is. contains i is ≡ true) (sym same) ci)
          (subst (λ is. contains j is ≡ true) (sym same) cj) up_i up_j)
    where
      same : (stop k sys).sources ≡ sys.sources
      same = unfold stop in sources-set_ready k false _

  -- A buffer of a controlled source with its callback set that does not run, pushed while another
  -- one of the selector does, goes back to its source untouched, and nothing but the source's ready
  -- flag changes.
  pub push_buffer-blocked :
      (pool : Buffers W) (i : ℕ) (e : Entry) (sys : System W)
      → (sys.source i).has_callback ≡ true
      → (sys.source i).is_controlled ≡ true
      → started sys i ≡ false
      → any_started sys.sources sys ≡ true
      → push_buffer pool i e sys ≡ some (e, set_flag i true sys)
  unfolding push_buffer
  push_buffer-blocked pool i e sys called controlled down busy =
      let hit : (i == i) ≡ true = ground arith in
      let same = set_ready_busy i true sys called busy in
      let still : started (set_ready i true sys) i ≡ false =
        ap (λ t. started t i) same ∙ (set_flag_lem i true sys i).0 ∙ down in
      let held : ((set_ready i true sys).source i).is_controlled ≡ true =
        ap (λ (t : System W). (t.source i).is_controlled) same
        ∙ ap (λ (s : Source W). s.is_controlled) (if_true _ _ hit)
        ∙ controlled in
      if_false _ _ (ap₂ (λ a b. a || not b) still held) ∙ ap (λ t. some (e, t)) same

  -- A buffer of a source of the selector with its callback set, pushed while no source of the
  -- selector runs, goes along the source's chain in the world that starting the ready sources
  -- leaves.
  pub push_buffer-forwarded :
      (pool : Buffers W) (i : ℕ) (e : Entry) (sys : System W)
      → (sys.source i).has_callback ≡ true
      → contains i sys.sources ≡ true
      → any_started sys.sources sys ≡ false
      → let now = start_ready sys.sources (set_flag i true sys) in
        let out = forward pool (now.source i) e now.world in
        (started now i ≡ true)
        × (push_buffer pool i e sys
            ≡ Option.map (λ x. (x.0, record (update i out.1 now) { world = x.1 })) out.0)
  unfolding push_buffer
  push_buffer-forwarded pool i e sys called member idle =
      let same = set_ready_idle i true sys called idle in
      let up : started (set_ready i true sys) i ≡ true =
        (set_ready-runs i sys called member).1 ∙ ground (arith, idle) in
      (
        sym (ap (λ t. started t i) same) ∙ up,
        if_true _ _ (ap (λ a. a || not ((set_ready i true sys).source i).is_controlled) up)
            ∙ ap
                (λ (t : System W).
                  let out = forward pool (t.source i) e t.world in
                  Option.map (λ x. (x.0, record (update i out.1 t) { world = x.1 })) out.0)
                same,
      )

  abbrev halt : ℕ → System W → System W
  halt k sys = record (update k (record (sys.source k) { is_started = false }) sys) {
    world = stop_chain ((sys.source k).node ∷ (sys.source k).chain) sys.world;
  }

  stop_free :
      (i : ℕ) (sys : System W)
      → (sys.source i).has_callback ≡ false
      → stop i sys ≡ set_flag i false (halt i sys)
  unfolding stop set_ready
  stop_free i sys free =
      let hit : (i == i) ≡ true = ground arith in
      let quiet : ((halt i sys).source i).has_callback ≡ false =
        ap (λ (s : Source W). s.has_callback) (if_true _ _ hit) ∙ free in
      if_false _ _ quiet

  -- A source that was just added, and had no callback set before, is stopped, not ready and
  -- controlled, and stands last in the selector; no other source's running flag changes.
  pub add_source_stopped :
      (i : ℕ) (sys : System W) (j : ℕ)
      → (sys.source i).has_callback ≡ false
      → let t = add_source i sys in
        (ready t i ≡ false)
        × ((t.source i).is_controlled ≡ true)
        × (t.sources ≡ sys.sources ++ i ∷ [])
        × (started t j ≡ (not (j == i) && started sys j))
  unfolding add_source
  add_source_stopped i sys j free =
      let hit : (i == i) ≡ true = ground arith in
      let same = stop_free i sys free in
      let flags = set_flag_lem i false (halt i sys) in
      (
        ap (λ (s : Source W). s.is_ready) (if_true _ _ hit)
            ∙ ap (λ t. ready t i) same
            ∙ (flags i).1
            ∙ if_true _ _ hit,
        ap (λ (s : Source W). s.is_controlled) (if_true _ _ hit),
        ap (λ (t : System W). t.sources ++ i ∷ []) same,
        elim (Bool-cases (j == i)) [
          | inl me ↦
              let e : j ≡ i = ground arith in
              ap (λ (s : Source W). s.is_started) (if_true _ _ me)
              ∙ ap (λ t. started t i) same
              ∙ (flags i).0
              ∙ ap (λ (s : Source W). s.is_started) (if_true _ _ hit)
              ∙ sym (ap (λ b. not b && started sys j) me)
          | inr other ↦
              ap (λ (s : Source W). s.is_started) (if_false _ _ other)
              ∙ ap (λ t. started t j) same
              ∙ (flags j).0
              ∙ ap (λ (s : Source W). s.is_started) (if_false _ _ other)
              ∙ sym (ap (λ b. not b && started sys j) other)
        ],
      )
