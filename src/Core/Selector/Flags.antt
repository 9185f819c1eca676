-- ===== src/Core/Selector/Flags.antt =====
-- How the selector's loops change the flags of the sources.
use libcornrow.Base.{
  ◌==◌, if◌then◌else◌, if_true, if_false, Bool-cases, ℕ, ◌≡◌, refl, sym, ap, ap₂, subst, ◌∙◌, inl,
  inr, Bool, true, false, ◌&&◌, ◌||◌, List, [], ◌∷◌, arith,
}
use libcornrow.Core.Selector.{
  System, update, start, any_started, start_ready, on_source_ready, set_ready,
}

abbrev pub contains : ℕ → List ℕ → Bool
contains j [] = false
contains j (i ∷ is) = (j == i) || contains j is

module _ {W : Type 0} where
  abbrev pub started : System W → ℕ → Bool
  started sys j = (sys.source j).is_started

  abbrev pub ready : System W → ℕ → Bool
  ready sys j = (sys.source j).is_ready

  start_flags :
      (i : ℕ) (sys : System W) (j : ℕ)
      → (started (start i sys) j ≡ ((j == i) || started sys j))
        × (ready (start i sys) j ≡ ready sys j)
        × (((start i sys).source j).is_controlled ≡ (sys.source j).is_controlled)
        × (((start i sys).source j).has_callback ≡ (sys.source j).has_callback)
  unfolding start
  start_flags i sys j = elim (Bool-cases (j == i)) [
    | inl hit ↦
        let e : i ≡ j = ground arith in
        let same : (start i sys).source j ≡ record (sys.source i) { is_started = true } =
          if_true _ _ hit in
        (
          ap (λ s. s.is_started) same ∙ sym (ap (λ b. b || started sys j) hit),
          ap (λ s. s.is_ready) same ∙ ap (ready sys) e,
          ap (λ s. s.is_controlled) same ∙ ap (λ k. (sys.source k).is_controlled) e,
          ap (λ s. s.has_callback) same ∙ ap (λ k. (sys.source k).has_callback) e,
        )
    | inr miss ↦
        let same : (start i sys).source j ≡ sys.source j = if_false _ _ miss in
        (
          ap (λ s. s.is_started) same ∙ sym (ap (λ b. b || started sys j) miss),
          ap (λ s. s.is_ready) same,
          ap (λ s. s.is_controlled) same,
          ap (λ s. s.has_callback) same,
        )
  ]

  -- The second loop starts exactly the ready sources.
  pub started-start_ready :
      (is : List ℕ) (sys : System W) (j : ℕ)
      → (started (start_ready is sys) j ≡ (started sys j || (contains j is && ready sys j)))
        × (ready (start_ready is sys) j ≡ ready sys j)
  unfolding start_ready
  started-start_ready [] sys j = ground arith
  started-start_ready (i ∷ is) sys j = elim (Bool-cases (ready sys i)) [
    | inl go ↦ rw go (
        ground (
          arith,
          started-start_ready is (start i sys) j,
          start_flags i sys j,
          (λ (e : j ≡ i). ap (ready sys) e),
        ))
    | inr wait ↦
        rw wait (ground (arith, started-start_ready is sys j, (λ (e : j ≡ i). ap (ready sys) e)))
  ]

  pub any_started-contains :
      (is : List ℕ) (sys : System W) (j : ℕ)
      → contains j is ≡ true
      → started sys j ≡ true
      → any_started is sys ≡ true
  unfolding any_started
  any_started-contains [] sys j h h' = cc
  any_started-contains (i ∷ is) sys j h h' = elim (Bool-cases (j == i)) [
    | inl hit ↦
        let e : j ≡ i = ground arith in
        let up : started sys i ≡ true = subst (λ k. started sys k ≡ true) e h' in rw up
    | inr miss ↦
        let deeper : contains j is ≡ true = rw miss at h in
        rw (any_started-contains is sys j deeper h') (ground arith)
  ]

  -- The flags after `setReady` has written its own, before the callback.
  abbrev pub ready_after : ℕ → Bool → System W → ℕ → Bool
  ready_after i r sys j = if j == i then r else ready sys j

  abbrev pub set_flag : ℕ → Bool → System W → System W
  set_flag i r sys = update i (record (sys.source i) { is_ready = r }) sys

  pub set_flag_lem :
      (i : ℕ) (r : Bool) (sys : System W) (j : ℕ)
      → (started (set_flag i r sys) j ≡ started sys j)
        × (ready (set_flag i r sys) j ≡ ready_after i r sys j)
  set_flag_lem i r sys j = elim (Bool-cases (j == i)) [
    | inl hit ↦
        let e : i ≡ j = ground arith in
        let same : (set_flag i r sys).source j ≡ record (sys.source i) { is_ready = r } =
          if_true _ _ hit in
        (
          ap (λ s. s.is_started) same ∙ ap (started sys) e,
          ap (λ s. s.is_ready) same ∙ sym (if_true r (ready sys j) hit),
        )
    | inr miss ↦
        let same : (set_flag i r sys).source j ≡ sys.source j = if_false _ _ miss in
        (
          ap (λ s. s.is_started) same,
          ap (λ s. s.is_ready) same ∙ sym (if_false r (ready sys j) miss),
        )
  ]

  pub any_started-ext :
      (is : List ℕ) (s t : System W)
      → ((j : ℕ) → started s j ≡ started t j)
      → any_started is s ≡ any_started is t
  unfolding any_started
  any_started-ext [] s t h = refl
  any_started-ext (i ∷ is) s t h = ap₂ ◌||◌ (h i) (any_started-ext is s t h)

  module _ (i : ℕ) (r : Bool) (sys : System W) (called : (sys.source i).has_callback ≡ true) where
    any_same : any_started sys.sources (set_flag i r sys) ≡ any_started sys.sources sys
    any_same = any_started-ext sys.sources _ _ (λ k. (set_flag_lem i r sys k).0)

    pub set_ready_busy : any_started sys.sources sys ≡ true → set_ready i r sys ≡ set_flag i r sys
    unfolding set_ready on_source_ready
    set_ready_busy busy = if_true _ _ called ∙ if_true _ _ (any_same ∙ busy)

    pub set_ready_idle :
        any_started sys.sources sys ≡ false
        → set_ready i r sys ≡ start_ready sys.sources (set_flag i r sys)
    unfolding set_ready on_source_ready
    set_ready_idle idle = if_true _ _ called ∙ if_false _ _ (any_same ∙ idle)

  -- What `setReady` does to the flags of every source, by whether a source of the selector runs.
  pub set_ready-flags :
      (i : ℕ) (r : Bool) (sys : System W) (j : ℕ)
      → (sys.source i).has_callback ≡ true
      → (started (set_ready i r sys) j ≡ (
          if any_started sys.sources sys
          then started sys j
          else started sys j || (contains j sys.sources && ready_after i r sys j)))
        × (ready (set_ready i r sys) j ≡ ready_after i r sys j)
  set_ready-flags i r sys j called = elim (Bool-cases (any_started sys.sources sys)) [
    | inl busy ↦
        let same = set_ready_busy i r sys called busy in
        (
          ap (λ s. started s j) same ∙ flags.0 ∙ sym (if_true _ _ busy),
          ap (λ s. ready s j) same ∙ flags.1,
        )
    | inr idle ↦
        let same = set_ready_idle i r sys called idle in
        let after = started-start_ready sys.sources (set_flag i r sys) j in
        (
          ap (λ s. started s j) same
              ∙ after.0
              ∙ ap₂ (λ a b. a || (contains j sys.sources && b)) flags.0 flags.1
              ∙ sym (if_false _ _ idle),
          ap (λ s. ready s j) same ∙ after.1 ∙ flags.1,
        )
  ]
    where
      flags :
          (started (set_flag i r sys) j ≡ started sys j)
          × (ready (set_flag i r sys) j ≡ ready_after i r sys j)
      flags = set_flag_lem i r sys j
