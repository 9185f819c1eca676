-- ===== src/Core/Selector/Running.antt =====
-- Which sources run: the one that pushes first, then all that wait.
use libcornrow.Base.{
  ◌==◌, if◌then◌else◌, if_true, Bool-cases, ℕ, ◌≡◌, refl, ap, ◌∙◌, inl, inr, Bool, true, false, not,
  ◌||◌, List, [], ◌∷◌, arith,
}
use libcornrow.Core.Selector.{System, start, any_started, start_ready, on_source_ready, set_ready}
use libcornrow.Core.Selector.Flags.{
  contains, started, ready, any_started-contains, set_flag, set_ready-flags,
}

module _ {W : Type 0} where
  -- At most one source of the selector runs.
  abbrev pub IsExclusive : System W → Type 0
  IsExclusive sys =
      (j k : ℕ)
      → contains j sys.sources ≡ true
      → contains k sys.sources ≡ true
      → started sys j ≡ true
      → started sys k ≡ true
      → j ≡ k

  pub any_started_none :
      (is : List ℕ) (sys : System W)
      → ((j : ℕ) → contains j is ≡ true → started sys j ≡ false)
      → any_started is sys ≡ false
  unfolding any_started
  any_started_none [] sys h = refl
  any_started_none (i ∷ is) sys h =
      let hit : (i == i) ≡ true = ground arith in
      let first : started sys i ≡ false = h i (ap (λ b. b || contains i is) hit) in
      let rest = any_started_none is sys (λ j c. h j (ground (arith, c))) in rw (first, rest)

  any_started_mem :
      (sys : System W) (is : List ℕ)
      → any_started is sys ≡ true
      → (j : ℕ) × (contains j is ≡ true) × (started sys j ≡ true)
  unfolding any_started
  any_started_mem sys [] h = cc
  any_started_mem sys (i ∷ is) h = elim (Bool-cases (started sys i)) [
    | inl up ↦
        (i, (let hit : (i == i) ≡ true = ground arith in ap (λ b. b || contains i is) hit), up)
    | inr down ↦ let (j, c, s) = any_started_mem sys is (rw down at h) in (j, ground (arith, c), s)
  ]

  sources-start_ready : (is : List ℕ) (sys : System W) → (start_ready is sys).sources ≡ sys.sources
  unfolding start_ready start
  sources-start_ready [] sys = refl
  sources-start_ready (i ∷ is) sys = sources-start_ready is _ ∙ kept (ready sys i)
    where
      kept : (b : Bool) → (if b then start i sys else sys).sources ≡ sys.sources
      kept true = refl
      kept false = refl

  pub sources-set_ready :
      (i : ℕ) (r : Bool) (sys : System W) → (set_ready i r sys).sources ≡ sys.sources
  unfolding set_ready on_source_ready
  sources-set_ready i r sys = ground (arith, sources-start_ready sys.sources (set_flag i r sys))

  -- Whatever runs before, as long as a source of the selector that reports ready has its callback
  -- set, some source of the selector runs afterwards, and it is that source if none ran.
  pub set_ready-runs :
      (i : ℕ) (sys : System W)
      → (sys.source i).has_callback ≡ true
      → contains i sys.sources ≡ true
      → (any_started sys.sources (set_ready i true sys) ≡ true)
        × (started (set_ready i true sys) i ≡ (started sys i || not (any_started sys.sources sys)))
  set_ready-runs i sys called member = elim (Bool-cases (any_started sys.sources sys)) [
    | inl busy ↦
        let (j, c, s) = any_started_mem sys sys.sources busy in
        let kept = (set_ready-flags i true sys j called).0 ∙ if_true _ _ busy in
        (
          any_started-contains sys.sources _ j c (kept ∙ s),
          (set_ready-flags i true sys i called).0 ∙ ground (arith, busy),
        )
    | inr idle ↦
        let hit : (i == i) ≡ true = ground arith in
        let on = (set_ready-flags i true sys i called).0 in
        let up : started (set_ready i true sys) i ≡ true = on ∙ ground (arith, idle, member, hit) in
        (any_started-contains sys.sources _ i member up, up ∙ ground (arith, idle))
  ]
