-- ===== src/Core/Node/Laws.antt =====
-- What a chain of nodes does with a buffer, whatever its nodes do.
use libcornrow.Base.{
  ◌==◌, Bool-cases, All, ℕ, ◌<◌, ◌≡◌, refl, ap, ◌∙◌, inl, inr, true, false, Option, none, some,
  List, [], ◌∷◌, ◌++◌, arith,
}
use libcornrow.Audio.Types.{AudioCodec, AudioConf, no_conf, codec_eq}
use libcornrow.Core.Buffer.{Buffer, is_valid, capacity, clear}
use libcornrow.Core.Pool.{Entry}
use libcornrow.Core.Node.{
  Node, Buffers, emptied, apply, end_chain, hand_on, process, process_conf, app_source_process,
}

module _ {W : Type 0} (pool : Buffers W) where
  open pool use {IsGood, create_empty}

  -- A node whose functions keep the world in order.
  pub record Keeps (n : Node W) : Type 0 where
    pub ptr : (e : Entry) (w : W) → IsGood w → IsGood (n.on_process e w).1
    pub conf : (c : AudioConf) (b : Buffer) (w : W) → IsGood w → IsGood (n.on_process_conf c b w).2

  apply-IsGood : (n : Node W) (e : Entry) (w : W) → Keeps n → IsGood w → IsGood (apply n e w).1
  unfolding apply
  apply-IsGood n e w k g = elim (Bool-cases n.is_bypassed) [
    | inl skip ↦ rw skip g
    | inr live ↦ rw live (k.ptr _ _ (k.conf e.object.audio_conf e.object w g))
  ]

  -- The source gets back a buffer that is there and empty.
  abbrev pub Returned : Option (Entry × W) → Type 0
  Returned r = (x : Entry × W) × (r ≡ some x) × (x.0.object.size ≡ 0) × IsGood x.1

  end_chain-Returned : (n : ℕ) (r : Option Entry × W) → IsGood r.1 → Returned (end_chain pool n r)
  unfolding end_chain
  end_chain-Returned n (none, w) g = create_empty n w g
  end_chain-Returned n (some e, w) g = ((emptied e, w), refl, unfold clear in refl, g)

  hand_on-Returned :
      (n : ℕ) (k : Entry → W → Option (Entry × W)) (r : Option Entry × W)
      → IsGood r.1
      → ((e : Entry) (w : W) → IsGood w → Returned (k e w))
      → Returned (hand_on pool n k r)
  unfolding hand_on
  hand_on-Returned n k (none, w) g h = create_empty n w g
  hand_on-Returned n k (some e, w) g h = elim (Bool-cases (is_valid e.object)) [
    | inl valid ↦ rw (valid, hand_on) (h e w g)
    | inr empty ↦ rw (empty, hand_on) ((e, w), refl, unfold is_valid in ground (arith, empty), g)
  ]

  -- Whatever the nodes of a chain do with a buffer (keep it, empty it, or take it away), `process`
  -- leaves its caller with a buffer, not a null pointer, and the buffer is empty, provided that the
  -- nodes keep the world in order.
  pub process-Returned :
      (n : Node W) (rest : List (Node W)) (e : Entry) (w : W)
      → Keeps n
      → All Keeps rest
      → IsGood w
      → Returned (process pool n rest e w)
  unfolding process
  process-Returned n [] e w k ks g =
      end_chain-Returned (capacity e.object) (apply n e w) (apply-IsGood n e w k g)
  process-Returned n (next ∷ rest) e w k ks g =
      hand_on-Returned (capacity e.object) (process pool next rest) (apply n e w)
        (apply-IsGood n e w k g) (λ e' w'. process-Returned next rest e' w' ks.0 ks.1)

module _ {W : Type 0} (pool : Buffers W) where
  hand_on_ext :
      (n : ℕ) (k k' : Entry → W → Option (Entry × W)) (r : Option Entry × W)
      → ((e : Entry) (w : W) → is_valid e.object ≡ true → k e w ≡ k' e w)
      → hand_on pool n k r ≡ hand_on pool n k' r
  unfolding hand_on
  hand_on_ext n k k' (none, w) h = refl
  hand_on_ext n k k' (some e, w) h = elim (Bool-cases (is_valid e.object)) [
    | inl valid ↦ rw (valid, hand_on) (h e w valid)
    | inr empty ↦ rw (empty, hand_on)
  ]

  -- A node that keeps the buffer with data in it hands it to the next one.
  pub process_step :
      (n next : Node W) (rest : List (Node W)) (e : Entry) (w : W) {e' : Entry} {w' : W}
      → apply n e w ≡ (some e', w')
      → is_valid e'.object ≡ true
      → process pool n (next ∷ rest) e w ≡ process pool next rest e' w'
  unfolding process
  process_step n next rest e w step valid = rw step (unfold hand_on in rw (valid, hand_on))

  apply_bypassed :
      (n : Node W) (e : Entry) (w : W) → n.is_bypassed ≡ true → apply n e w ≡ (some e, w)
  unfolding apply
  apply_bypassed n e w s = rw s

  process_bypassed :
      (n next : Node W) (rest : List (Node W)) (e : Entry) (w : W)
      → n.is_bypassed ≡ true
      → is_valid e.object ≡ true
      → process pool n (next ∷ rest) e w ≡ process pool next rest e w
  unfolding process
  process_bypassed n next rest e w s valid =
      ap (hand_on pool (capacity e.object) (process pool next rest)) (apply_bypassed n e w s)
      ∙ unfold hand_on in rw (valid, hand_on)

  -- A bypassed node that has a node on each side can be taken out of the chain: every buffer, in
  -- every world, takes the same way.
  pub process_without_bypassed :
      (n : Node W) (xs : List (Node W)) (skip next : Node W) (ys : List (Node W)) (e : Entry)
      (w : W)
      → skip.is_bypassed ≡ true
      → process pool n (xs ++ skip ∷ next ∷ ys) e w ≡ process pool n (xs ++ next ∷ ys) e w
  unfolding process
  process_without_bypassed n [] skip next ys e w s =
      hand_on_ext (capacity e.object) _ _ (apply n e w)
        (λ e' w' valid. process_bypassed skip next ys e' w' s valid)
  process_without_bypassed n (x ∷ xs) skip next ys e w s =
      hand_on_ext (capacity e.object) _ _ (apply n e w)
        (λ e' w' valid. process_without_bypassed x xs skip next ys e' w' s)

module _ {W : Type 0} where
  -- The older `process` always ends with the invalid configuration and an empty buffer.
  pub process_conf-empties :
      (n : Node W) (rest : List (Node W)) (conf : AudioConf) (b : Buffer) (w : W)
      → ((process_conf n rest conf b w).0 ≡ no_conf) × ((process_conf n rest conf b w).1.size ≡ 0)
  unfolding process_conf clear
  process_conf-empties n [] conf b w = ground arith
  process_conf-empties n (next ∷ rest) conf b w =
      let (conf', b', w') = n.on_process_conf conf b w in
      ground
        (arith, process_conf-empties next rest conf b w, process_conf-empties next rest conf' b' w')

  app_source_stops :
      (xs : List (Node W)) (c : AudioConf) (b : Buffer) (w : W)
      → c ≡ no_conf
      → app_source_process xs c b w ≡ (c, b, w)
  unfolding app_source_process
  app_source_stops [] c b w e = refl
  app_source_stops (x ∷ xs) c b w e =
      let invalid : codec_eq c.codec AudioCodec.invalid ≡ true =
        ap (λ (k : AudioConf). codec_eq k.codec AudioCodec.invalid) e in
      simp (invalid, app_source_process)

  app_source_skip :
      (x : Node W) (rest : List (Node W)) (conf : AudioConf) (b : Buffer) (w : W)
      → x.is_bypassed ≡ true
      → codec_eq conf.codec AudioCodec.invalid ≡ false
      → (b.size == 0) ≡ false
      → app_source_process (x ∷ rest) conf b w ≡ app_source_process rest conf b w
  unfolding app_source_process
  app_source_skip x rest conf b w skip valid pos = simp (valid, pos, skip)

  app_source_live :
      (x : Node W) (rest : List (Node W)) (conf : AudioConf) (b : Buffer) (w : W)
      → x.is_bypassed ≡ false
      → codec_eq conf.codec AudioCodec.invalid ≡ false
      → (b.size == 0) ≡ false
      → app_source_process (x ∷ rest) conf b w
        ≡ (let r = process_conf x rest conf b w in app_source_process rest r.0 r.1 r.2)
  unfolding app_source_process
  app_source_live x rest conf b w live valid pos = simp (valid, pos, live)

  -- The loop of `AppSource` hands a buffer with data and a valid configuration to one node, the
  -- first that is not bypassed: what that node's chain returns ends the loop.
  pub app_source-once :
      (xs : List (Node W)) (n : Node W) (rest : List (Node W)) (conf : AudioConf) (b : Buffer)
      (w : W)
      → All (λ x. x.is_bypassed ≡ true) xs
      → n.is_bypassed ≡ false
      → codec_eq conf.codec AudioCodec.invalid ≡ false
      → 0 < b.size
      → app_source_process (xs ++ n ∷ rest) conf b w ≡ process_conf n rest conf b w
  app_source-once [] n rest conf b w bypassed live valid some_data =
      app_source_live n rest conf b w live valid (ground arith)
      ∙ app_source_stops rest _ _ _ (process_conf-empties n rest conf b w).0
  app_source-once (x ∷ xs) n rest conf b w (skip, bypassed) live valid some_data =
      app_source_skip x (xs ++ n ∷ rest) conf b w skip valid (ground arith)
      ∙ app_source-once xs n rest conf b w bypassed live valid some_data
