-- ===== src/Core/Selector.antt =====
-- src/core/SourceSelector.cpp, with the functions of src/core/Source.cpp that call the ready callback.
-- A source is an index; all callbacks that are set are those of this selector.
-- `onStart` and `onStop` of a source's nodes change the world and no source: a source whose `onStart` stops
-- itself, as the test source does, is in Audio/TestSource.antt.
pub mod Flags
pub mod Running
pub mod Handover
mod Runs
use libcornrow.Base.{
  ◌==◌, if◌then◌else◌, ℕ, Bool, true, false, not, ◌||◌, Option, some, List, [], ◌∷◌, ◌++◌,
}
use libcornrow.Core.Pool.{Entry}
use libcornrow.Core.Node.{Buffers}
use libcornrow.Core.Source.{Source, start_chain, stop_chain, forward}
use mathlib.Core.Option

pub record System (W : Type 0) : Type 0 where
  pub source : ℕ → Source W
  pub sources : List ℕ
  pub world : W

-- `std::list::remove`
unfoldable pub remove : ℕ → List ℕ → List ℕ
remove i [] = []
remove i (j ∷ js) = if j == i then remove i js else j ∷ remove i js

module _ {W : Type 0} where
  -- Sources are objects: a change of one leaves the others alone.
  abbrev pub update : ℕ → Source W → System W → System W
  update i s sys = record sys { source = λ j. if j == i then s else sys.source j }

  -- `Source::start`
  unfoldable pub start : ℕ → System W → System W
  start i sys =
      let s = sys.source i in
      let started = update i (record s { is_started = true }) sys in
      record started { world = start_chain (s.node ∷ s.chain) sys.world }

  -- The first loop of `onSourceReady`
  unfoldable pub any_started : List ℕ → System W → Bool
  any_started [] sys = false
  any_started (i ∷ is) sys = (sys.source i).is_started || any_started is sys

  -- The second loop of `onSourceReady`
  unfoldable pub start_ready : List ℕ → System W → System W
  unfolding start
  start_ready [] sys = sys
  start_ready (i ∷ is) sys = start_ready is (if (sys.source i).is_ready then start i sys else sys)

  unfoldable pub on_source_ready : System W → System W
  on_source_ready sys = if any_started sys.sources sys then sys else start_ready sys.sources sys

  -- `Source::setReady`
  unfoldable pub set_ready : ℕ → Bool → System W → System W
  set_ready i r sys =
      let s = sys.source i in
      let sys' = update i (record s { is_ready = r }) sys in
      if s.has_callback then on_source_ready sys' else sys'

  -- `Source::stop`
  unfoldable pub stop : ℕ → System W → System W
  stop i sys =
      let s = sys.source i in
      let stopped = update i (record s { is_started = false }) sys in
      set_ready i false (record stopped { world = stop_chain (s.node ∷ s.chain) sys.world })

  unfoldable pub add_source : ℕ → System W → System W
  add_source i sys =
      let sys' = stop i sys in
      let sys'' =
        update i (record (sys'.source i) { is_controlled = true; has_callback = true }) sys' in
      record sys'' { sources = sys''.sources ++ (i ∷ []) }

  unfoldable pub remove_source : ℕ → System W → System W
  remove_source i sys =
      let s = sys.source i in
      record (update i (record s { is_controlled = false; has_callback = false }) sys) {
        sources = remove i sys.sources;
      }

  -- `Source::pushBuffer`; the entry is what the caller's pointer holds afterwards.
  unfoldable pub push_buffer : Buffers W → ℕ → Entry → System W → Option (Entry × System W)
  push_buffer pool i e sys =
      let ready = set_ready i true sys in
      let s = ready.source i in
      let (r, s') = forward pool s e ready.world in
      if s.is_started || not s.is_controlled
      then Option.map (λ x. (x.0, record (update i s' ready) { world = x.1 })) r
      else some (e, ready)
