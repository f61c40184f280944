-- ===== src/Pipeline/Input/Contract.antt =====
-- crates/wfe-core/src/v22/pipeline.rs (`validate_action_input`): the contract that an accepted input
-- fulfils.
use agnoflow_engine.Prelude.{◌≡◌, Option, none, some, List, [], ◌++◌, Memᴰ, Text, codes, split, All}
use agnoflow_engine.Types.Json.{Json, null}
use agnoflow_engine.Types.Wfd.{InputDef, ActionDef}
use agnoflow_engine.Types.Host.{Host}
use agnoflow_engine.Effects.{get_path}
use agnoflow_engine.ContextTypes.{validate_at, value_at}
use agnoflow_engine.Pipeline.Input.{collect_leaf_paths, declared_paths}

-- the path is there, and is not null
abbrev pub Given : Option Json → Type 0
Given none = ⊥
Given (some null) = ⊥
Given (some v) = Unit

-- a leaf's path against a declared one: the same, or one continues the other behind a dot
pub data Related (leaf d : Text) : Type 0 where
  same : leaf ≡ d → Related leaf d
  below : (rest : Text) → leaf ≡ (d ++ codes ".") ++ rest → Related leaf d
  above : (rest : Text) → d ≡ (leaf ++ codes ".") ++ rest → Related leaf d

abbrev pub Covered : List Text → Text → Type 0
Covered declared leaf = (d : Text) × Memᴰ d declared × Related leaf d

module _ (host : Host) (a : ActionDef) (input context : Json) where
  -- what stands at a declared path fits the context's schema there
  abbrev pub FitsAt : Text → Option Json → Type 0
  FitsAt path none = Unit
  FitsAt path (some v) = validate_at host context path v ≡ []

  -- Each path that the action requires is there, each leaf of the input is a declared path or lies
  -- below or above one, and what stands at a declared path fits the context's schema there.
  abbrev pub Fulfils : Type 0
  Fulfils =
      All (λ p. Given (get_path input p)) (InputDef.required a.input)
      × All (Covered (declared_paths a)) (collect_leaf_paths input [])
      × All (λ p. FitsAt p (value_at host (split b'.' p) input)) (declared_paths a)
