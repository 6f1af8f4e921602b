-- ===== src/Scheduler/Batches/Usable.antt =====
-- Which batch modes a target can be given.
use quokka.Prelude.{Bool, true, false, Option, none, some, if◌then◌else◌, nat_key, text_key}
use quokka.Batching
use quokka.Batching.{BatchMode, target}
use quokka.Batching.Buckets.{IsUsable}
use quokka.Execution.{is_logical_test}
use quokka.Config.{RunnerConfig}
use quokka.Translator.{DemuxCapability, singleton_only, name_attributable}
use quokka.Scheduler.Batches.{chosen_mode, mode_or}

-- A target's own batch mode, where it has one, is usable.
abbrev pub UsableChoice : Option BatchMode → Type 0
UsableChoice none = Unit
UsableChoice (some mode) = IsUsable mode

module _ (config : RunnerConfig) (u : IsUsable config.batch_mode) where
  mode_or-IsUsable :
      (o : Option BatchMode) → UsableChoice o → IsUsable (mode_or o config.batch_mode)
  unfolding mode_or
  mode_or-IsUsable none h = u
  mode_or-IsUsable (some m) h = h

  if-IsUsable :
      (b : Bool) (mode : BatchMode)
      → IsUsable mode
      → IsUsable (if b then Batching.per_test else mode)
  if-IsUsable true mode h = tt
  if-IsUsable false mode h = h

  -- A usable batch mode of the configuration stays so, whatever the framework and the target
  -- choose.
  pub chosen_mode-IsUsable :
      (capability : DemuxCapability) (o : Option BatchMode)
      → UsableChoice o
      → IsUsable (chosen_mode config capability o)
  unfolding chosen_mode
  chosen_mode-IsUsable singleton_only o h =
      if-IsUsable (is_logical_test config.cgroup_granularity) Batching.per_test tt
  chosen_mode-IsUsable name_attributable o h =
      if-IsUsable (is_logical_test config.cgroup_granularity) (mode_or o config.batch_mode)
        (mode_or-IsUsable o h)
