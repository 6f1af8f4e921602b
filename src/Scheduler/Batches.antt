-- ===== src/Scheduler/Batches.antt =====
-- src/scheduler.rs, `build_batches`: the actions of a target, the heaviest first.
pub mod Laws
pub mod Usable
use quokka.Prelude.{
  Text, text, text_eq, text_eq_iff, text_eq_refl, strip_prefix, split_once, show_nat, Bool, true,
  false, not, ◌&&◌, ◌||◌, Option, none, some, ℕ, zero, suc, ◌+◌, ◌-◌, ◌*◌, ◌/◌, ◌%◌, ◌^◌, ◌≤◌, ◌<◌,
  max, min, ltb, leb, ◌==◌, if◌then◌else◌, ==_iff, Bool-cases, Option-cases, ◌≡◌, refl, sym, ap,
  ◌∙◌, ◌≢◌, ◌↔◌, ◌⊎◌, inl, inr, List, [], ◌∷◌, ◌++◌, map, Perm, arith, length, get_elem?, take,
  drop, replicate, any, filter, is_empty, All, flatten, Result, ok, err, ◌>>=◌, Key, Map, lookup,
  insert, remove, lookup-insert, lookup-insert_self, lookup-insert_ne, nat_key, text_key,
}
use quokka.Prelude.{sort}
use quokka.Outcome.{TestIdentity}
use quokka.Batching
use quokka.Batching.{BatchMode, TestSelection, all, explicit, partition}
use quokka.Execution.{is_logical_test}
use quokka.Translator.{TestCase, DemuxCapability, singleton_only, name_attributable}
use quokka.DurationDb.{DurationDb, DurationEstimate, estimate, weight_ms, p50_ms}
use quokka.Config.{RunnerConfig, is_sharded}

abbrev pub unseen_weight_ms : ℕ
unseen_weight_ms = 50

pub record LocalBatchInput : Type 0 where
  pub name : Text
  pub estimate : DurationEstimate

mode_or : Option BatchMode → BatchMode → BatchMode
mode_or none mode = mode
mode_or (some mode) other = mode

unfoldable pub chosen_mode : RunnerConfig → DemuxCapability → Option BatchMode → BatchMode
unfolding is_logical_test mode_or
chosen_mode config capability target_batch_mode =
    if is_logical_test config.cgroup_granularity then Batching.per_test else elim capability [
      | name_attributable ↦ mode_or target_batch_mode config.batch_mode
      | singleton_only ↦ Batching.per_test
    ]

is_target : BatchMode → Bool
is_target Batching.target = true
is_target _ = false

pub name_selection : TestSelection LocalBatchInput → TestSelection Text
name_selection all = all
name_selection (explicit group) = explicit (map (λ t. t.name) group)

-- `map(…).max().unwrap_or(0)`
heaviest : (Text → ℕ) → List Text → ℕ
heaviest weight [] = 0
heaviest weight (n ∷ ns) = max (weight n) (heaviest weight ns)

selection_weight : (Text → ℕ) → List Text → TestSelection Text → ℕ
unfolding heaviest
selection_weight weight names all = heaviest weight names
selection_weight weight names (explicit group) = heaviest weight group

module _ (hash_key : TestIdentity → ℕ) where
  estimate_of : Text → RunnerConfig → DurationDb → Text → DurationEstimate
  estimate_of target config db name =
      estimate hash_key db none (record { target = target; name = name; variant = config.variant })

  inputs_of : Text → List TestCase → RunnerConfig → DurationDb → List LocalBatchInput
  unfolding estimate_of
  inputs_of target [] config db = []
  inputs_of target (t ∷ tests) config db =
      record { name = t.name; estimate = estimate_of target config db t.name }
      ∷ inputs_of target tests config db

  selections_of :
      RunnerConfig
      → BatchMode
      → List LocalBatchInput
      → Option (List (TestSelection LocalBatchInput))
  unfolding is_target is_sharded
  selections_of config mode inputs =
      if is_target mode && is_sharded config.shard
      then some (explicit inputs ∷ [])
      else partition (λ t. weight_ms t.estimate unseen_weight_ms) (λ t. p50_ms t.estimate 0) mode
          inputs

  -- `sort_by_key` with the reversed weight.
  sort_batches :
      Text
      → List TestCase
      → RunnerConfig
      → DurationDb
      → List (TestSelection Text)
      → List (TestSelection Text)
  unfolding selection_weight estimate_of
  sort_batches target tests config db batches =
      let weight = λ (n : Text). weight_ms (estimate_of target config db n) unseen_weight_ms in
      let names = map (λ t. t.name) tests in
      sort (λ a b. leb (selection_weight weight names b) (selection_weight weight names a)) batches

  unfoldable pub build_batches :
      Text
      → List TestCase
      → RunnerConfig
      → DurationDb
      → DemuxCapability
      → Option BatchMode
      → Option (List (TestSelection Text))
  unfolding inputs_of selections_of name_selection sort_batches chosen_mode
  build_batches target tests config db capability target_batch_mode =
      elim (selections_of config (chosen_mode config capability target_batch_mode)
        (inputs_of target tests config db)) [
          | none ↦ none
          | some selections ↦
              some (sort_batches target tests config db (map name_selection selections))
        ]
