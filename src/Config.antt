-- ===== src/Config.antt =====
-- src/cli.rs and src/config.rs: the resolved configuration that the scheduler reads.
use quokka.Prelude.{Text, Bool, true, false, not, Option, ℕ, ltb, List, nat_key, text_key}
use quokka.Variant.{Variant, RepeatKind}
use quokka.Batching.{BatchMode, BatchFailurePolicy}
use quokka.Execution.{CgroupGranularity, CgroupMemoryMax, CgroupMemoryMaxOverride}
use quokka.Outcome.{Duration}

pub data IgnoredPolicy : Type 0 where
  exclude_ignored include_ignored ignored_only : IgnoredPolicy

unfoldable pub selects : IgnoredPolicy → Bool → Bool
selects exclude_ignored ignored = not ignored
selects include_ignored ignored = true
selects ignored_only ignored = ignored

pub record ShardSpec : Type 0 where
  pub index : ℕ
  pub count : ℕ

unfoldable pub is_sharded : ShardSpec → Bool
is_sharded s = ltb 1 s.count

pub data DurationDbConfig : Type 0 where
  auto disabled : DurationDbConfig
  persistent : (path : Text) → DurationDbConfig

unfoldable pub cache_busts_unseen_tests : DurationDbConfig → Bool
cache_busts_unseen_tests (persistent path) = true
cache_busts_unseen_tests _ = false

-- The fields of `RunnerConfig` that decide what is run and how it is judged.
pub record RunnerConfig : Type 0 where
  pub per_test_timeout : Duration
  pub cgroup_granularity : CgroupGranularity
  pub cgroup_memory_max : CgroupMemoryMax
  pub cgroup_memory_max_overrides : List CgroupMemoryMaxOverride
  pub ignored : IgnoredPolicy
  pub batch_mode : BatchMode
  pub batch_failure_policy : BatchFailurePolicy
  pub variant : Variant
  pub stress : RepeatKind
  pub stress_label_reps : ℕ
  pub shard : ShardSpec
  pub flaky_attempts : ℕ
  pub cas_inline_limit : ℕ
  pub duration_db : DurationDbConfig
  pub libtest_help_only : Bool
  pub libtest_usage_error : Option Text
  pub libtest_list_only : Bool
  pub extra_test_args : List Text
  pub extra_env : List (Text × Text)
  pub listing_timeout : Duration
  pub local_debug : Bool
  -- `quokka_config.flaky_retry`, its number of attempts
  pub flaky_retry : Option ℕ
