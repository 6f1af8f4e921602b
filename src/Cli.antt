-- ===== src/Cli.antt =====
-- src/cli.rs: the options of a session, resolved into its configuration. The two parsers of `clap`
-- are parameters, and so are the environment variable of the memory limit and the retries of the
-- configuration file.
pub mod Options
pub mod Values
pub mod Laws
use quokka.Prelude.{
  Text, text, text_eq, text_eq_iff, text_eq_refl, strip_prefix, split_once, show_nat, Bool, true,
  false, not, ◌&&◌, ◌||◌, Option, none, some, ℕ, zero, suc, ◌+◌, ◌-◌, ◌*◌, ◌/◌, ◌%◌, ◌^◌, ◌≤◌, ◌<◌,
  max, min, ltb, leb, ◌==◌, if◌then◌else◌, ==_iff, Bool-cases, Option-cases, ◌≡◌, refl, sym, ap,
  ◌∙◌, ◌≢◌, ◌↔◌, ◌⊎◌, inl, inr, List, [], ◌∷◌, ◌++◌, map, Perm, arith, length, get_elem?, take,
  drop, replicate, any, filter, is_empty, All, flatten, Result, ok, err, ◌>>=◌, Key, Map, lookup,
  insert, remove, lookup-insert, lookup-insert_self, lookup-insert_ne, nat_key, text_key,
}
use quokka.Outcome.{Duration}
use quokka.Variant.{RepeatKind}
use quokka.Variant
use quokka.Batching.{BatchMode, BatchFailurePolicy}
use quokka.Execution.{CgroupGranularity, CgroupMemoryMax, CgroupMemoryMaxOverride}
use quokka.Config.{IgnoredPolicy, exclude_ignored, ShardSpec, DurationDbConfig, RunnerConfig}
use quokka.Translator.Libtest.{ListFormat, RunFormat, parse_user_args, libtest_user_usage_error}
use quokka.Cli.Options.{
  OuterCli, TpxConfig, direct_libtest_args, Transport, resolve_transport, CliError, parse_error,
}
use quokka.Cli.Values.{
  VarError, resolve_ignored, given_policies, resolve_list_format, check_listing, resolve_run_format,
  resolve_batch_mode, resolve_batch_failure_policy, resolve_duration_db, resolve_cgroup_granularity,
  resolve_memory_max, resolve_overrides, resolve_shard, resolve_pairs, env_entry, declared_entry,
  resolve_stress,
}

pub record SchedulerLimits : Type 0 where
  pub max_inflight_listings : ℕ
  pub max_inflight_test_actions : ℕ
  pub max_inflight_per_target : ℕ
  pub max_report_queue : ℕ

-- `RunnerConfig`, the part of it that the scheduler's decisions read as one field.
pub record ResolvedConfig : Type 0 where
  pub runner : RunnerConfig
  pub list_format : ListFormat
  pub run_format : RunFormat
  pub limits : SchedulerLimits
  pub ci_test_report_json : Option Text
  pub direct_args : List Text
  pub declared_output_env : List (Text × Text)

pub record SessionContext : Type 0 where
  pub host_platform : Option Text
  pub trace_id : Option Text

pub record Invocation : Type 0 where
  pub transport : Transport
  pub config : ResolvedConfig
  pub context : SessionContext

first_some : Option Text → Option Text → Option Text
first_some none rest = rest
first_some (some value) rest = some value

host_of : List Text → Option Text
unfolding first_some
host_of [] = none
host_of (entry ∷ entries) = first_some (strip_prefix entry (text "host=")) (host_of entries)

context_of : OuterCli → SessionContext
unfolding host_of
context_of outer = record {
  host_platform = host_of outer.config_entry;
  trace_id = outer.buck_trace_id;
}

abbrev from_secs : ℕ → Duration
from_secs n = n * 1_000_000_000

limits_of : TpxConfig → SchedulerLimits
limits_of tpx = record {
  max_inflight_listings = max tpx.max_inflight_listings 1;
  max_inflight_test_actions = max tpx.max_inflight_test_actions 1;
  max_inflight_per_target = max tpx.max_inflight_per_target 1;
  max_report_queue = 1024;
}

-- What the steps of `resolve_config` that may fail found, in their order.
pub record Checked : Type 0 where
  pub ignored : IgnoredPolicy
  pub list_format : ListFormat
  pub run_format : RunFormat
  pub batch_mode : BatchMode
  pub batch_failure_policy : BatchFailurePolicy
  pub duration_db : DurationDbConfig
  pub cgroup_granularity : CgroupGranularity
  pub cgroup_memory_max : CgroupMemoryMax
  pub overrides : List CgroupMemoryMaxOverride
  pub shard : ShardSpec
  pub extra_env : List (Text × Text)
  pub declared_output_env : List (Text × Text)

effective_args : TpxConfig → List Text
unfolding direct_libtest_args
effective_args tpx = tpx.test_arg ++ direct_libtest_args tpx

or_parse_error : {A : Type 0} → Result Text A → Result CliError A
or_parse_error (ok a) = ok a
or_parse_error (err e) = err (parse_error e)

before_dashes : List Text → List Text
before_dashes [] = []
before_dashes (arg ∷ argv) =
    let rest = before_dashes argv in if text_eq arg (text "--") then [] else arg ∷ rest

after_dashes : List Text → List Text
after_dashes [] = []
after_dashes (arg ∷ argv) =
    let rest = after_dashes argv in if text_eq arg (text "--") then argv else rest

program_name : List Text → List Text
program_name [] = text "tpx" ∷ []
program_name (arg ∷ args) = arg ∷ args

module _ (memory_env : Result VarError Text) where
  check : TpxConfig → Result CliError Checked
  unfolding resolve_ignored given_policies effective_args resolve_list_format check_listing
      resolve_run_format resolve_batch_mode resolve_batch_failure_policy resolve_duration_db
      resolve_cgroup_granularity resolve_memory_max resolve_overrides resolve_shard resolve_pairs
      env_entry declared_entry
  check tpx =
      resolve_ignored exclude_ignored (given_policies tpx (effective_args tpx)) >>= λ ignored.
      resolve_list_format tpx.list_format >>= λ format.
      check_listing ignored format >>= λ list_format.
      resolve_run_format tpx.run_format >>= λ run_format.
      resolve_batch_mode tpx.batch_mode tpx.batch_threshold_ms tpx.chunk_size >>= λ batch_mode.
      resolve_batch_failure_policy tpx.batch_failure_policy >>= λ batch_failure_policy.
      resolve_duration_db tpx.no_duration_db tpx.duration_db >>= λ duration_db.
      resolve_cgroup_granularity tpx.cgroup_granularity >>= λ cgroup_granularity.
      resolve_memory_max memory_env >>= λ cgroup_memory_max.
      resolve_overrides [] tpx.cgroup_memory_max_overrides >>= λ overrides.
      resolve_shard (record { index = tpx.shard_index; count = max tpx.shard_count 1 }) >>= λ shard.
      resolve_pairs env_entry tpx.env >>= λ extra_env.
      resolve_pairs declared_entry tpx.declared_output_env >>= λ declared_output_env. ok (record {
        ignored = ignored;
        list_format = list_format;
        run_format = run_format;
        batch_mode = batch_mode;
        batch_failure_policy = batch_failure_policy;
        duration_db = duration_db;
        cgroup_granularity = cgroup_granularity;
        cgroup_memory_max = cgroup_memory_max;
        overrides = overrides;
        shard = shard;
        extra_env = extra_env;
        declared_output_env = declared_output_env;
      })

  module _ (flaky_retry : Option ℕ) where
    config_of : TpxConfig → Checked → ResolvedConfig
    unfolding effective_args direct_libtest_args limits_of resolve_stress parse_user_args
        libtest_user_usage_error Variant.parse
    config_of tpx c = record {
      runner = record {
        per_test_timeout = from_secs tpx.timeout;
        listing_timeout = from_secs tpx.listing_timeout;
        cgroup_granularity = c.cgroup_granularity;
        cgroup_memory_max = c.cgroup_memory_max;
        cgroup_memory_max_overrides = c.overrides;
        ignored = c.ignored;
        batch_mode = c.batch_mode;
        batch_failure_policy = c.batch_failure_policy;
        variant = Variant.parse tpx.variant;
        stress = resolve_stress tpx.stress_count;
        stress_label_reps = max tpx.stress_label_reps 1;
        shard = c.shard;
        local_debug = tpx.local_debug;
        flaky_attempts = max tpx.flaky_attempts 1;
        cas_inline_limit = tpx.cas_inline_limit;
        duration_db = c.duration_db;
        libtest_help_only = (parse_user_args (effective_args tpx)).help;
        libtest_usage_error = libtest_user_usage_error (effective_args tpx);
        libtest_list_only = (parse_user_args (effective_args tpx)).listing_only;
        extra_test_args = tpx.test_arg;
        extra_env = c.extra_env;
        flaky_retry = flaky_retry;
      };
      list_format = c.list_format;
      run_format = c.run_format;
      limits = limits_of tpx;
      ci_test_report_json = tpx.ci_test_report_json;
      direct_args = direct_libtest_args tpx;
      declared_output_env = c.declared_output_env;
    }

    unfoldable pub resolve_config :
        OuterCli → TpxConfig → Result CliError (ResolvedConfig × SessionContext)
    unfolding check config_of context_of
    resolve_config outer tpx = check tpx >>= λ c. ok (config_of tpx c, context_of outer)

    module _ (outer_from : List Text → Result Text OuterCli)
        (tpx_from : List Text → Result Text TpxConfig) where
      unfoldable pub parse_argv : List Text → Result CliError Invocation
      unfolding resolve_transport resolve_config or_parse_error before_dashes after_dashes
          program_name
      parse_argv argv = or_parse_error (outer_from (before_dashes argv)) >>= λ outer.
          or_parse_error (tpx_from (program_name (after_dashes argv))) >>= λ tpx.
          resolve_transport outer >>= λ transport. resolve_config outer tpx >>= λ resolved.
          ok (record { transport = transport; config = resolved.0; context = resolved.1 })
