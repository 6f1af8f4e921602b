-- ===== src/Cli/Values.antt =====
-- src/cli.rs, `resolve_config`: the options one by one, as typed values or errors.
use quokka.Prelude.{
  Text, text, text_eq, split_once, Bool, true, false, ◌&&◌, ◌||◌, Option, none, some, ℕ, zero, suc,
  max, leb, if◌then◌else◌, List, [], ◌∷◌, ◌++◌, any, is_empty, Result, ok, err, ◌>>=◌, nat_key,
  text_key,
}
use quokka.Variant.{RepeatKind, once, stress}
use quokka.Batching.{
  BatchMode, per_test, duration_bucketed, fixed_chunk, target, BatchFailurePolicy, fail_all,
  rerun_per_test_to_isolate,
}
use quokka.Execution.{
  CgroupGranularity, logical_test, action, CgroupMemoryMax, CgroupMemoryMaxOverride,
  parse_memory_max, parse_override,
}
use quokka.Config.{
  IgnoredPolicy, exclude_ignored, include_ignored, ignored_only, ShardSpec, DurationDbConfig, auto,
  disabled, persistent,
}
use quokka.Translator.Libtest.{
  ListFormat, text_list, json_list, RunFormat, text_run, json_run, parse_user_args,
}
use quokka.Cli.Options.{
  TpxConfig, CliError, invalid_value, conflicting_duration_db_flags,
  ignored_only_needs_json_listing, shard_out_of_range, invalid_env, invalid_declared_output_env,
}

-- What `std::env::var` answers; a value that is no UTF-8 comes with its lossy text.
pub data VarError : Type 0 where
  not_present : VarError
  not_unicode : (lossy : Text) → VarError

merge_policy : IgnoredPolicy → IgnoredPolicy → Result CliError IgnoredPolicy
merge_policy exclude_ignored policy = ok policy
merge_policy include_ignored include_ignored = ok include_ignored
merge_policy ignored_only ignored_only = ok ignored_only
merge_policy _ _ = err (invalid_value (text "ignored") (text "--include-ignored with --ignored"))

unfoldable pub resolve_ignored : IgnoredPolicy → List IgnoredPolicy → Result CliError IgnoredPolicy
unfolding merge_policy
resolve_ignored ignored [] = ok ignored
resolve_ignored ignored (policy ∷ policies) =
    merge_policy ignored policy >>= λ merged. resolve_ignored merged policies

unfoldable pub given_policies : TpxConfig → List Text → List IgnoredPolicy
unfolding parse_user_args
given_policies tpx libtest_args =
    (if tpx.include_ignored_flag then include_ignored ∷ [] else [])
    ++ (if tpx.ignored_flag || tpx.ignored_only_flag then ignored_only ∷ [] else [])
    ++ (parse_user_args libtest_args).ignored_policies

unfoldable pub resolve_list_format : Text → Result CliError ListFormat
resolve_list_format value =
    if text_eq value (text "text")
    then ok text_list
    else if text_eq value (text "json")
    then ok json_list
    else err (invalid_value (text "list-format") value)

unfoldable pub check_listing : IgnoredPolicy → ListFormat → Result CliError ListFormat
check_listing ignored_only text_list = err ignored_only_needs_json_listing
check_listing _ list_format = ok list_format

unfoldable pub resolve_run_format : Text → Result CliError RunFormat
resolve_run_format value =
    if text_eq value (text "text")
    then ok text_run
    else if text_eq value (text "json")
    then ok json_run
    else err (invalid_value (text "run-format") value)

unfoldable pub resolve_batch_mode : Text → ℕ → ℕ → Result CliError BatchMode
resolve_batch_mode value batch_threshold_ms chunk_size =
    if text_eq value (text "per-test")
    then ok per_test
    else if text_eq value (text "duration-bucketed")
    then ok (duration_bucketed batch_threshold_ms)
    else if text_eq value (text "fixed-chunk")
    then ok (fixed_chunk (max chunk_size 1))
    else if text_eq value (text "target")
    then ok target
    else err (invalid_value (text "batch-mode") value)

unfoldable pub resolve_batch_failure_policy : Text → Result CliError BatchFailurePolicy
resolve_batch_failure_policy value =
    if text_eq value (text "isolate")
    then ok rerun_per_test_to_isolate
    else if text_eq value (text "fail-all")
    then ok fail_all
    else err (invalid_value (text "batch-failure-policy") value)

unfoldable pub resolve_duration_db : Bool → Option Text → Result CliError DurationDbConfig
resolve_duration_db true (some path) = err conflicting_duration_db_flags
resolve_duration_db true none = ok disabled
resolve_duration_db false (some path) = ok (persistent path)
resolve_duration_db false none = ok auto

unfoldable pub resolve_cgroup_granularity : Text → Result CliError CgroupGranularity
resolve_cgroup_granularity value =
    if text_eq value (text "logical-test")
    then ok logical_test
    else if text_eq value (text "action")
    then ok action
    else err (invalid_value (text "cgroup-granularity") value)

abbrev memory_variable : Text
memory_variable = text "NOBIE_RUST_TEST_CGROUP_MEMORY_MAX_BYTES"

-- `ok_or_else`
ok_or : {A : Type 0} → CliError → Option A → Result CliError A
ok_or e none = err e
ok_or e (some a) = ok a

unfoldable pub resolve_memory_max : Result VarError Text → Result CliError CgroupMemoryMax
unfolding ok_or parse_memory_max
resolve_memory_max (ok value) = ok_or (invalid_value memory_variable value) (parse_memory_max value)
resolve_memory_max (err not_present) =
    ok_or (invalid_value memory_variable (text "1572864000")) (parse_memory_max (text "1572864000"))
resolve_memory_max (err (not_unicode lossy)) = err (invalid_value memory_variable lossy)

unfoldable pub same_test : CgroupMemoryMaxOverride → CgroupMemoryMaxOverride → Bool
same_test parsed existing =
    text_eq existing.target parsed.target && text_eq existing.test parsed.test

abbrev bad_override : Text → CliError
bad_override raw = invalid_value (text "cgroup-memory-max-override") raw

-- The override joins those before it, unless one of them names the same test.
unfoldable pub push_override :
    List CgroupMemoryMaxOverride
    → Text
    → Option CgroupMemoryMaxOverride
    → Result CliError (List CgroupMemoryMaxOverride)
unfolding same_test
push_override overrides raw none = err (bad_override raw)
push_override overrides raw (some parsed) =
    if any (same_test parsed) overrides
    then err (bad_override raw)
    else ok (overrides ++ parsed ∷ [])

unfoldable pub resolve_overrides :
    List CgroupMemoryMaxOverride → List Text → Result CliError (List CgroupMemoryMaxOverride)
unfolding push_override parse_override split_once
resolve_overrides overrides [] = ok overrides
resolve_overrides overrides (raw ∷ raws) =
    push_override overrides raw (parse_override raw) >>= λ more. resolve_overrides more raws

unfoldable pub resolve_stress : ℕ → RepeatKind
resolve_stress zero = once
resolve_stress (suc n) = stress (suc n)

unfoldable pub resolve_shard : ShardSpec → Result CliError ShardSpec
resolve_shard shard =
    if leb shard.count shard.index
    then err (shard_out_of_range shard.index shard.count)
    else ok shard

unfoldable pub env_entry : Text → Option (Text × Text) → Result CliError (Text × Text)
env_entry entry none = err (invalid_env entry)
env_entry entry (some pair) = ok pair

unfoldable pub declared_entry : Text → Option (Text × Text) → Result CliError (Text × Text)
declared_entry entry none = err (invalid_declared_output_env entry)
declared_entry entry (some (k, v)) =
    if is_empty k || is_empty v then err (invalid_declared_output_env entry) else ok (k, v)

-- `for entry in entries { … push … }`
unfoldable pub resolve_pairs :
    (Text → Option (Text × Text) → Result CliError (Text × Text))
    → List Text
    → Result CliError (List (Text × Text))
unfolding split_once
resolve_pairs read [] = ok []
resolve_pairs read (entry ∷ entries) = read entry (split_once entry b'=') >>= λ pair.
    resolve_pairs read entries >>= λ pairs. ok (pair ∷ pairs)
