-- ===== src/Examples/CommandLine.antt =====
-- src/cli.rs: two command lines and what they resolve to.
use quokka.Prelude.{
  Text, text, true, false, none, some, ◌≡◌, refl, List, [], ◌∷◌, drop, Result, ok, err, nat_key,
  text_key,
}
use quokka.Std.{starts_with}
use quokka.Execution
use quokka.Variant
use quokka.Batching.{rerun_per_test_to_isolate}
use quokka.Batching
use quokka.Config.{ignored_only, exclude_ignored}
use quokka.Config
use quokka.Translator.Libtest.{json_list, json_run}
use quokka.Cli.Options.{OuterCli, TpxConfig, unix_fds, invalid_value}
use quokka.Cli.Values.{not_present}
use quokka.Cli.{Invocation, parse_argv}
use quokka.Cli.Laws.{IsResolved, parse_argv-IsResolved}

abbrev outer_from : List Text → Result Text OuterCli
outer_from args = ok (record {
  buck_trace_id = some (text "trace");
  config_entry = text "config=debug" ∷ text "host=linux" ∷ [];
  executor_fd = some 3;
  orchestrator_fd = some 4;
  executor_addr = none;
  orchestrator_addr = none;
})

-- The filters are the arguments behind the name of the program.
abbrev options : List Text → List Text → TpxConfig
options overrides filters = record {
  env = text "RUST_LOG=a=b" ∷ [];
  declared_output_env = text "OUT=dir" ∷ [];
  test_arg = [];
  timeout = 600;
  listing_timeout = 60;
  cgroup_granularity = text "logical-test";
  cgroup_memory_max_overrides = overrides;
  include_ignored_flag = false;
  ignored_flag = true;
  ignored_only_flag = false;
  list_format = text "json";
  run_format = text "json";
  batch_mode = text "fixed-chunk";
  chunk_size = 0;
  batch_threshold_ms = 20;
  batch_failure_policy = text "isolate";
  variant = text "asan";
  stress_count = 0;
  stress_label_reps = 0;
  shard_index = 1;
  shard_count = 2;
  local_debug = false;
  flaky_attempts = 0;
  duration_db = some (text "db");
  no_duration_db = false;
  ci_test_report_json = none;
  cas_inline_limit = 65536;
  max_inflight_test_actions = 2000;
  max_inflight_listings = 0;
  max_inflight_per_target = 128;
  libtest_force_run_in_process = false;
  libtest_exclude_should_panic = false;
  libtest_test = false;
  libtest_bench = false;
  libtest_list = false;
  libtest_fail_fast = false;
  libtest_help = false;
  libtest_logfile = none;
  libtest_no_capture = false;
  libtest_test_threads = none;
  libtest_skip = text "slow" ∷ [];
  libtest_quiet = false;
  libtest_exact = true;
  libtest_color = none;
  libtest_format = none;
  libtest_show_output = false;
  libtest_unstable_options = [];
  libtest_report_time = false;
  libtest_ensure_time = false;
  libtest_shuffle = false;
  libtest_shuffle_seed = none;
  libtest_filters = filters;
}

abbrev tpx_from : List Text → List Text → Result Text TpxConfig
tpx_from overrides args = ok (options overrides (drop 1 args))

abbrev command_line : List Text
command_line = text "quokka" ∷ text "--executor-fd" ∷ text "--" ∷ text "ignored" ∷ text "ring" ∷ []

abbrev two_overrides : List Text
two_overrides = text "t|a|1024" ∷ text "t|b|max" ∷ []

abbrev invocation : Invocation
invocation = record {
  transport = unix_fds 3 4;
  config = record {
    runner = record {
      per_test_timeout = 600_000_000_000;
      listing_timeout = 60_000_000_000;
      cgroup_granularity = Execution.logical_test;
      cgroup_memory_max = Execution.bytes 1572864000;
      cgroup_memory_max_overrides =
          record { target = text "t"; test = text "a"; memory_max = Execution.bytes 1024 }
          ∷ record { target = text "t"; test = text "b"; memory_max = Execution.unlimited }
          ∷ [];
      ignored = ignored_only;
      batch_mode = Batching.fixed_chunk 1;
      batch_failure_policy = rerun_per_test_to_isolate;
      variant = Variant.asan;
      stress = Variant.once;
      stress_label_reps = 1;
      shard = record { index = 1; count = 2 };
      local_debug = false;
      flaky_attempts = 1;
      cas_inline_limit = 65536;
      duration_db = Config.persistent (text "db");
      libtest_help_only = false;
      libtest_usage_error = none;
      libtest_list_only = false;
      extra_test_args = [];
      extra_env = (text "RUST_LOG", text "a=b") ∷ [];
      flaky_retry = none;
    };
    list_format = json_list;
    run_format = json_run;
    limits = record {
      max_inflight_listings = 1;
      max_inflight_test_actions = 2000;
      max_inflight_per_target = 128;
      max_report_queue = 1024;
    };
    ci_test_report_json = none;
    direct_args = text "ring" ∷ text "--exact" ∷ text "--skip" ∷ text "slow" ∷ [];
    declared_output_env = (text "OUT", text "dir") ∷ [];
  };
  context = record { host_platform = some (text "linux"); trace_id = some (text "trace") };
}

accepted :
    parse_argv (err not_present) none outer_from (tpx_from two_overrides) command_line
    ≡ ok invocation
unfolding parse_argv starts_with
accepted = refl

-- The second override of one test is refused.
refused :
    parse_argv
      (err not_present)
      none
      outer_from
      (tpx_from (text "t|a|1024" ∷ text "t|a|max" ∷ []))
      command_line
    ≡ err (invalid_value (text "cgroup-memory-max-override") (text "t|a|max"))
unfolding parse_argv starts_with
refused = refl

parse_argv-IsResolved_example : IsResolved invocation.config
parse_argv-IsResolved_example =
    parse_argv-IsResolved (err not_present) none outer_from (tpx_from two_overrides) command_line
      invocation accepted
