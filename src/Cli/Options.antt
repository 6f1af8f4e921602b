-- ===== src/Cli/Options.antt =====
-- src/cli.rs: the options as `clap` leaves them, the arguments that they hold for libtest, and the
-- transport that they name.
use quokka.Prelude.{
  Text, text, Bool, Option, none, some, ℕ, if◌then◌else◌, List, [], ◌∷◌, ◌++◌, Result, ok, err,
  nat_key, text_key,
}

pub record OuterCli : Type 0 where
  pub buck_trace_id : Option Text
  pub config_entry : List Text
  pub executor_fd : Option ℕ
  pub orchestrator_fd : Option ℕ
  pub executor_addr : Option Text
  pub orchestrator_addr : Option Text

pub record TpxConfig : Type 0 where
  pub env : List Text
  pub declared_output_env : List Text
  pub test_arg : List Text
  pub timeout : ℕ
  pub listing_timeout : ℕ
  pub cgroup_granularity : Text
  pub cgroup_memory_max_overrides : List Text
  pub include_ignored_flag : Bool
  pub ignored_flag : Bool
  pub ignored_only_flag : Bool
  pub list_format : Text
  pub run_format : Text
  pub batch_mode : Text
  pub chunk_size : ℕ
  pub batch_threshold_ms : ℕ
  pub batch_failure_policy : Text
  pub variant : Text
  pub stress_count : ℕ
  pub stress_label_reps : ℕ
  pub shard_index : ℕ
  pub shard_count : ℕ
  pub local_debug : Bool
  pub flaky_attempts : ℕ
  pub duration_db : Option Text
  pub no_duration_db : Bool
  pub ci_test_report_json : Option Text
  pub cas_inline_limit : ℕ
  pub max_inflight_test_actions : ℕ
  pub max_inflight_listings : ℕ
  pub max_inflight_per_target : ℕ
  pub libtest_force_run_in_process : Bool
  pub libtest_exclude_should_panic : Bool
  pub libtest_test : Bool
  pub libtest_bench : Bool
  pub libtest_list : Bool
  pub libtest_fail_fast : Bool
  pub libtest_help : Bool
  pub libtest_logfile : Option Text
  pub libtest_no_capture : Bool
  pub libtest_test_threads : Option Text
  pub libtest_skip : List Text
  pub libtest_quiet : Bool
  pub libtest_exact : Bool
  pub libtest_color : Option Text
  pub libtest_format : Option Text
  pub libtest_show_output : Bool
  pub libtest_unstable_options : List Text
  pub libtest_report_time : Bool
  pub libtest_ensure_time : Bool
  pub libtest_shuffle : Bool
  pub libtest_shuffle_seed : Option Text
  pub libtest_filters : List Text

flag : Bool → Text → List Text
flag given name = if given then name ∷ [] else []

valued_flag : Text → Option Text → List Text
valued_flag name none = []
valued_flag name (some value) = name ∷ value ∷ []

repeated_flag : Text → List Text → List Text
repeated_flag name [] = []
repeated_flag name (value ∷ values) = name ∷ value ∷ repeated_flag name values

unfoldable pub direct_libtest_args : TpxConfig → List Text
unfolding flag valued_flag repeated_flag
direct_libtest_args tpx =
    tpx.libtest_filters
    ++ flag tpx.libtest_exact (text "--exact")
    ++ repeated_flag (text "--skip") tpx.libtest_skip
    ++ flag tpx.libtest_force_run_in_process (text "--force-run-in-process")
    ++ flag tpx.libtest_exclude_should_panic (text "--exclude-should-panic")
    ++ flag tpx.libtest_test (text "--test")
    ++ flag tpx.libtest_bench (text "--bench")
    ++ flag tpx.libtest_list (text "--list")
    ++ flag tpx.libtest_fail_fast (text "--fail-fast")
    ++ flag tpx.libtest_help (text "--help")
    ++ valued_flag (text "--logfile") tpx.libtest_logfile
    ++ flag tpx.libtest_no_capture (text "--no-capture")
    ++ valued_flag (text "--test-threads") tpx.libtest_test_threads
    ++ flag tpx.libtest_quiet (text "--quiet")
    ++ valued_flag (text "--color") tpx.libtest_color
    ++ valued_flag (text "--format") tpx.libtest_format
    ++ flag tpx.libtest_show_output (text "--show-output")
    ++ repeated_flag (text "-Z") tpx.libtest_unstable_options
    ++ flag tpx.libtest_report_time (text "--report-time")
    ++ flag tpx.libtest_ensure_time (text "--ensure-time")
    ++ flag tpx.libtest_shuffle (text "--shuffle")
    ++ valued_flag (text "--shuffle-seed") tpx.libtest_shuffle_seed

pub data Transport : Type 0 where
  unix_fds : (executor_fd orchestrator_fd : ℕ) → Transport
  tcp : (executor_addr orchestrator_addr : Text) → Transport

pub data CliError : Type 0 where
  missing_transport ignored_only_needs_json_listing conflicting_duration_db_flags : CliError
  invalid_value : (field value : Text) → CliError
  invalid_env invalid_declared_output_env : Text → CliError
  shard_out_of_range : (index count : ℕ) → CliError
  parse_error : Text → CliError

by_address : Option Text → Option Text → Result CliError Transport
by_address (some executor) (some orchestrator) = ok (tcp executor orchestrator)
by_address _ _ = err missing_transport

transport_of : Option ℕ → Option ℕ → Option Text → Option Text → Result CliError Transport
unfolding by_address
transport_of (some executor) (some orchestrator) _ _ = ok (unix_fds executor orchestrator)
transport_of none _ executor orchestrator = by_address executor orchestrator
transport_of (some _) none executor orchestrator = by_address executor orchestrator

unfoldable pub resolve_transport : OuterCli → Result CliError Transport
unfolding transport_of
resolve_transport outer =
    transport_of outer.executor_fd outer.orchestrator_fd outer.executor_addr outer.orchestrator_addr
