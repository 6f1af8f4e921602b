-- ===== src/Examples/Data.antt =====
-- A target with two tests, a session with an executor that always answers, and a history.
use quokka.Prelude.{
  Text, text, false, none, some, ℕ, zero, suc, List, [], ◌∷◌, ◌++◌, length, nat_key, text_key,
}
use quokka.Prelude.{pos}
use quokka.Wire
use quokka.Wire.{ExecuteResponse2, ExecutionResult2}
use quokka.Outcome.{TestIdentity, TestVerdict, ProcessOutcome, build_test_result, RunIdentity}
use quokka.Variant
use quokka.Caching.{cacheable}
use quokka.Policy
use quokka.Policy.{RetryPolicy}
use quokka.Environment.{default_profile}
use quokka.Batching
use quokka.Batching.{BatchMode, rerun_per_test_to_isolate}
use quokka.Execution
use quokka.Config.{RunnerConfig, exclude_ignored}
use quokka.Config
use quokka.Spec.{TargetSpec}
use quokka.Translator.{
  Translator, TestCase, PerTestObservation, per_test_listing, whole_target, test, name_attributable,
}
use quokka.DurationDb.{DurationDb, ephemeral}
use quokka.DurationDb
use quokka.Scheduler.Verdict.{
  FinishedTest, complete, missing_terminal_result, ReporterMessage, measured, physical,
}
use quokka.Scheduler.Verdict
use quokka.Scheduler.Plan.{TargetPlan}
use quokka.Scheduler.Best.{BestObs}
use quokka.Scheduler.Group.{Observed}
use quokka.Scheduler.Request.{Session, RpcAnswer, answered}
use quokka.Scheduler.Action.{ActionState, initial}

abbrev pub parser_ok : Text
parser_ok = text "parser::ok"

abbrev pub lexer_bad : Text
lexer_bad = text "lexer::bad"

abbrev pub config : RunnerConfig
config = record {
  per_test_timeout = 60_000_000_000;
  cgroup_granularity = Execution.action;
  cgroup_memory_max = Execution.unlimited;
  cgroup_memory_max_overrides = [];
  ignored = exclude_ignored;
  batch_mode = Batching.fixed_chunk 4;
  batch_failure_policy = rerun_per_test_to_isolate;
  variant = Variant.default;
  stress = Variant.once;
  stress_label_reps = 10;
  shard = record { index = 0; count = 1 };
  flaky_attempts = 2;
  cas_inline_limit = 1024;
  duration_db = Config.disabled;
  libtest_help_only = false;
  libtest_usage_error = none;
  libtest_list_only = false;
  extra_test_args = [];
  extra_env = [];
  listing_timeout = 60_000_000_000;
  local_debug = false;
  flaky_retry = none;
}

abbrev pub case_of : Text → TestCase
case_of name = record { name = name; kind = test; ignored = false }

abbrev passed_observation : PerTestObservation
passed_observation = record {
  status = TestVerdict.pass;
  details = [];
  framework_case_duration = none;
}

-- A framework that reports one of the two tests as passed and says nothing of the other.
abbrev pub translator : Translator
translator = record {
  declares_executor_overrides = false;
  parser_capability = name_attributable;
  listing_strategy = per_test_listing (λ i extra. extra) (λ out i. none);
  execution_args = λ names i extra. names ++ extra;
  parse_results = λ out errors. (parser_ok, passed_observation) ∷ [];
}

abbrev pub doctests : Translator
doctests = record translator { listing_strategy = whole_target (text "<doctests>") }

abbrev pub spec : TargetSpec
spec = record {
  handle = pos 7;
  suite = text "lib";
  display = text "root//lib:lib";
  target_platform = none;
  test_type = text "rust";
  command = [];
  env = [];
  labels = [];
  contacts = [];
  oncall = none;
}

abbrev pub plan : TargetPlan
plan = record {
  spec = spec;
  translator = translator;
  ignored = exclude_ignored;
  cache_class = cacheable;
  retry = record { max_attempts = 2 };
  quarantine = Policy.active;
  timeout = 60_000_000_000;
  profile = default_profile;
  owner = Policy.unowned;
  batch_mode = none;
  repeat = Variant.once;
}

abbrev pub doctest_plan : TargetPlan
doctest_plan = record plan { translator = doctests }

-- The process ended with exit code 1 after a millisecond.
abbrev pub answer : RpcAnswer
answer = answered (record {
  response = some (
      Wire.Response.result (record {
        status = some (some (Wire.Status.finished (pos 1)));
        stdout = none;
        stderr = none;
        execution_time = some (record { seconds = pos 0; nanos = pos 1_000_000 });
        execution_details = none;
        max_memory_used_bytes = none;
      }));
})

-- The first two requests time out in the executor's queue.
abbrev queue_timeout : RpcAnswer
queue_timeout = answered (record { response = some (Wire.Response.cancelled (some (pos 1))) })

abbrev executor : ℕ → RpcAnswer
executor zero = queue_timeout
executor (suc zero) = queue_timeout
executor (suc (suc n)) = answer

abbrev pub hash_key : TestIdentity → ℕ
hash_key id = length id.name

abbrev pub session : Session
session = record {
  config = config;
  estimates = ephemeral;
  hash_key = hash_key;
  execute2 = λ n request. executor n;
}

abbrev pub id_of : Text → TestIdentity
id_of name = record { target = text "root//lib:lib"; name = name; variant = Variant.default }

abbrev run_of : Text → RunIdentity
run_of name = record { test = id_of name; repeat = Variant.once; repeat_index = 0 }

-- A finished test with this verdict.
abbrev finished_test : Text → TestVerdict → FinishedTest
finished_test name status = record {
  result = build_test_result (run_of name) (pos 7) status none [] none;
  console_name = name;
  run_id = run_of name;
  test_id = id_of name;
  status = status;
  integrity = complete;
  quarantined = false;
  labels = [];
  db_observations = [];
  attempt_history = [];
}

abbrev pub messages : List ReporterMessage
messages =
    Verdict.discovered (id_of parser_ok ∷ [])
    ∷ Verdict.finished
        (finished_test parser_ok TestVerdict.pass ∷ finished_test lexer_bad TestVerdict.fail ∷ [])
    ∷ Verdict.target_dropped (text "no translator")
    ∷ []

abbrev pub lost : BestObs
lost = record {
  status = TestVerdict.fatal;
  integrity = missing_terminal_result;
  details = [];
  duration = measured 5;
  max_memory = none;
}

abbrev pub lost_state : ActionState
lost_state = record initial { best = (lexer_bad, lost) ∷ [] }

-- A whole unit whose output was read as one result of another name.
abbrev pub observed_unit : Observed
observed_unit = record {
  observations = (parser_ok, passed_observation) ∷ [];
  raw = ProcessOutcome.finished (pos 0);
  stdout = [];
  stderr = [];
  action_oom = none;
  execution_time = 5;
  max_memory = none;
  execution = physical DurationDb.local;
}
