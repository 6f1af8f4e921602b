-- ===== src/Examples/Session.antt =====
-- The statements on targets and sessions at concrete inputs.
use quokka.Prelude.{
  Text, text, Bool, true, false, Option, none, some, ℕ, ◌≡◌, refl, ◌⊎◌, List, [], ◌∷◌, ◌++◌, Perm,
  arith, ok, lookup, insert, nat_key, text_key,
}
use quokka.Prelude.{pos, sort}
use quokka.Std.{dedup}
use quokka.Variant.{count, is_stress}
use quokka.Policy.{retry_policy}
use quokka.Execution.{cgroup_memory_max_for_action, parse_resource_failures}
use quokka.Outcome.{decode_response}
use quokka.DurationDb.{record_at, record_discovered_name}
use quokka.Scheduler.Best.{merge_best, into_outcome}
use quokka.Scheduler.Action.{name_result}
use quokka.Scheduler.Verdict.{exit_code, fresh_environment, from_exec_kind, report_disposition}
use quokka.Scheduler.Reporter.{reporter_task}
use quokka.Scheduler.Target.Laws.{messages}
use mathlib.Core.List.Perm
use quokka.Wire
use quokka.Wire.{ExecuteResponse2, ExecutionResult2}
use quokka.Translator.{Translator, whole_target}
use quokka.Config.{RunnerConfig}
use quokka.Spec
use quokka.Spec.{TargetSpec, ExternalRunnerSpec, ConfiguredTarget, from_proto}
use quokka.Spec.Laws.{Echoes, from_proto-Echoes}
use quokka.Execution.Command.{ExecuteRequest2, quoted_args}
use quokka.Execution.Command.Quoting.{ends_word}
use quokka.Execution.Command.Laws.{read_words, read_words-quoted_args}
use quokka.DurationDb.{ephemeral}
use quokka.Scheduler.Verdict.{ReporterMessage}
use quokka.Scheduler.Request.{Session, RpcAnswer, answered}
use quokka.Batching.{partition}
use quokka.Scheduler.Plan.{derive}
use quokka.Scheduler.Shard.{shard_filter}
use quokka.Scheduler.Batches.{build_batches, chosen_mode}
use quokka.Scheduler.Execute.{execute_test_action}
use quokka.Scheduler.Attempts.{run_attempts}
use quokka.Scheduler.Request.{run_group}
use quokka.Scheduler.Group.{classify}
use quokka.Scheduler.Target.{Event, run_per_test_target}
use quokka.Scheduler.Listing.{tests_of_target}
use quokka.Scheduler.Target.Complete
use quokka.Scheduler.Target.Complete.{run_per_test_target_lem}
use quokka.Scheduler.Run
use quokka.Scheduler.Run.{SpecEnvelope, received, run, end_of_requests}
use quokka.Scheduler.Run.ExitCode
use quokka.Scheduler.Run.ExitCode.{run-Green, run_total}
use quokka.Examples.Data.{config, session, plan, translator, hash_key}

-- A framework that runs a target as a whole and says nothing of its own: the exit code decides.
abbrev silent : Translator
silent = record translator {
  listing_strategy = whole_target (text "<doctests>");
  parse_results = λ out errors. [];
}

abbrev registry : Text → RunnerConfig → Option Translator
registry test_type c = some silent

abbrev proto : ExternalRunnerSpec
proto = record {
  target = some (record {
    handle = some (pos 7);
    cell = text "root";
    package_ = text "lib";
    target = text "doc";
    configuration = [];
  });
  test_type = text "rust_doctest_v1";
  command = some (Spec.arg_handle (pos 1)) ∷ some (Spec.verbatim (text "--nocapture")) ∷ [];
  env =
      (text "ZED", some (Spec.verbatim (text "1")))
      ∷ (text "ABLE", some (Spec.env_handle (text "2")))
      ∷ [];
  labels = [];
  contacts = [];
  oncall = none;
}

-- The process ended with exit code 0.
abbrev answer : RpcAnswer
answer = answered (record {
  response = some (
      Wire.Response.result (record {
        status = some (some (Wire.Status.finished (pos 0)));
        stdout = none;
        stderr = none;
        execution_time = some (record { seconds = pos 0; nanos = pos 1_000_000 });
        execution_details = none;
        max_memory_used_bytes = none;
      }));
})

abbrev green : Session
green = record {
  config = config;
  estimates = ephemeral;
  hash_key = hash_key;
  execute2 = λ n request. answer;
}

abbrev note : Text → Text
note details = []

abbrev never : ℕ → Bool
never n = false

abbrev always : ℕ → Bool
always n = true

abbrev no_panic : ℕ → Option (ℕ × Text)
no_panic n = none

abbrev listing : ℕ → ExecuteRequest2 → RpcAnswer
listing n request = answer

abbrev supervisor : Text
supervisor = text "supervisor"

abbrev clock : ℕ → ℕ
clock n = n

abbrev in_order : List ReporterMessage → List ReporterMessage
in_order ms = ms

arrives : (ms : List ReporterMessage) → Perm (in_order ms) ms
arrives ms = Perm.rfl

abbrev intake : List SpecEnvelope
intake = Run.spec proto ∷ end_of_requests ∷ []

from_proto_ok : (t : TargetSpec) × (from_proto proto ≡ ok t)
unfolding from_proto
from_proto_ok = (_, refl)

from_proto-Echoes_example : Echoes proto from_proto_ok.0
from_proto-Echoes_example = from_proto-Echoes proto from_proto_ok.0 from_proto_ok.1

read_words_example :
    read_words 3 (quoted_args (text "it's" ∷ [] ∷ text "a b; $c" ∷ []) ++ text " || x")
    ≡ some (text "it's" ∷ [] ∷ text "a b; $c" ∷ [], text " || x")
unfolding ends_word
read_words_example =
    read_words-quoted_args (text "it's" ∷ [] ∷ text "a b; $c" ∷ []) (text " || x") refl

exit_zero :
    run green note registry never supervisor listing always clock in_order ephemeral no_panic false
      false intake
    ≡ some 0
unfolding run from_proto derive run_per_test_target tests_of_target shard_filter build_batches
    partition execute_test_action run_attempts run_group classify sort count is_stress retry_policy
    cgroup_memory_max_for_action decode_response lookup parse_resource_failures merge_best
    name_result insert exit_code reporter_task messages dedup fresh_environment from_exec_kind
    report_disposition record_at record_discovered_name into_outcome
exit_zero = refl

run-Green_example :
    ExitCode.Green green note registry never supervisor listing always clock in_order arrives
      ephemeral no_panic false false
      (received intake)
run-Green_example =
    run-Green green note registry never supervisor listing always clock in_order arrives ephemeral
      no_panic false false intake (omega arith) refl refl exit_zero

abbrev code : Option ℕ
code =
    run green note registry never supervisor listing always clock in_order ephemeral no_panic false
      false intake

run_total_example : (code ≡ some 0) ⊎ (code ≡ some 32)
run_total_example =
    run_total green note registry never supervisor listing always clock in_order arrives ephemeral
      no_panic false false intake (omega arith)

-- A listing that ends with exit code 1.
run_per_test_target_example :
    (events : List Event) × (calls : ℕ) × (run_per_test_target session note never plan supervisor
        listing 0
      ≡ some (events, calls))
    × Complete.Answers session note never plan
        (tests_of_target supervisor listing config plan)
        events
unfolding chosen_mode
run_per_test_target_example =
    run_per_test_target_lem session note never plan supervisor listing 0 (omega arith)
