-- ===== src/Examples/Actions.antt =====
-- The statements on actions, their requests and their attempts at concrete inputs.
use quokka.Prelude.{
  Text, text, text_eq, true, false, Option, none, some, ℕ, if◌then◌else◌, ◌≡◌, refl, sym, ◌⊎◌, inl,
  List, [], ◌∷◌, map, Perm, arith, filter, All, lookup, nat_key, text_key,
}
use quokka.Caching.{enabled, TestExecutionCaching}
use quokka.Batching.{all}
use quokka.Scheduler.Verdict.{FinishedTest, failure, disposition_of}
use quokka.Scheduler.Group.{GroupOutcome, classify}
use quokka.Scheduler.Best.{merge_best}
use quokka.Scheduler.Best.Laws.{better, lookup-merge_best, IsIncomplete, merge_best-IsIncomplete}
use quokka.Scheduler.Request.{Session, TestingRequest, RpcAnswer, rpc_failed, run_group}
use quokka.Config.{RunnerConfig}
use quokka.Spec.{TargetSpec}
use quokka.Translator.{Translator}
use quokka.Scheduler.Plan.{TargetPlan}
use quokka.Scheduler.Request.Laws.{run_group_total}
use quokka.Scheduler.Request.Laws
use quokka.Scheduler.Request.Caching.{run_group-fresh}
use quokka.Scheduler.Action.{initial, is_whole_unit, is_synthetic}
use quokka.Scheduler.Attempts.{run_attempts, End}
use quokka.Scheduler.Attempts.Totality.{run_attempts_total}
use quokka.Scheduler.Execute.{execute_test_action}
use quokka.Scheduler.Execute.Answers.{name_of}
use quokka.Scheduler.Execute.Laws.{execute_test_action_lem, execute_test_action-IsIncomplete}
use quokka.Scheduler.Execute.Synthetic.{SaysNothingOf, execute_test_action-synthetic}
use quokka.Execution.{parse_resource_failures}
use quokka.Scheduler.Verdict.{fresh_environment}
use quokka.Scheduler.Verdict.{from_exec_kind}
use quokka.Execution.{cgroup_memory_max_for_action}
use quokka.Examples.Data.{
  answer, translator, spec, session, plan, doctest_plan, lost, lost_state, observed_unit, parser_ok,
  lexer_bad,
}
use quokka.Prelude.{pos}
use quokka.Wire
use quokka.Wire.{ExecutionResult2, ExecuteResponse2}
use quokka.Outcome.{TestVerdict, ProcessOutcome, decode_response, decode_result, is_failure}
use quokka.Outcome.Laws.{decode_response-finished}
use quokka.Translator.{PerTestObservation}
use quokka.Scheduler.Action.{name_result}
use quokka.Scheduler.Action.Laws.{name_result-pass}
use quokka.Scheduler.Verdict.{TestOutcome, complete, unmeasured}
use quokka.Scheduler.Details.Laws.{Contains}
use quokka.Scheduler.Execute.{make_finished}
use quokka.Scheduler.Execute.Kept.{make_finished-Contains}
use quokka.Batching.{TestSelection}
use quokka.Batching.Buckets.{members}
use quokka.Translator.{TestCase, name_attributable}
use quokka.DurationDb.{ephemeral}
use quokka.Scheduler.Batches.{build_batches, chosen_mode}
use quokka.Scheduler.Batches.Laws.{build_batches-perm}
use quokka.Execution.{is_logical_test}
use quokka.Examples.Data.{config, hash_key, case_of}

abbrev names : List Text
names = parser_ok ∷ lexer_bad ∷ []

abbrev no_note : Text → Text
no_note details = []

abbrev first : ℕ
first = 0

merge_best_example : lookup lexer_bad (merge_best lost_state.best lexer_bad lost) ≡ (
    if text_eq lexer_bad lexer_bad
    then some (better (lookup lexer_bad lost_state.best) lost)
    else lookup lexer_bad lost_state.best)
merge_best_example = lookup-merge_best lost_state.best lexer_bad lexer_bad lost

merge_best-IsIncomplete_example :
    IsIncomplete (lookup lexer_bad (merge_best lost_state.best lexer_bad lost))
unfolding lookup
merge_best-IsIncomplete_example =
    merge_best-IsIncomplete lost_state.best lexer_bad lexer_bad lost refl

-- Two queue timeouts and an answer.
run_group_example :
    Laws.Ends session plan all names 0 0 (run_group session plan all names 0 0 0) 0 3
run_group_example = run_group_total session plan all names 0 0 0

-- An executor that loses what it would answer from the cache.
abbrev unless_cached : TestExecutionCaching → RpcAnswer → RpcAnswer
unless_cached enabled a = rpc_failed (text "lost")
unless_cached TestExecutionCaching.disabled a = a

abbrev cacheless : ℕ → TestingRequest → RpcAnswer
cacheless n r = unless_cached r.caching (session.execute2 n r)

-- A retry of an action.
run_group-fresh_example :
    run_group session plan all names 0 1 0
    ≡ run_group (record session { execute2 = cacheless }) plan all names 0 1 0
run_group-fresh_example =
    run_group-fresh session cacheless plan all names 0 1 (λ n r h. rw h refl) 0
      (λ e may r. absurd (omega arith))

abbrev registry : Text → RunnerConfig → Option Translator
registry test_type c = some translator

abbrev flaky_spec : TargetSpec
flaky_spec = record spec { labels = text "quokka:flaky" ∷ [] }

abbrev flaky_plan : TargetPlan
flaky_plan = record plan { spec = flaky_spec }

run_attempts_example : (e : End) × (run_attempts session plan all names 0 0 initial 0 ≡ some e)
run_attempts_example = run_attempts_total session plan all names 0 0 initial 0

-- One test passes in the batch; the other is retried, then run alone.
execute_test_action_example :
    (fs : List FinishedTest) × (n : ℕ) × (execute_test_action session no_note plan all names 0 0
        initial 0
      ≡ some (fs, n))
    × Perm (map name_of fs) names
execute_test_action_example = execute_test_action_lem session no_note plan 0 all names 0 0 initial

execute_test_action-IsIncomplete_example :
    (fs : List FinishedTest) × (n : ℕ) × (execute_test_action session no_note plan all names 0 0
        lost_state 0
      ≡ some (fs, n))
    × All (λ f. disposition_of f ≡ failure) (filter (λ f. text_eq (name_of f) lexer_bad) fs)
unfolding lookup
execute_test_action-IsIncomplete_example =
    execute_test_action-IsIncomplete session no_note plan 0 all names 0 0 lost_state lexer_bad refl

abbrev no_tests : TestSelection Text
no_tests = all

abbrev doctest_name : Text
doctest_name = text "<doctests>"

-- Every request is answered in the same way.
abbrev steady : Session
steady = record session { execute2 = λ n r. answer }

silent_same :
    {x g : GroupOutcome} {m n : ℕ}
    → Path (Option (GroupOutcome × ℕ)) (some (x, m)) (some (g, n))
    → SaysNothingOf doctest_name x
    → SaysNothingOf doctest_name g
silent_same {x} {g} h s = let same : x ≡ g = cc in rw (sym same) s

doctests_silent :
    (sel : TestSelection Text) (index i n : ℕ) (g : GroupOutcome)
    → run_group steady doctest_plan sel (doctest_name ∷ []) 0 index i ≡ some (g, n)
    → SaysNothingOf doctest_name g
unfolding run_group classify decode_response parse_resource_failures lookup
    cgroup_memory_max_for_action fresh_environment from_exec_kind
doctests_silent sel index i n g h = silent_same h (refl, refl)

execute_test_action-synthetic_example :
    (f : FinishedTest) × (n : ℕ) × (execute_test_action steady no_note doctest_plan no_tests
        (doctest_name ∷ [])
        0
        0
        initial
        0
      ≡ some (f ∷ [], n))
    × (disposition_of f ≡ failure)
unfolding is_whole_unit is_synthetic lookup
execute_test_action-synthetic_example =
    execute_test_action-synthetic steady no_note doctest_plan 0 no_tests doctest_name 0 0 initial
      refl refl doctests_silent (inl refl)

name_result_example :
    (observed_unit.action_oom ≡ none)
    × (((obs : PerTestObservation) × (lookup parser_ok observed_unit.observations ≡ some obs)
          × (obs.status ≡ TestVerdict.pass))
        ⊎ (lookup parser_ok observed_unit.observations ≡ none)
          × (false ≡ true)
          × (observed_unit.raw ≡ ProcessOutcome.finished (pos 0)))
unfolding name_result lookup
name_result_example = name_result-pass observed_unit false true parser_ok refl

abbrev exited : ExecutionResult2
exited = record {
  status = some (some (Wire.Status.finished (pos 0)));
  stdout = none;
  stderr = none;
  execution_time = none;
  execution_details = none;
  max_memory_used_bytes = none;
}

abbrev exited_response : ExecuteResponse2
exited_response = record { response = some (Wire.Response.result exited) }

decode_response_example :
    (r : ExecutionResult2) × (exited_response.response ≡ some (Wire.Response.result r))
    × (r.status ≡ some (some (Wire.Status.finished (pos 0))))
unfolding decode_response decode_result
decode_response_example = decode_response-finished exited_response (decode_result exited) refl refl

abbrev crash : TestOutcome
crash = record {
  status = TestVerdict.fail;
  integrity = complete;
  details = text "assertion failed";
  duration = unmeasured;
  max_memory = none;
}

make_finished_example :
    Contains
      (make_finished session no_note plan lexer_bad 0 crash [] []).result.details
      crash.details
unfolding is_failure
make_finished_example = make_finished-Contains session no_note plan lexer_bad 0 crash [] [] refl

abbrev cases : List TestCase
cases = case_of parser_ok ∷ case_of lexer_bad ∷ []

build_batches_example :
    (batches : List (TestSelection Text)) × (build_batches hash_key
        (text "root//lib:lib")
        cases
        config
        ephemeral
        name_attributable
        none
      ≡ some batches)
    × Perm (members names batches) names
unfolding chosen_mode is_logical_test
build_batches_example =
    build_batches-perm hash_key (text "root//lib:lib") cases config ephemeral name_attributable none
      (omega arith)
