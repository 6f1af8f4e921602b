-- ===== src/Scheduler/Execute.antt =====
-- src/scheduler.rs, `execute_test_action`, `isolate_failures` and `make_finished`: one result for
-- each expected test of an action.
pub mod Members
pub mod Answers
pub mod Laws
pub mod Synthetic
pub mod Kept
use quokka.Prelude.{
  Text, text, text_eq, text_eq_iff, text_eq_refl, strip_prefix, split_once, show_nat, Bool, true,
  false, not, ◌&&◌, ◌||◌, Option, none, some, ℕ, zero, suc, ◌+◌, ◌-◌, ◌*◌, ◌/◌, ◌%◌, ◌^◌, ◌≤◌, ◌<◌,
  max, min, ltb, leb, ◌==◌, if◌then◌else◌, ==_iff, Bool-cases, Option-cases, ◌≡◌, refl, sym, ap,
  ◌∙◌, ◌≢◌, ◌↔◌, ◌⊎◌, inl, inr, List, [], ◌∷◌, ◌++◌, map, Perm, arith, length, get_elem?, take,
  drop, replicate, any, filter, is_empty, All, flatten, Result, ok, err, ◌>>=◌, Key, Map, lookup,
  insert, remove, lookup-insert, lookup-insert_self, lookup-insert_ne, nat_key, text_key,
}
use quokka.Prelude.{remove}
use quokka.Outcome.{
  Duration, is_failure, RunIdentity, to_buck2_name, build_test_result, TestVerdict,
}
use quokka.Batching.{
  TestSelection, explicit, BatchFailurePolicy, rerun_per_test_to_isolate, fail_all,
}
use quokka.Translator.{Translator}
use quokka.DurationDb.{flake}
use quokka.Config.{RunnerConfig}
use quokka.Scheduler.Verdict.{
  AttemptDuration, measured, unmeasured, DbObservation, AttemptObservation, FinishedTest,
  TestOutcome, ResultIntegrity,
}
use quokka.Scheduler.Plan.{TargetPlan, quarantined}
use quokka.Scheduler.Best.{BestObs, missing, into_outcome}
use quokka.Scheduler.Request.{Session, identity_of}
use quokka.Scheduler.Details.{finalize_details, kind_of, append_attempt_history, failure_annotation}
use quokka.Scheduler.Action.{ActionState, initial}
use quokka.Scheduler.Attempts.{Progress, End, reported, exhausted, run_attempts}

measured_only : AttemptDuration → Option Duration
measured_only (measured d) = some d
measured_only unmeasured = none

pub console_test_name : RunIdentity → Text
console_test_name id = id.test.target ++ (text "::" ++ to_buck2_name id)

or_default : {A : Type 0} → Option (List A) → List A
or_default none = []
or_default (some xs) = xs

best_or_missing : Option BestObs → BestObs
best_or_missing none = missing
best_or_missing (some b) = b

end_progress : End → Progress
end_progress (reported p) = p
end_progress (exhausted p failing) = p

-- An entry of a map as a map of its own.
entry : {A : Type 0} → Text → Option A → Map Text A
entry name none = []
entry name (some a) = (name, a) ∷ []

isolates : BatchFailurePolicy → List Text → Bool
isolates rerun_per_test_to_isolate expected = ltb 1 (length expected)
isolates fail_all expected = false

module _ (s : Session) (cas_note : Text → Text) (plan : TargetPlan) where
  result_details : Text → TestOutcome → List AttemptObservation → Text
  result_details name outcome history =
      let final =
        finalize_details s.config.cas_inline_limit cas_note (kind_of outcome.status)
          outcome.details in
      let told = append_attempt_history final history in
      let annotation =
        failure_annotation plan (flake s.hash_key s.estimates none (identity_of s plan name)) in
      if is_failure outcome.status && not (is_empty annotation)
      then told ++ 10 ∷ annotation
      else told

  unfoldable pub make_finished :
      Text → ℕ → TestOutcome → List DbObservation → List AttemptObservation → FinishedTest
  unfolding result_details measured_only console_test_name
  make_finished name repeat_index outcome observations history =
      let test_id = identity_of s plan name in
      let run_id : RunIdentity = record {
        test = test_id;
        repeat = plan.repeat;
        repeat_index = repeat_index;
      } in
      record {
        result =
            build_test_result run_id plan.spec.handle outcome.status
              (measured_only outcome.duration) (result_details name outcome history)
              outcome.max_memory;
        console_name = console_test_name run_id;
        run_id = run_id;
        test_id = test_id;
        status = outcome.status;
        integrity = outcome.integrity;
        quarantined = quarantined plan;
        labels = plan.spec.labels;
        db_observations = observations;
        attempt_history = history;
      }

  -- The result of one name, whose attempts leave the state with it.
  unfoldable pub finish_name : ℕ → Text → ActionState → FinishedTest × ActionState
  unfolding make_finished best_or_missing or_default
  finish_name repeat_index name st = (
    make_finished name repeat_index (into_outcome (best_or_missing (lookup name st.best)))
        (or_default (lookup name st.attempts)) (or_default (lookup name st.attempt_history)),
    record st {
      attempts = remove name st.attempts;
      attempt_history = remove name st.attempt_history;
    },
  )

  pub finish_names : ℕ → List Text → ActionState → List FinishedTest × ActionState
  unfolding finish_name
  finish_names repeat_index [] st = ([], st)
  finish_names repeat_index (name ∷ names) st =
      let (f, st') = finish_name repeat_index name st in
      let (fs, st'') = finish_names repeat_index names st' in (f ∷ fs, st'')

  -- One still failing member as an action of its own, on what the batch saw of it. A singleton is
  -- not batched, so it ends in its report whichever way its loop ends.
  run_isolated : ℕ → ℕ → Text → ActionState → ℕ → Option (List FinishedTest × ActionState × ℕ)
  unfolding finish_names end_progress entry
  run_isolated repeat_index first_attempt_index name st calls =
      let prior : ActionState = record {
        best = entry name (lookup name st.best);
        attempts = entry name (lookup name st.attempts);
        attempt_history = entry name (lookup name st.attempt_history);
      } in
      let rest = record st {
        attempts = remove name st.attempts;
        attempt_history = remove name st.attempt_history;
      } in
      elim (run_attempts s plan (explicit (name ∷ [])) (name ∷ []) repeat_index first_attempt_index
        prior calls) [
          | none ↦ none
          | some e ↦
              let p = end_progress e in
              some ((finish_names repeat_index (name ∷ []) p.state).0, rest, p.calls)
        ]

  pub run_all_isolated : ℕ → ℕ → List Text → ActionState → ℕ → Option (List FinishedTest × ℕ)
  unfolding run_isolated
  run_all_isolated repeat_index first_attempt_index [] st calls = some ([], calls)
  run_all_isolated repeat_index first_attempt_index (name ∷ names) st calls =
      elim (run_isolated repeat_index first_attempt_index name st calls) [
        | none ↦ none
        | some (fs, st', calls') ↦
            elim (run_all_isolated repeat_index first_attempt_index names st' calls') [
              | none ↦ none
              | some (gs, calls'') ↦ some (fs ++ gs, calls'')
            ]
      ]

  -- The members that did not fail are reported from the batch, the others run alone.
  isolate_failures :
      ℕ
      → ℕ
      → (all_names still_failing : List Text) → ActionState
      → ℕ
      → Option (List FinishedTest × ℕ)
  unfolding finish_names run_all_isolated
  isolate_failures repeat_index first_attempt_index all_names still_failing st calls =
      let kept = filter (λ n. not (any (text_eq n) still_failing)) all_names in
      let (fs, st') = finish_names repeat_index kept st in
      elim (run_all_isolated repeat_index first_attempt_index still_failing st' calls) [
        | none ↦ none
        | some (gs, calls') ↦ some (fs ++ gs, calls')
      ]

  -- The results of an action and the number of requests issued by then.
  unfoldable pub execute_test_action :
      TestSelection Text → List Text → ℕ → ℕ → ActionState → ℕ → Option (List FinishedTest × ℕ)
  unfolding finish_names isolate_failures isolates
  execute_test_action selection expected repeat_index first_attempt_index prior calls =
      elim (run_attempts s plan selection expected repeat_index first_attempt_index prior calls) [
        | none ↦ none
        | some (reported p) ↦ some ((finish_names repeat_index expected p.state).0, p.calls)
        | some (exhausted p failing) ↦
            if isolates s.config.batch_failure_policy expected
            then isolate_failures repeat_index (first_attempt_index + p.execution_attempt + 1)
                expected failing p.state p.calls
            else some ((finish_names repeat_index expected p.state).0, p.calls)
      ]
