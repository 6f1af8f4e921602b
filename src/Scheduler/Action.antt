-- ===== src/Scheduler/Action.antt =====
-- src/scheduler.rs, `execute_test_action`: the attempts of one action, folded per test name.
pub mod Laws
use quokka.Prelude.{
  Text, text, text_eq, text_eq_iff, text_eq_refl, strip_prefix, split_once, show_nat, Bool, true,
  false, not, ◌&&◌, ◌||◌, Option, none, some, ℕ, zero, suc, ◌+◌, ◌-◌, ◌*◌, ◌/◌, ◌%◌, ◌^◌, ◌≤◌, ◌<◌,
  max, min, ltb, leb, ◌==◌, if◌then◌else◌, ==_iff, Bool-cases, Option-cases, ◌≡◌, refl, sym, ap,
  ◌∙◌, ◌≢◌, ◌↔◌, ◌⊎◌, inl, inr, List, [], ◌∷◌, ◌++◌, map, Perm, arith, length, get_elem?, take,
  drop, replicate, any, filter, is_empty, All, flatten, Result, ok, err, ◌>>=◌, Key, Map, lookup,
  insert, remove, lookup-insert, lookup-insert_self, lookup-insert_ne, nat_key, text_key,
}
use quokka.Prelude.{pos}
use quokka.Outcome.{Duration, TestVerdict, ProcessOutcome, is_failure, failure_class}
use quokka.Translator.{
  ListingStrategy, whole_target, whole_binary, per_test_listing, doctest_result_name,
  binary_result_name,
}
use quokka.Scheduler.Verdict.{
  ResultIntegrity, complete, missing_terminal_result, measured, fresh_environment, DbObservation,
  AttemptObservation,
}
use quokka.Scheduler.Best.{BestObs, merge_best}
use quokka.Scheduler.Group.{Observed, GroupFailure, integrity}
use quokka.Scheduler.Details.{details_with_streams}

-- `PriorActionState`, which is also the state of the attempts.
pub record ActionState : Type 0 where
  pub best : Map Text BestObs
  pub attempts : Map Text (List DbObservation)
  pub attempt_history : Map Text (List AttemptObservation)

abbrev pub initial : ActionState
initial = record { best = []; attempts = []; attempt_history = [] }

-- `entry(name).or_default().push(item)`
push_entry : {A : Type 0} → Text → A → Map Text (List A) → Map Text (List A)
push_entry name item m = elim (lookup name m) [
  | none ↦ insert name (item ∷ []) m
  | some items ↦ insert name (items ++ item ∷ []) m
]

unfoldable pub is_whole_unit : ListingStrategy → Bool
is_whole_unit (per_test_listing _ _) = false
is_whole_unit (whole_target _) = true
is_whole_unit (whole_binary _) = true

unfoldable pub absent_name_verdict :
    ProcessOutcome → (whole_unit singleton : Bool) → (stdout stderr : Text) → TestVerdict × Text
absent_name_verdict (ProcessOutcome.timed_out after) whole_unit singleton stdout stderr =
    (TestVerdict.timeout, details_with_streams (text "execution timed out") stdout stderr)
absent_name_verdict (ProcessOutcome.finished (pos zero)) true singleton stdout stderr =
    (TestVerdict.pass, [])
absent_name_verdict (ProcessOutcome.finished (pos zero)) false singleton stdout stderr = (
  TestVerdict.fatal,
  details_with_streams (text "harness exited 0 but emitted no parseable result for this test")
      stdout stderr,
)
absent_name_verdict (ProcessOutcome.finished _) whole_unit true stdout stderr = (
  TestVerdict.fail,
  details_with_streams (text "test process exited nonzero with no harness-reported result") stdout
      stderr,
)
absent_name_verdict (ProcessOutcome.finished _) whole_unit false stdout stderr =
    (TestVerdict.fatal, details_with_streams (text "test produced no result in batch output") [] [])

-- What one attempt says of one name.
pub record NameResult : Type 0 where
  pub status : TestVerdict
  pub details : Text
  pub framework_case_duration : Option Duration
  pub from_harness : Bool
  pub integrity : ResultIntegrity

-- The out-of-memory marker of the action, the harness's own result, or the process outcome.
unfoldable pub name_result : Observed → (whole_unit singleton : Bool) → Text → NameResult
unfolding absent_name_verdict
name_result o whole_unit singleton name = elim o.action_oom [
  | some details ↦ record {
    status = if singleton then TestVerdict.fail else TestVerdict.fatal;
    details = details;
    framework_case_duration = none;
    from_harness = false;
    integrity = if singleton then complete else missing_terminal_result;
  }
  | none ↦ elim (lookup name o.observations) [
    | some obs ↦ record {
      status = obs.status;
      details = obs.details;
      framework_case_duration = obs.framework_case_duration;
      from_harness = true;
      integrity = complete;
    }
    | none ↦
        let (status, details) = absent_name_verdict o.raw whole_unit singleton o.stdout o.stderr in
        record {
          status = status;
          details = details;
          framework_case_duration = none;
          from_harness = false;
          integrity = if whole_unit then complete else missing_terminal_result;
        }
  ]
]

-- A fresh attempt with a harness's result is recorded for the history.
unfoldable pub record_attempt :
    Observed → Text → NameResult → Map Text (List DbObservation) → Map Text (List DbObservation)
unfolding push_entry
record_attempt o name r attempts = elim (fresh_environment o.execution) [
  | none ↦ attempts
  | some env ↦
      if r.from_harness
      then push_entry name
          (record {
            duration = o.execution_time;
            failed = is_failure r.status;
            failure_class = failure_class r.status;
            env = env;
          })
          attempts
      else attempts
]

-- The body of `for name in &test_names`.
unfoldable pub fold_name :
    Observed → (whole_unit singleton : Bool) → Text → ActionState → ActionState
unfolding record_attempt push_entry
fold_name o whole_unit singleton name st =
    let r = name_result o whole_unit singleton name in
    record {
      best = merge_best st.best name (record {
        status = r.status;
        integrity = r.integrity;
        details = r.details;
        duration = measured o.execution_time;
        max_memory = o.max_memory;
      });
      attempts = record_attempt o name r st.attempts;
      attempt_history =
          push_entry name
            (record {
              status = r.status;
              duration = measured o.execution_time;
              framework_case_duration = r.framework_case_duration;
              details = r.details;
              execution = o.execution;
            })
            st.attempt_history;
    }

unfoldable pub fold_names :
    Observed → (whole_unit singleton : Bool) → List Text → ActionState → ActionState
unfolding fold_name
fold_names o whole_unit singleton [] st = st
fold_names o whole_unit singleton (name ∷ names) st =
    fold_names o whole_unit singleton names (fold_name o whole_unit singleton name st)

unfoldable pub keys : {A : Type 0} → Map Text A → List Text
keys [] = []
keys ((k, v) ∷ m) = k ∷ keys m

unfoldable pub is_synthetic : List Text → Bool
is_synthetic (n ∷ []) = text_eq n doctest_result_name || text_eq n binary_result_name
is_synthetic _ = false

unfoldable pub test_names : Observed → Bool → List Text → List Text
unfolding keys is_synthetic
test_names o whole_unit pending =
    if whole_unit && not (is_empty o.observations) && is_synthetic pending
    then keys o.observations
    else pending

-- A failure of the group counts for each name of it.
unfoldable pub fold_failure : GroupFailure → List Text → ActionState → ActionState
unfolding push_entry
fold_failure f [] st = st
fold_failure f (name ∷ names) st = fold_failure f names (record {
  best = merge_best st.best name (record {
    status = f.status;
    integrity = integrity f.disposition;
    details = f.details;
    duration = f.duration;
    max_memory = none;
  });
  attempts = st.attempts;
  attempt_history =
      push_entry name
        (record {
          status = f.status;
          duration = f.duration;
          framework_case_duration = none;
          details = f.details;
          execution = f.execution;
        })
        st.attempt_history;
})
