-- ===== src/Scheduler/Execute/Kept.antt =====
-- What is reported of a failing test's details.
use quokka.Prelude.{
  Text, true, none, ℕ, Bool-cases, ◌≡◌, inl, inr, List, ◌∷◌, is_empty, nat_key, text_key,
}
use quokka.Outcome.{is_failure, build_test_result}
use quokka.Scheduler.Verdict.{AttemptObservation, DbObservation, TestOutcome}
use quokka.Scheduler.Plan.{TargetPlan}
use quokka.Scheduler.Request.{Session, identity_of}
use quokka.DurationDb.{flake}
use quokka.Scheduler.Details.{kind_of, finalize_details, failure_annotation, append_attempt_history}
use quokka.Scheduler.Details
use quokka.Scheduler.Details.Laws.{
  Contains, Contains-append, finalize_details-Contains, append_attempt_history-Contains,
}
use quokka.Scheduler.Execute.{make_finished, result_details}

kind_of-failure :
    (outcome : TestOutcome)
    → is_failure outcome.status ≡ true
    → kind_of outcome.status ≡ Details.failure
unfolding kind_of
kind_of-failure outcome h = rw h

-- The details of a failing test stand whole in its reported details, however long they are and
-- whatever is added before and behind them.
pub make_finished-Contains :
    (s : Session) (cas_note : Text → Text) (plan : TargetPlan) (name : Text) (repeat_index : ℕ)
    (outcome : TestOutcome) (observations : List DbObservation) (history : List AttemptObservation)
    → is_failure outcome.status ≡ true
    → Contains
        (make_finished s cas_note plan name repeat_index outcome observations
          history).result.details
        outcome.details
unfolding make_finished result_details build_test_result
make_finished-Contains s cas_note plan name repeat_index outcome observations history h =
    let limit = s.config.cas_inline_limit in
    let final = finalize_details limit cas_note (kind_of outcome.status) outcome.details in
    let annotation =
      failure_annotation plan (flake s.hash_key s.estimates none (identity_of s plan name)) in
    let kept : Contains final outcome.details =
      rw (kind_of-failure outcome h) (finalize_details-Contains limit cas_note outcome.details) in
    let told = append_attempt_history-Contains final outcome.details history kept in
    elim (Bool-cases (is_empty annotation)) [
      | inl e ↦ rw (h, e) told
      | inr e ↦
          rw (h, e)
            (Contains-append (append_attempt_history final history) outcome.details
              (10 ∷ annotation) told)
    ]
