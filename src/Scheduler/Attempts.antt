-- ===== src/Scheduler/Attempts.antt =====
-- src/scheduler.rs, the loop of `execute_test_action`: attempts until nothing fails or the retry
-- budgets are spent.
pub mod Totality
pub mod Invariant
pub mod Budgets
pub mod Single
use quokka.Prelude.{
  Text, text, text_eq, text_eq_iff, text_eq_refl, strip_prefix, split_once, show_nat, Bool, true,
  false, not, ◌&&◌, ◌||◌, Option, none, some, ℕ, zero, suc, ◌+◌, ◌-◌, ◌*◌, ◌/◌, ◌%◌, ◌^◌, ◌≤◌, ◌<◌,
  max, min, ltb, leb, ◌==◌, if◌then◌else◌, ==_iff, Bool-cases, Option-cases, ◌≡◌, refl, sym, ap,
  ◌∙◌, ◌≢◌, ◌↔◌, ◌⊎◌, inl, inr, List, [], ◌∷◌, ◌++◌, map, Perm, arith, length, get_elem?, take,
  drop, replicate, any, filter, is_empty, All, flatten, Result, ok, err, ◌>>=◌, Key, Map, lookup,
  insert, remove, lookup-insert, lookup-insert_self, lookup-insert_ne, nat_key, text_key,
}
use quokka.Policy.{RetryPolicy}
use quokka.Outcome.{is_failure}
use quokka.Batching.{TestSelection, all, explicit}
use quokka.Translator.{Translator}
use quokka.DurationDb.{flake, FlakeRecord}
use quokka.Config.{RunnerConfig}
use quokka.Scheduler.Plan.{TargetPlan}
use quokka.Scheduler.Best.{BestObs}
use quokka.Scheduler.Group.{
  GroupOutcome, observed, group_failed, GroupFailureDisposition, incomplete,
  complete_action_timeout, infra_max_attempts,
}
use quokka.Scheduler.Request.{Session, run_group, identity_of}
use quokka.Scheduler.Action.{ActionState, is_whole_unit, fold_names, fold_failure, test_names}

-- One attempt's outcome folded into the state, and whether it was a complete action timeout.
unfoldable pub absorb :
    TargetPlan → (expected pending : List Text) → GroupOutcome → ActionState → ActionState
unfolding fold_names fold_failure test_names is_whole_unit
absorb plan expected pending (observed o) st =
    let whole_unit = is_whole_unit plan.translator.listing_strategy in
    let names = test_names o whole_unit pending in
    let singleton = not (ltb 1 (length expected)) || length names == 1 in
    fold_names o whole_unit singleton names st
absorb plan expected pending (group_failed f) st = fold_failure f pending st

unfoldable pub is_action_timeout : GroupOutcome → Bool
is_action_timeout (observed o) = false
is_action_timeout (group_failed f) = elim f.disposition [
  | complete_action_timeout ↦ true
  | incomplete ↦ false
]

-- `best.get(n).map(|b| b.status.is_failure()).unwrap_or(true)`
still_fails : Option BestObs → Bool
unfolding is_failure
still_fails none = true
still_fails (some b) = is_failure b.status

unfoldable pub still_failing : ActionState → List Text → List Text
unfolding still_fails
still_failing st expected = filter (λ n. still_fails (lookup n st.best)) expected

has_flaked : Option FlakeRecord → Bool
has_flaked none = false
has_flaked (some f) = ltb 0 f.failures

attempts_or_zero : Option ℕ → ℕ
attempts_or_zero none = 0
attempts_or_zero (some n) = n

-- The attempts that the labels, or the history and the configuration, allow a test.
unfoldable pub allowed_attempts : Session → TargetPlan → Text → ℕ
unfolding has_flaked attempts_or_zero
allowed_attempts s plan name =
    let is_flake = has_flaked (flake s.hash_key s.estimates none (identity_of s plan name)) in
    max plan.retry.max_attempts (if is_flake then attempts_or_zero s.config.flaky_retry else 0)

unfoldable pub retry_pending : Session → TargetPlan → ℕ → List Text → List Text
retry_pending s plan failure_attempt failing =
    filter (λ n. ltb (failure_attempt + 1) (allowed_attempts s plan n)) failing

-- The variables of the loop; `calls` counts the requests of the session.
pub record Progress : Type 0 where
  pub state : ActionState
  pub pending : List Text
  pub failure_attempt : ℕ
  pub action_timeout_attempts : ℕ
  pub execution_attempt : ℕ
  pub calls : ℕ

-- The loop ends by `break` at once, or with its retries exhausted and tests still failing.
pub data End : Type 0 where
  reported : Progress → End
  exhausted : Progress → List Text → End

pub data Next : Type 0 where
  again : Progress → Next
  stop : End → Next

module _ (s : Session) (plan : TargetPlan) where
  -- The retries of failing tests, given those that may be retried.
  retry_with : Progress → List Text → List Text → Next
  retry_with p failing [] = stop (exhausted p failing)
  retry_with p failing (r ∷ rs) = again (record p {
    failure_attempt = p.failure_attempt + 1;
    execution_attempt = p.execution_attempt + 1;
    pending = r ∷ rs;
  })

  -- What follows an attempt after which `failing` still fail.
  next : Bool → Progress → List Text → Next
  unfolding retry_with retry_pending
  next timed_out p [] = stop (reported p)
  next false p (n ∷ ns) = retry_with p (n ∷ ns) (retry_pending s plan p.failure_attempt (n ∷ ns))
  next true p (n ∷ ns) =
      let counted = record p { action_timeout_attempts = p.action_timeout_attempts + 1 } in
      if ltb (p.action_timeout_attempts + 1) infra_max_attempts
      then again (record counted { execution_attempt = p.execution_attempt + 1; pending = n ∷ ns })
      else stop (reported counted)

  module _ (selection : TestSelection Text) (expected : List Text)
      (repeat_index first_attempt_index : ℕ) where
    current_selection : Progress → TestSelection Text
    current_selection p = if p.failure_attempt == 0 then selection else explicit p.pending

    -- The progress with one attempt's outcome folded in.
    absorbed : GroupOutcome → ℕ → Progress → Progress
    unfolding absorb
    absorbed outcome calls p = record p {
      state = absorb plan expected p.pending outcome p.state;
      calls = calls;
    }

    follow : (Progress → Option End) → Next → Option End
    follow loop (stop e) = some e
    follow loop (again p) = loop p

    after_group : (Progress → Option End) → Progress → Option (GroupOutcome × ℕ) → Option End
    unfolding follow absorbed next still_failing
    after_group loop p none = none
    after_group loop p (some (outcome, calls)) =
        let q = absorbed outcome calls p in
        follow loop (next (is_action_timeout outcome) q (still_failing q.state expected))

    -- `none` is an exhausted fuel.
    attempt_loop : ℕ → Progress → Option End
    unfolding after_group current_selection
    attempt_loop zero p = none
    attempt_loop (suc fuel) p = after_group (attempt_loop fuel) p (
        run_group s plan (current_selection p) p.pending repeat_index
          (first_attempt_index + p.execution_attempt) p.calls)

  -- No test is allowed more attempts than this.
  unfoldable pub attempts_bound : ℕ
  unfolding attempts_or_zero
  attempts_bound = max plan.retry.max_attempts (attempts_or_zero s.config.flaky_retry)

  start : List Text → ActionState → ℕ → Progress
  start expected prior calls = record {
    state = prior;
    pending = expected;
    failure_attempt = 0;
    action_timeout_attempts = 0;
    execution_attempt = 0;
    calls = calls;
  }

  -- The loop from its start, with fuel for every attempt that the budgets allow.
  unfoldable pub run_attempts :
      TestSelection Text → List Text → ℕ → ℕ → ActionState → ℕ → Option End
  unfolding attempt_loop attempts_bound start
  run_attempts selection expected repeat_index first_attempt_index prior calls =
      attempt_loop selection expected repeat_index first_attempt_index
        (attempts_bound + infra_max_attempts) (start expected prior calls)
