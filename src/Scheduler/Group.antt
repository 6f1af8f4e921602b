-- ===== src/Scheduler/Group.antt =====
-- src/scheduler.rs, `run_group`: what a completed action, with the marks that its supervisor left on
-- the error stream, means for its group of tests.
use quokka.Prelude.{
  Text, text, show_nat, not, ◌||◌, Option, none, some, ℕ, ◌==◌, if◌then◌else◌, List, [], ◌∷◌, ◌++◌,
  length, get_elem?, Map, insert, nat_key, text_key,
}
use quokka.Outcome.{Duration, TestVerdict, ProcessOutcome, CompletedAction}
use quokka.Execution.{CgroupGranularity, is_logical_test, ResourceFailure, parse_resource_failures}
use quokka.Translator.{PerTestObservation}
use quokka.Scheduler.Verdict.{
  ResultIntegrity, complete, missing_terminal_result, AttemptDuration, measured, unmeasured,
  AttemptExecution, unknown, from_exec_kind,
}
use quokka.Scheduler.Plan.{TargetPlan}

pub data GroupFailureDisposition : Type 0 where
  incomplete complete_action_timeout : GroupFailureDisposition

unfoldable pub integrity : GroupFailureDisposition → ResultIntegrity
integrity incomplete = missing_terminal_result
integrity complete_action_timeout = complete

pub record Observed : Type 0 where
  pub observations : Map Text PerTestObservation
  pub raw : ProcessOutcome
  pub stdout : Text
  pub stderr : Text
  pub action_oom : Option Text
  pub execution_time : Duration
  pub max_memory : Option ℕ
  pub execution : AttemptExecution

pub record GroupFailure : Type 0 where
  pub status : TestVerdict
  pub details : Text
  pub execution : AttemptExecution
  pub duration : AttemptDuration
  pub disposition : GroupFailureDisposition

pub data GroupOutcome : Type 0 where
  observed : Observed → GroupOutcome
  group_failed : GroupFailure → GroupOutcome

abbrev pub infra_max_attempts : ℕ
infra_max_attempts = 3

-- A failure of the whole group before or without a completed action.
abbrev pub no_action : TestVerdict → Text → GroupOutcome
no_action status details = group_failed (record {
  status = status;
  details = details;
  execution = unknown;
  duration = unmeasured;
  disposition = incomplete;
})

-- The fold over resource failures either ends the group or goes on with these.
pub data Marked : Type 0 where
  ended : GroupFailure → Marked
  going : Map Text PerTestObservation → Option Text → Marked

module _ (granularity : CgroupGranularity) (names : List Text) (action : CompletedAction) where
  abbrev stop : TestVerdict → Text → GroupFailureDisposition → Marked
  stop status details disposition = ended (record {
    status = status;
    details = details;
    execution = from_exec_kind action.exec_kind;
    duration = measured action.execution_time;
    disposition = disposition;
  })

  abbrev observe_at :
      Option Text → ℕ → TestVerdict → Text → Map Text PerTestObservation → Option Text → Marked
  observe_at none index status details observations oom =
      stop TestVerdict.infra_failure
        (text "resource supervisor reported unknown logical index " ++ show_nat index) incomplete
  observe_at (some name) index status details observations oom =
      going
        (insert name (record { status = status; details = details; framework_case_duration = none })
          observations)
        oom

  abbrev logical_failure :
      ℕ → TestVerdict → Text → Map Text PerTestObservation → Option Text → Marked
  logical_failure index status details observations oom =
      if not (is_logical_test granularity) || not (length names == 1) || not (index == 0)
      then stop TestVerdict.infra_failure
          (text "impossible logical resource marker index="
            ++ (show_nat index ++ (text ": " ++ details)))
          incomplete
      else observe_at (get_elem? names index) index status details observations oom

  abbrev impossible_action : Text → Marked
  impossible_action details =
      stop TestVerdict.infra_failure (text "impossible action resource marker: " ++ details)
        incomplete

  -- The body of `for failure in resource_failures`.
  mark : ResourceFailure → Map Text PerTestObservation → Option Text → Marked
  unfolding is_logical_test
  mark (ResourceFailure.logical_timeout index details) observations oom =
      logical_failure index TestVerdict.timeout details observations oom
  mark (ResourceFailure.logical_oom index details) observations oom =
      logical_failure index TestVerdict.fail details observations oom
  mark (ResourceFailure.action_timeout details) observations oom =
      if is_logical_test granularity
      then impossible_action details
      else stop TestVerdict.timeout details complete_action_timeout
  mark (ResourceFailure.action_oom details) observations oom =
      if is_logical_test granularity
      then impossible_action details
      else going observations (some details)
  mark (ResourceFailure.setup details) observations oom =
      stop TestVerdict.infra_failure details incomplete
  mark (ResourceFailure.malformed details) observations oom =
      stop TestVerdict.infra_failure (text "malformed resource marker: " ++ details) incomplete

  mark_all : List ResourceFailure → Map Text PerTestObservation → Option Text → Marked
  unfolding mark
  mark_all [] observations oom = going observations oom
  mark_all (f ∷ fs) observations oom = elim (mark f observations oom) [
    | ended failure ↦ ended failure
    | going observations' oom' ↦ mark_all fs observations' oom'
  ]

  abbrev group_of : Marked → GroupOutcome
  group_of (ended failure) = group_failed failure
  group_of (going observations oom) = observed (record {
    observations = observations;
    raw = action.status;
    stdout = action.stdout;
    stderr = action.stderr;
    action_oom = oom;
    execution_time = action.execution_time;
    max_memory = action.max_memory_used_bytes;
    execution = from_exec_kind action.exec_kind;
  })

-- What the response to a completed action means for the group.
unfoldable pub classify :
    TargetPlan → CgroupGranularity → List Text → Text → CompletedAction → GroupOutcome
unfolding mark_all
classify plan granularity names token action = group_of granularity names action (
    mark_all granularity names action (parse_resource_failures action.stderr token)
      (plan.translator.parse_results action.stdout action.stderr) none)
