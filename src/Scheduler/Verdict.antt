-- ===== src/Scheduler/Verdict.antt =====
-- src/scheduler.rs: the verdict of a run, the disposition of one result, and what an attempt leaves.
use quokka.Prelude.{Text, Bool, true, false, Option, none, some, ℕ, List, nat_key, text_key}
use quokka.Wire.{TestResult}
use quokka.Outcome.{Duration, TestVerdict, FailureClass, TestIdentity, RunIdentity, ExecKind}
use quokka.DurationDb
use quokka.DurationDb.{Environment}

abbrev pub nonzero_exit : ℕ
nonzero_exit = 32

pub data RunVerdict : Type 0 where
  pass fail : RunVerdict

unfoldable pub exit_code : RunVerdict → ℕ
exit_code pass = 0
exit_code fail = nonzero_exit

pub data ResultIntegrity : Type 0 where
  complete missing_terminal_result : ResultIntegrity

pub data ReportDisposition : Type 0 where
  passed skipped quarantined_failure failure : ReportDisposition

unfoldable pub report_disposition : TestVerdict → ResultIntegrity → Bool → ReportDisposition
report_disposition status missing_terminal_result quarantined = failure
report_disposition TestVerdict.pass complete quarantined = passed
report_disposition TestVerdict.skip complete quarantined = skipped
report_disposition TestVerdict.omitted complete quarantined = skipped
report_disposition _ complete true = quarantined_failure
report_disposition _ complete false = failure

pub data AttemptDuration : Type 0 where
  measured : Duration → AttemptDuration
  unmeasured : AttemptDuration

pub data AttemptExecution : Type 0 where
  physical : Environment → AttemptExecution
  cache_served unknown : AttemptExecution

unfoldable pub from_exec_kind : ExecKind → AttemptExecution
from_exec_kind ExecKind.local = physical DurationDb.local
from_exec_kind ExecKind.worker = physical DurationDb.local
from_exec_kind ExecKind.remote_executed = physical DurationDb.remote
from_exec_kind ExecKind.remote_cache_hit = cache_served
from_exec_kind ExecKind.omitted = unknown
from_exec_kind ExecKind.unknown = unknown

unfoldable pub fresh_environment : AttemptExecution → Option Environment
fresh_environment (physical environment) = some environment
fresh_environment cache_served = none
fresh_environment unknown = none

pub record DbObservation : Type 0 where
  pub duration : Duration
  pub failed : Bool
  pub failure_class : Option FailureClass
  pub env : Environment

pub record AttemptObservation : Type 0 where
  pub status : TestVerdict
  pub duration : AttemptDuration
  pub framework_case_duration : Option Duration
  pub details : Text
  pub execution : AttemptExecution

pub record TestOutcome : Type 0 where
  pub status : TestVerdict
  pub integrity : ResultIntegrity
  pub details : Text
  pub duration : AttemptDuration
  pub max_memory : Option ℕ

pub record FinishedTest : Type 0 where
  pub result : TestResult
  pub console_name : Text
  pub run_id : RunIdentity
  pub test_id : TestIdentity
  pub status : TestVerdict
  pub integrity : ResultIntegrity
  pub quarantined : Bool
  pub labels : List Text
  pub db_observations : List DbObservation
  pub attempt_history : List AttemptObservation

abbrev pub disposition_of : FinishedTest → ReportDisposition
disposition_of f = report_disposition f.status f.integrity f.quarantined

pub data ReporterMessage : Type 0 where
  finished : List FinishedTest → ReporterMessage
  discovered : List TestIdentity → ReporterMessage
  target_dropped : Text → ReporterMessage
