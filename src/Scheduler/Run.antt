-- ===== src/Scheduler/Run.antt =====
-- src/scheduler.rs, `run_target` and `run`: the targets of a session, and its exit code. The messages
-- of the targets reach the reporter in the order `arrival`; a panic inside a target leaves the first
-- of its events, and its payload.
pub mod Laws
pub mod ExitCode
use quokka.Prelude.{
  Text, text, text_eq, text_eq_iff, text_eq_refl, strip_prefix, split_once, show_nat, Bool, true,
  false, not, ◌&&◌, ◌||◌, Option, none, some, ℕ, zero, suc, ◌+◌, ◌-◌, ◌*◌, ◌/◌, ◌%◌, ◌^◌, ◌≤◌, ◌<◌,
  max, min, ltb, leb, ◌==◌, if◌then◌else◌, ==_iff, Bool-cases, Option-cases, ◌≡◌, refl, sym, ap,
  ◌∙◌, ◌≢◌, ◌↔◌, ◌⊎◌, inl, inr, List, [], ◌∷◌, ◌++◌, map, Perm, arith, length, get_elem?, take,
  drop, replicate, any, filter, is_empty, All, flatten, Result, ok, err, ◌>>=◌, Key, Map, lookup,
  insert, remove, lookup-insert, lookup-insert_self, lookup-insert_ne, nat_key, text_key,
}
use quokka.Prelude.{sort}
use quokka.Std.{text_lt, dedup}
use quokka.Execution.{CgroupMemoryMaxOverride}
use quokka.Execution.Command.{ExecuteRequest2}
use quokka.Outcome.{TestIdentity, TestVerdict}
use quokka.Variant.{once}
use quokka.Spec.{
  TargetSpec, ExternalRunnerSpec, ConfiguredTarget, SpecError, missing_target, missing_handle,
  missing_value, from_proto, target_display,
}
use quokka.Config.{RunnerConfig}
use quokka.Translator.{Translator}
use quokka.DurationDb.{DurationDb}
use quokka.Scheduler.Verdict.{
  RunVerdict, fail, exit_code, nonzero_exit, ReporterMessage, target_dropped,
}
use quokka.Scheduler.Plan.{TargetPlan, derive}
use quokka.Scheduler.Request.{Session, RpcAnswer}
use quokka.Scheduler.Reporter.{reporter_task}
use quokka.Scheduler.Target.{Event, sent, report_target_failure_for_spec, run_per_test_target}
use quokka.Scheduler.Target.Laws.{messages}

pub data SpecEnvelope : Type 0 where
  spec : ExternalRunnerSpec → SpecEnvelope
  end_of_requests : SpecEnvelope

-- The specs that come before the end of the requests.
unfoldable pub received : List SpecEnvelope → List ExternalRunnerSpec
received [] = []
received (spec proto ∷ intake) = proto ∷ received intake
received (end_of_requests ∷ intake) = []

display_if_handled : Option ConfiguredTarget → Option Text
display_if_handled none = none
display_if_handled (some t) = elim t.handle [ none ↦ none | some handle ↦ some (target_display t) ]

unfoldable pub valid_spec_target_display : ExternalRunnerSpec → Option Text
unfolding display_if_handled
valid_spec_target_display proto = display_if_handled proto.target

is_received : Text → List ExternalRunnerSpec → Bool
unfolding valid_spec_target_display
is_received target [] = false
is_received target (proto ∷ protos) = elim (valid_spec_target_display proto) [
  | none ↦ is_received target protos
  | some display ↦ text_eq display target || is_received target protos
]

unfoldable pub missing_cgroup_override_targets : RunnerConfig → List ExternalRunnerSpec → List Text
unfolding is_received
missing_cgroup_override_targets config protos =
    let missing =
      filter (λ o. not (is_received o.target protos)) config.cgroup_memory_max_overrides in
    dedup (sort (λ a b. not (text_lt b a)) (map (λ o. o.target) missing))

abbrev or_unknown : Option Text → Text
or_unknown none = text "<unknown target>"
or_unknown (some display) = display

show_error : SpecError → Text
show_error missing_target = text "ExternalRunnerSpec missing target"
show_error missing_handle = text "ExternalRunnerSpec target missing handle"
show_error (missing_value location) =
    text "ExternalRunnerSpec " ++ (location ++ text " missing value")

-- `cgroup memory override target was not received`
drops : List Text → List ReporterMessage
drops [] = []
drops (target ∷ targets) =
    target_dropped (text "cgroup memory override target was not received: " ++ target)
    ∷ drops targets

-- A usage error ends the session before its targets.
or_usage_error : Option Text → Option ℕ → Option ℕ
or_usage_error none code = code
or_usage_error (some e) code = some nonzero_exit

module _ (s : Session) (cas_note : Text → Text) (resolve : Text → RunnerConfig → Option Translator)
    (panicked : ℕ → Bool) (supervisor : Text) (list : ℕ → ExecuteRequest2 → RpcAnswer) where
  -- What a panic in the target leaves, and what is told of it.
  after_panic : TargetPlan → Option (ℕ × Text) → Option (List Event × ℕ) → Option (List Event × ℕ)
  after_panic plan none outcome = outcome
  after_panic plan (some (done, payload)) none = none
  after_panic plan (some (done, payload)) (some (events, calls)) = some (
    take done events
        ++ report_target_failure_for_spec s cas_note plan.spec false plan.repeat TestVerdict.fatal
            (text "target " ++ (plan.spec.display ++ (text " panicked: " ++ payload))),
    calls,
  )

  with_plan : TargetSpec → Option (ℕ × Text) → ℕ → Result Text TargetPlan → Option (List Event × ℕ)
  unfolding after_panic
  with_plan t panic calls (err reason) =
      some (report_target_failure_for_spec s cas_note t false once TestVerdict.fatal reason, calls)
  with_plan t panic calls (ok plan) =
      after_panic plan panic (run_per_test_target s cas_note panicked plan supervisor list calls)

  with_spec :
      ExternalRunnerSpec
      → Option (ℕ × Text)
      → ℕ
      → Result SpecError TargetSpec
      → Option (List Event × ℕ)
  unfolding with_plan show_error
  with_spec proto panic calls (err e) = some (
    sent (
          target_dropped (
            text "dropping malformed spec for "
            ++ (or_unknown (valid_spec_target_display proto) ++ (text ": " ++ show_error e))))
        ∷ [],
    calls,
  )
  with_spec proto panic calls (ok t) = with_plan t panic calls (derive resolve t s.config)

  unfoldable pub run_target : ExternalRunnerSpec → Option (ℕ × Text) → ℕ → Option (List Event × ℕ)
  unfolding with_spec
  run_target proto panic calls = with_spec proto panic calls (from_proto proto)

  add_events : List Event → Option (List Event) → Option (List Event)
  add_events events none = none
  add_events events (some rest) = some (events ++ rest)

  then_targets : (ℕ → Option (List Event)) → Option (List Event × ℕ) → Option (List Event)
  unfolding add_events
  then_targets more none = none
  then_targets more (some (events, calls)) = add_events events (more calls)

  -- The targets from number `i` on; `panics i` is the panic of the i-th.
  unfoldable pub run_targets :
      (ℕ → Option (ℕ × Text)) → List ExternalRunnerSpec → (i calls : ℕ) → Option (List Event)
  unfolding run_target then_targets
  run_targets panics [] i calls = some []
  run_targets panics (proto ∷ protos) i calls =
      then_targets (run_targets panics protos (suc i)) (run_target proto (panics i) calls)

  module _ (delivered : ℕ → Bool) (now : ℕ → ℕ)
      (arrival : List ReporterMessage → List ReporterMessage) (db : DurationDb)
      (panics : ℕ → Option (ℕ × Text)) (task_panicked reporter_lost : Bool) where
    unfoldable pub all_messages : List ExternalRunnerSpec → List Event → List ReporterMessage
    unfolding drops missing_cgroup_override_targets
    all_messages protos events =
        messages events ++ drops (missing_cgroup_override_targets s.config protos)

    unfoldable pub final_verdict : List ReporterMessage → RunVerdict
    final_verdict ms =
        if task_panicked || reporter_lost
        then fail
        else (reporter_task s.hash_key delivered now db (arrival ms)).verdict

    code_of : List ExternalRunnerSpec → Option (List Event) → Option ℕ
    unfolding final_verdict all_messages
    code_of protos none = none
    code_of protos (some events) = some (exit_code (final_verdict (all_messages protos events)))

    -- The exit code of the session.
    unfoldable pub run : List SpecEnvelope → Option ℕ
    unfolding code_of or_usage_error received run_targets
    run intake =
        let protos = received intake in
        let code = code_of protos (run_targets panics protos 0 0) in
        if s.config.libtest_help_only
        then some 0
        else or_usage_error s.config.libtest_usage_error code
