-- ===== src/Scheduler/Target.antt =====
-- src/scheduler.rs, `run_target` and `run_per_test_target`: what one target sends to the reporter and
-- to the build tool. The actions of a target run side by side; they stand in the order in which they
-- are spawned, and their requests are numbered in that order. A panic of an action's task is the
-- parameter `panicked`, by the action's number.
pub mod Laws
pub mod Complete
use quokka.Prelude.{
  Text, text, text_eq, text_eq_iff, text_eq_refl, strip_prefix, split_once, show_nat, Bool, true,
  false, not, ◌&&◌, ◌||◌, Option, none, some, ℕ, zero, suc, ◌+◌, ◌-◌, ◌*◌, ◌/◌, ◌%◌, ◌^◌, ◌≤◌, ◌<◌,
  max, min, ltb, leb, ◌==◌, if◌then◌else◌, ==_iff, Bool-cases, Option-cases, ◌≡◌, refl, sym, ap,
  ◌∙◌, ◌≢◌, ◌↔◌, ◌⊎◌, inl, inr, List, [], ◌∷◌, ◌++◌, map, Perm, arith, length, get_elem?, take,
  drop, replicate, any, filter, is_empty, All, flatten, Result, ok, err, ◌>>=◌, Key, Map, lookup,
  insert, remove, lookup-insert, lookup-insert_self, lookup-insert_ne, nat_key, text_key,
}
use quokka.Prelude.{ℤ}
use quokka.Outcome.{TestIdentity, RunIdentity, TestVerdict, build_test_result}
use quokka.Execution.{CgroupMemoryMaxOverride}
use quokka.Execution.Command.{ExecuteRequest2}
use quokka.Spec.{
  TargetSpec, ExternalRunnerSpec, from_proto, target_display, ConfiguredTarget, SpecError,
}
use quokka.Variant.{RepeatKind, once, count}
use quokka.Batching.{TestSelection, all, explicit}
use quokka.Config.{RunnerConfig}
use quokka.Translator.{Translator, TestCase}
use quokka.Scheduler.Verdict.{
  FinishedTest, ReporterMessage, finished, discovered, target_dropped, missing_terminal_result,
}
use quokka.Scheduler.Plan.{TargetPlan, derive, quarantined}
use quokka.Scheduler.Request.{Session, RpcAnswer, identity_of}
use quokka.Scheduler.Details.{finalize_details, kind_of}
use quokka.Scheduler.Action.{initial}
use quokka.Scheduler.Listing.{Listed, listed, target_failed, tests_of_target}
use quokka.Scheduler.Shard.{shard_filter}
use quokka.Scheduler.Batches.{build_batches}
use quokka.Scheduler.Execute.{console_test_name, execute_test_action}

-- What a target does, in order: a message to the reporter, a discovery reported to the build tool
-- by its suite and names, or a list of tests printed.
pub data Event : Type 0 where
  sent : ReporterMessage → Event
  reported_discovery : (handle : ℤ) (suite : Text) (names : List Text) → Event
  printed : List TestCase → Event

overrides_of : TargetSpec → RunnerConfig → List CgroupMemoryMaxOverride
overrides_of spec config =
    filter (λ o. text_eq o.target spec.display) config.cgroup_memory_max_overrides

match_each : List TestCase → List CgroupMemoryMaxOverride → Result Text Unit
match_each tests [] = ok tt
match_each tests (o ∷ os) =
    let rest = match_each tests os in
    let matched = length (filter (λ t. text_eq t.name o.test) tests) in
    if matched == 1
    then rest
    else err (
        text "cgroup memory override matched "
        ++ (show_nat matched
            ++ (text " tests, expected exactly one: " ++ (o.target ++ (124 ∷ o.test)))))

unfoldable pub validate_cgroup_memory_overrides :
    TargetSpec → RunnerConfig → List TestCase → Result Text Unit
unfolding overrides_of match_each
validate_cgroup_memory_overrides spec config tests =
    let overrides = overrides_of spec config in
    if is_empty overrides
    then ok tt
    else if not (text_eq spec.test_type (text "rust"))
        || not (any (λ l. text_eq l (text "rust:big")) spec.labels)
    then err (text "cgroup memory overrides require a rust:big singleton target: " ++ spec.display)
    else match_each tests overrides

-- `0..repeats`, from `i` on.
indices : (i repeats : ℕ) → List ℕ
indices i zero = []
indices i (suc repeats) = i ∷ indices (suc i) repeats

unfoldable pub units_of : ℕ → List (TestSelection Text) → List (TestSelection Text × ℕ)
unfolding indices
units_of repeats [] = []
units_of repeats (batch ∷ batches) =
    map (λ i. (batch, i)) (indices 0 repeats) ++ units_of repeats batches

-- A unit's expected members, among the tests of the target.
unfoldable pub expected_members : List Text → TestSelection Text → List Text
expected_members kept all = kept
expected_members kept (explicit group) = group

module _ (s : Session) (cas_note : Text → Text) where
  failed_result : TargetSpec → Bool → RepeatKind → TestVerdict → Text → FinishedTest
  failed_result spec quarantined repeat status details =
      let test_id : TestIdentity = record {
        target = spec.display;
        name = spec.display;
        variant = s.config.variant;
      } in
      let run_id : RunIdentity = record { test = test_id; repeat = repeat; repeat_index = 0 } in
      let final = finalize_details s.config.cas_inline_limit cas_note (kind_of status) details in
      record {
        result = build_test_result run_id spec.handle status none final none;
        console_name = console_test_name run_id;
        run_id = run_id;
        test_id = test_id;
        status = status;
        integrity = missing_terminal_result;
        quarantined = quarantined;
        labels = spec.labels;
        db_observations = [];
        attempt_history = [];
      }

  unfoldable pub report_target_failure_for_spec :
      TargetSpec → Bool → RepeatKind → TestVerdict → Text → List Event
  unfolding failed_result
  report_target_failure_for_spec spec quarantined repeat status details =
      reported_discovery spec.handle spec.suite ((spec.suite ++ text " (listing)") ∷ [])
      ∷ sent (finished (failed_result spec quarantined repeat status details ∷ []))
      ∷ []

  unfoldable pub report_target_failure : TargetPlan → TestVerdict → Text → List Event
  unfolding report_target_failure_for_spec
  report_target_failure plan status details =
      report_target_failure_for_spec plan.spec (quarantined plan) plan.repeat status details

  module _ (panicked : ℕ → Bool) (plan : TargetPlan) where
    finish_unit : Bool → List FinishedTest → List Event
    finish_unit true fs = []
    finish_unit false fs = sent (finished fs) ∷ []

    after_rest :
        ℕ → List FinishedTest → Option (List Event × Bool × ℕ) → Option (List Event × Bool × ℕ)
    unfolding finish_unit
    after_rest n fs none = none
    after_rest n fs (some (events, any_panicked, calls)) =
        some (finish_unit (panicked n) fs ++ events, panicked n || any_panicked, calls)

    after_action :
        ℕ
        → (ℕ → Option (List Event × Bool × ℕ))
        → Option (List FinishedTest × ℕ)
        → Option (List Event × Bool × ℕ)
    unfolding after_rest
    after_action n more none = none
    after_action n more (some (fs, calls)) = after_rest n fs (more calls)

    -- The actions from number `n` on, after `calls` requests: what they send, whether one of them
    -- panicked, and the number of requests by then.
    unfoldable pub run_units :
        List Text → List (TestSelection Text × ℕ) → (n calls : ℕ) → Option (List Event × Bool × ℕ)
    unfolding expected_members after_action
    run_units kept [] n calls = some ([], false, calls)
    run_units kept ((selection, repeat_index) ∷ units) n calls =
        after_action n (run_units kept units (suc n)) (
          execute_test_action s cas_note plan selection (expected_members kept selection)
            repeat_index 0 initial calls)

    after_units : List Event → Option (List Event × Bool × ℕ) → Option (List Event × ℕ)
    unfolding report_target_failure
    after_units before none = none
    after_units before (some (events, false, calls)) = some (before ++ events, calls)
    after_units before (some (events, true, calls)) = some (
      before
          ++ (events
              ++ report_target_failure plan TestVerdict.fatal (text "a test action task panicked")),
      calls,
    )

    batches_of : List TestCase → Option (List (TestSelection Text))
    batches_of kept =
        build_batches s.hash_key plan.spec.display kept s.config s.estimates
          plan.translator.parser_capability plan.batch_mode

    after_batches :
        List TestCase
        → List Event
        → ℕ
        → Option (List (TestSelection Text))
        → Option (List Event × ℕ)
    unfolding after_units run_units units_of
    after_batches kept before calls none = none
    after_batches kept before calls (some batches) =
        after_units before
          (run_units (map (λ t. t.name) kept) (units_of (count plan.repeat) batches) 0 calls)

    -- The tests that the target listed go to the history, those of this shard to the build tool.
    abbrev announced : (tests kept : List TestCase) → List Event
    announced tests kept =
        sent (discovered (map (λ t. identity_of s plan t.name) tests))
        ∷ reported_discovery plan.spec.handle plan.spec.suite (map (λ t. t.name) kept)
        ∷ []

    pub run_kept : (tests kept : List TestCase) → ℕ → Option (List Event × ℕ)
    unfolding after_batches batches_of
    run_kept tests [] calls =
        some (reported_discovery plan.spec.handle plan.spec.suite [] ∷ [], calls)
    run_kept tests (k ∷ kept) calls =
        let before = announced tests (k ∷ kept) in
        let run = after_batches (k ∷ kept) before calls (batches_of (k ∷ kept)) in
        if s.config.libtest_list_only then some (before ++ printed (k ∷ kept) ∷ [], calls) else run

    after_validation : List TestCase → ℕ → Result Text Unit → Option (List Event × ℕ)
    unfolding run_kept report_target_failure
    after_validation tests calls (err details) =
        some (report_target_failure plan TestVerdict.fatal details, calls)
    after_validation tests calls (ok u) =
        run_kept tests (shard_filter plan.spec.display tests s.config) calls

    after_listing : ℕ → Listed → Option (List Event × ℕ)
    unfolding after_validation validate_cgroup_memory_overrides report_target_failure
    after_listing calls (target_failed status details) =
        some (report_target_failure plan status details, calls)
    after_listing calls (listed tests) =
        after_validation tests calls (validate_cgroup_memory_overrides plan.spec s.config tests)

    module _ (supervisor : Text) (list : ℕ → ExecuteRequest2 → RpcAnswer) where
      unfoldable pub run_per_test_target : ℕ → Option (List Event × ℕ)
      unfolding after_listing
      run_per_test_target calls =
          after_listing calls (tests_of_target supervisor list s.config plan)
