-- ===== src/Scheduler/Target/Complete.antt =====
-- A target either sends what fails the run, or a result for each test that it owes.
use quokka.Prelude.{
  Text, text, Bool, true, false, ◌||◌, Option, some, ℕ, suc, if◌then◌else◌, Bool-cases, ◌≡◌, refl,
  sym, ap, ◌∙◌, ◌⊎◌, inl, inr, List, [], ◌∷◌, ◌++◌, map, Perm, arith, any, Result, ok, err, nat_key,
  text_key,
}
use mathlib.Core.List.Perm
use mathlib.Core.List.{append_assoc, map-append}
use quokka.Batching.{TestSelection}
use quokka.Batching.Buckets.{IsUsable}
use quokka.Outcome.{TestVerdict}
use quokka.Variant.{RepeatKind, count}
use quokka.Spec.{TargetSpec}
use quokka.Translator.{TestCase}
use quokka.Execution.Command.{ExecuteRequest2}
use quokka.Scheduler.Verdict.{
  FinishedTest, ReporterMessage, finished, discovered, target_dropped, report_disposition,
}
use quokka.Scheduler.Plan.{TargetPlan}
use quokka.Scheduler.Request.{Session, RpcAnswer}
use quokka.Scheduler.Action.{initial}
use quokka.Scheduler.Batches.{chosen_mode}
use quokka.Scheduler.Batches.Laws.{build_batches-perm}
use quokka.Scheduler.Shard.{shard_filter}
use quokka.Scheduler.Execute.Laws.{execute_test_action_lem}
use quokka.Scheduler.Execute.Answers.{name_of}
use quokka.Scheduler.Reporter.Laws.{blocks, tests_of}
use quokka.Scheduler.Listing.{Listed, listed, target_failed, tests_of_target}
use quokka.Scheduler.Target.{
  Event, printed, units_of, expected_members, validate_cgroup_memory_overrides,
  report_target_failure_for_spec, report_target_failure, failed_result, run_units, finish_unit,
  after_rest, after_action, after_units, announced, batches_of, after_batches, run_kept,
  after_validation, after_listing, run_per_test_target,
}
use quokka.Scheduler.Target.Laws.{
  messages, messages-append, owed, times, times-nil, owed-units_of, times-perm,
}

-- The names of the finished tests that a target sends.
abbrev pub sent_names : List Event → List Text
sent_names events = map name_of (tests_of (messages events))

-- One of the messages of the target alone fails the run.
abbrev pub blocked : List Event → Bool
blocked events = any blocks (messages events)

if_true : {A : Type 0} (b : Bool) (x y : A) → b ≡ true → (if b then x else y) ≡ x
if_true b x y h = rw h refl

pub if_false : {A : Type 0} (b : Bool) (x y : A) → b ≡ false → (if b then x else y) ≡ y
if_false b x y h = rw h refl

pub any-append :
    {A : Type 0} (p : A → Bool) (xs ys : List A) → any p (xs ++ ys) ≡ (any p xs || any p ys)
any-append p [] ys = refl
any-append p (x ∷ xs) ys = ground (arith, any-append p xs ys)

pub blocked-append : (xs ys : List Event) → blocked (xs ++ ys) ≡ (blocked xs || blocked ys)
blocked-append xs ys =
    ap (any blocks) (messages-append xs ys) ∙ any-append blocks (messages xs) (messages ys)

tests_of-append : (xs ys : List ReporterMessage) → tests_of (xs ++ ys) ≡ tests_of xs ++ tests_of ys
unfolding tests_of
tests_of-append [] ys = refl
tests_of-append (finished batch ∷ xs) ys =
    ap (λ t. batch ++ t) (tests_of-append xs ys)
    ∙ sym (append_assoc batch (tests_of xs) (tests_of ys))
tests_of-append (discovered tids ∷ xs) ys = tests_of-append xs ys
tests_of-append (target_dropped reason ∷ xs) ys = tests_of-append xs ys

sent_names-append : (xs ys : List Event) → sent_names (xs ++ ys) ≡ sent_names xs ++ sent_names ys
sent_names-append xs ys =
    ap (λ ms. map name_of (tests_of ms)) (messages-append xs ys)
    ∙ ap (map name_of) (tests_of-append (messages xs) (messages ys))
    ∙ map-append name_of (tests_of (messages xs)) (tests_of (messages ys))

module _ (s : Session) (cas_note : Text → Text) where
  pub report_target_failure_for_spec-blocked :
      (spec : TargetSpec) (q : Bool) (repeat : RepeatKind) (status : TestVerdict) (details : Text)
      → blocked (report_target_failure_for_spec s cas_note spec q repeat status details) ≡ true
  unfolding report_target_failure_for_spec failed_result messages report_disposition
  report_target_failure_for_spec-blocked spec q repeat status details = refl

  report_target_failure-blocked :
      (plan : TargetPlan) (status : TestVerdict) (details : Text)
      → blocked (report_target_failure s cas_note plan status details) ≡ true
  unfolding report_target_failure
  report_target_failure-blocked plan status details =
      report_target_failure_for_spec-blocked plan.spec _ plan.repeat status details

  module _ (panicked : ℕ → Bool) (plan : TargetPlan) where
    paid :
        (q p : Bool) (fs : List FinishedTest) (events : List Event) (expected rest : List Text)
        → Perm (map name_of fs) expected
        → (p ≡ false → Perm (sent_names events) rest)
        → (q || p) ≡ false
        → Perm (sent_names (finish_unit s cas_note panicked plan q fs ++ events)) (expected ++ rest)
    unfolding finish_unit tests_of messages
    paid true p fs events expected rest names more h = absurd cc
    paid false p fs events expected rest names more h =
        rw (map-append name_of fs (tests_of (messages events))) (Perm.append names (more h))

    -- The units end, and without a panic each member of each of them has its result.
    abbrev Pays :
        List Text → List (TestSelection Text × ℕ) → Option (List Event × Bool × ℕ) → Type 0
    Pays kept units r =
        (events : List Event) × (p : Bool) × (calls : ℕ) × (r ≡ some (events, p, calls))
        × (p ≡ false → Perm (sent_names events) (owed kept units))

    run_units_lem :
        (kept : List Text) (units : List (TestSelection Text × ℕ)) (n calls : ℕ)
        → Pays kept units (run_units s cas_note panicked plan kept units n calls)
    unfolding run_units after_action after_rest owed tests_of messages
    run_units_lem kept [] n calls = ([], false, calls, refl, λ h. Perm.rfl)
    run_units_lem kept ((selection, i) ∷ units) n calls =
        let expected = expected_members kept selection in
        let (fs, calls', runs, names) =
          execute_test_action_lem s cas_note plan i selection expected 0 calls initial in
        let (events, p, calls'', rest, more) = run_units_lem kept units (suc n) calls' in
        (
          finish_unit s cas_note panicked plan (panicked n) fs ++ events,
          panicked n || p,
          calls'',
          rw (runs, after_action, rest, after_rest) refl,
          paid (panicked n) p fs events expected (owed kept units) names more,
        )

    -- What a target of which the shard keeps these tests sends: what fails the run, or, if the run
    -- does more than list, the name of each test as often as the target is repeated.
    abbrev pub Settles : List TestCase → List Event → Type 0
    Settles kept events =
        (blocked events ≡ true)
        ⊎ ((s.config.libtest_list_only ≡ true)
            ⊎ Perm (sent_names events) (times (count plan.repeat) (map (λ t. t.name) kept)))

    abbrev pub Ends : List TestCase → Option (List Event × ℕ) → Type 0
    Ends kept r =
        (events : List Event) × (calls : ℕ) × (r ≡ some (events, calls)) × Settles kept events

    after_units_lem :
        (before events : List Event) (p : Bool) (calls : ℕ) (names : List Text)
        → sent_names before ≡ []
        → (p ≡ false → Perm (sent_names events) names)
        → (all_events : List Event) × (calls' : ℕ) × (after_units s cas_note panicked plan before
              (some (events, p, calls))
            ≡ some (all_events, calls'))
          × ((blocked all_events ≡ true) ⊎ Perm (sent_names all_events) names)
    unfolding after_units
    after_units_lem before events false calls names quiet more = (
      before ++ events,
      calls,
      refl,
      inr (rw (sent_names-append before events, quiet) (more refl)),
    )
    after_units_lem before events true calls names quiet more =
        let failure =
          report_target_failure s cas_note plan TestVerdict.fatal
            (text "a test action task panicked") in
        let fails =
          report_target_failure-blocked plan TestVerdict.fatal
            (text "a test action task panicked") in
        (
          before ++ (events ++ failure),
          calls,
          refl,
          inl (
              ground (
                arith,
                blocked-append before (events ++ failure),
                blocked-append events failure,
                fails,
              )),
        )

    abbrev pub Usable : Type 0
    Usable = IsUsable (chosen_mode s.config plan.translator.parser_capability plan.batch_mode)

    after_batches_lem :
        (kept : List TestCase) (before : List Event) (calls : ℕ)
        → Usable
        → sent_names before ≡ []
        → Ends kept (
            after_batches s cas_note panicked plan kept before calls
              (batches_of s cas_note panicked plan kept))
    unfolding after_batches batches_of
    after_batches_lem kept before calls usable quiet =
        let names = map (λ t. t.name) kept in
        let repeats = count plan.repeat in
        let (batches, built, covers) =
          build_batches-perm s.hash_key plan.spec.display kept s.config s.estimates
            plan.translator.parser_capability plan.batch_mode usable in
        let units = units_of repeats batches in
        let (events, p, calls', runs, more) = run_units_lem names units 0 calls in
        let (all_events, calls'', ends, pays) =
          after_units_lem before events p calls' (owed names units) quiet more in
        (
          all_events,
          calls'',
          rw (built, after_batches, runs) ends,
          elim pays [
            | inl fails ↦ inl fails
            | inr owes ↦ inr (
                inr (
                  Perm.trans owes
                    (Perm.trans (owed-units_of names repeats batches) (times-perm repeats covers))))
          ],
        )

    run_kept_lem :
        (tests kept : List TestCase) (calls : ℕ)
        → Usable
        → Ends kept (run_kept s cas_note panicked plan tests kept calls)
    unfolding run_kept messages tests_of
    run_kept_lem tests [] calls usable =
        (_, calls, refl, inr (inr (rw (times-nil (count plan.repeat)) Perm.rfl)))
    run_kept_lem tests (k ∷ kept) calls usable =
        let before = announced s cas_note panicked plan tests (k ∷ kept) in
        elim (Bool-cases s.config.libtest_list_only) [
          | inl only ↦
              (before ++ printed (k ∷ kept) ∷ [], calls, if_true _ _ _ only, inr (inl only))
          | inr runs ↦
              let (events, calls', ends, settles) =
                after_batches_lem (k ∷ kept) before calls usable refl in
              (events, calls', if_false _ _ _ runs ∙ ends, settles)
        ]

    after_validation_lem :
        (tests : List TestCase) (calls : ℕ) (valid : Result Text Unit)
        → Usable
        → Ends
            (shard_filter plan.spec.display tests s.config)
            (after_validation s cas_note panicked plan tests calls valid)
    unfolding after_validation
    after_validation_lem tests calls (err details) usable =
        (_, calls, refl, inl (report_target_failure-blocked plan TestVerdict.fatal details))
    after_validation_lem tests calls (ok u) usable =
        run_kept_lem tests (shard_filter plan.spec.display tests s.config) calls usable

    -- What the target sends: what fails the run, or the results of the tests that it listed.
    abbrev pub Answers : Listed → List Event → Type 0
    Answers l events =
        (blocked events ≡ true)
        ⊎ ((tests : List TestCase) × (l ≡ listed tests)
            × Settles (shard_filter plan.spec.display tests s.config) events)

    after_listing_lem :
        (calls : ℕ) (l : Listed)
        → Usable
        → (events : List Event) × (calls' : ℕ) × (after_listing s cas_note panicked plan calls l
            ≡ some (events, calls'))
          × Answers l events
    unfolding after_listing
    after_listing_lem calls (target_failed status details) usable =
        (_, calls, refl, inl (report_target_failure-blocked plan status details))
    after_listing_lem calls (listed tests) usable =
        let valid = validate_cgroup_memory_overrides plan.spec s.config tests in
        let (events, calls', ends, settles) = after_validation_lem tests calls valid usable in
        (events, calls', ends, inr (tests, refl, settles))

    -- Whatever the executor answers to the listing and to the actions, a target comes to its end, and
    -- either it sends a message that alone fails the run, or it listed its tests and the run only
    -- lists, or each test that the shard keeps has its result as often as the target is repeated.
    pub run_per_test_target_lem :
        (supervisor : Text) (list : ℕ → ExecuteRequest2 → RpcAnswer) (calls : ℕ)
        → Usable
        → (events : List Event) × (calls' : ℕ) × (run_per_test_target s cas_note panicked plan
              supervisor list calls
            ≡ some (events, calls'))
          × Answers (tests_of_target supervisor list s.config plan) events
    unfolding run_per_test_target
    run_per_test_target_lem supervisor list calls usable =
        after_listing_lem calls (tests_of_target supervisor list s.config plan) usable
